-- ===== src/Services/Room.antt =====
-- game-room.service.ts of src/modules/game. The ephemeral state in Redis and the timers are told
-- after the tables have changed, and change nothing here.
use clu_chess.Base.{◌==◌, Bool, false, ◌||◌, Option, none, some, Result, ok, err, if◌then◌else◌}
use clu_chess.Base.Number.{ℤ}
use clu_chess.Game.{
  GameStatus, ready, in_progress, reconnecting, eq_status, w, GameDomainError, game_not_found,
  game_state_corrupt, not_a_player,
}
use clu_chess.Game.Clock.{GameClock, ClockView, clock_view_at}
use clu_chess.Store.Rows.{Uuid, StartedGame, Database}
use clu_chess.Lifecycle.Resign.{Failure, service}
use clu_chess.Gameplay.Effect.{stored_date}
use clu_chess.Allocation.Queries.{
  GameSnapshotRecord, find_by_id, find_snapshot, guest_match_eligibility,
}
use clu_chess.Allocation.Ready.{mark_ready}
use clu_chess.Allocation.Records.{
  MarkGameReady, GamePlayerRecord, GameRecord, GameAllocation, refusal,
}
use clu_chess.Allocation.Start.{StartGameResult, start_if_ready}

pub record GameSnapshotView : Type 0 where
  pub snapshot : GameSnapshotRecord
  pub clocks : ClockView

pub record ReadyGameResult : Type 0 where
  pub snapshot : GameSnapshotView
  pub started : Option StartedGame

-- `players.some((player) => player.guestSessionId === guestSessionId)`.
abbrev pub is_player : Uuid → GamePlayerRecord × GamePlayerRecord → Bool
is_player guest (p, q) = (p.guest_session_id == guest) || (q.guest_session_id == guest)

abbrev pub authorized :
    Uuid → Result Failure (Option GameAllocation) → Result Failure GameAllocation
authorized guest (err e) = err e
authorized guest (ok none) = err (service (refusal game_not_found false none))
authorized guest (ok (some a)) =
    if is_player guest a.players then ok a else err (service (refusal not_a_player false none))

unfoldable pub authorize : Uuid → Uuid → Database → Result Failure GameAllocation
authorize game_id guest db = authorized guest (find_by_id game_id db)

abbrev pub is_running : GameStatus → Bool
is_running status = eq_status status in_progress || eq_status status reconnecting

-- The clock of a snapshot.
unfoldable pub snapshot_clock : GameRecord → GameClock
snapshot_clock g = record {
  black_ms = g.black_clock_ms;
  increment_ms = g.increment_ms;
  running = if is_running g.status then some g.turn_color else none;
  turn_started_at = if is_running g.status then stored_date g.turn_started_at else none;
  white_ms = g.white_clock_ms;
}

abbrev pub with_clocks :
    GameSnapshotRecord → Result GameDomainError ClockView → Result Failure GameSnapshotView
with_clocks s (ok clocks) = ok (record { snapshot = s; clocks = clocks })
with_clocks s (err _) = err (service (refusal game_state_corrupt false none))

abbrev pub viewed :
    Uuid → Result Failure (Option GameSnapshotRecord) → Result Failure GameSnapshotView
viewed guest (err e) = err e
viewed guest (ok none) = err (service (refusal game_not_found false none))
viewed guest (ok (some s)) =
    if is_player guest s.players
    then with_clocks s (clock_view_at (snapshot_clock s.game) (some s.observed_at))
    else err (service (refusal not_a_player false none))

unfoldable pub snapshot : ℤ → Uuid → Uuid → Database → Result Failure GameSnapshotView
snapshot now game_id guest db = viewed guest (find_snapshot now game_id db)

unfoldable pub active_snapshot : ℤ → ℤ → Uuid → Database → Result Failure GameSnapshotView
active_snapshot asked_at now guest db =
    elim (guest_match_eligibility guest asked_at db).active_game_id [
      | none ↦ err (service (refusal game_not_found false none))
      | some game_id ↦ snapshot now game_id guest db
    ]

-- The event of a start.
abbrev pub start_event : GameRecord → ℤ → StartedGame
start_event g started_at = record {
  clocks = record {
    black_ms = g.black_clock_ms;
    observed_at = started_at;
    running = some w;
    white_ms = g.white_clock_ms;
  };
  game_id = g.id;
  game_version = g.version;
  initial_fen = g.initial_fen;
}

abbrev pub start_event_of : GameRecord → Option ℤ → Result Failure (Option StartedGame)
start_event_of g none = err (service (refusal game_state_corrupt false none))
start_event_of g (some started_at) = ok (some (start_event g started_at))

abbrev pub started_of : Result Failure StartGameResult → Result Failure (Option StartedGame)
started_of (err e) = err e
started_of (ok r) =
    if r.started then start_event_of r.allocation.game r.allocation.game.started_at else ok none

abbrev pub started_answer :
    Result Failure StartGameResult × Database → Result Failure (Option StartedGame) × Database
started_answer (answer, db) = (started_of answer, db)

-- The start of a game that is READY.
abbrev pub start_of :
    ℤ → Uuid → GameAllocation → Database → Result Failure (Option StartedGame) × Database
start_of now game_id a db =
    if eq_status a.game.status ready
    then started_answer (start_if_ready now game_id db)
    else (ok none, db)

abbrev pub with_started :
    Option StartedGame → Result Failure GameSnapshotView → Result Failure ReadyGameResult
with_started started (ok view) = ok (record { snapshot = view; started = started })
with_started started (err e) = err e

abbrev pub ready_answer :
    ℤ
    → Uuid
    → Uuid
    → Result Failure (Option StartedGame) × Database
    → Result Failure ReadyGameResult × Database
ready_answer now game_id guest (err e, db) = (err e, db)
ready_answer now game_id guest (ok started, db) =
    (with_started started (snapshot now game_id guest db), db)

abbrev pub after_ready :
    ℤ
    → ℤ
    → Uuid
    → Uuid
    → Result Failure GameAllocation × Database
    → Result Failure ReadyGameResult × Database
after_ready start_now view_now game_id guest (err e, db) = (err e, db)
after_ready start_now view_now game_id guest (ok a, db) =
    ready_answer view_now game_id guest (start_of start_now game_id a db)

-- `ready`, with the times that the three statements observe.
unfoldable pub ready_player :
    MarkGameReady → ℤ → ℤ → Database → Result Failure ReadyGameResult × Database
ready_player input start_now view_now db =
    after_ready start_now view_now input.game_id input.guest_session_id (mark_ready input db)
