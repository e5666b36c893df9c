-- ===== src/Services/Presentation.antt =====
-- What a player is shown: `snapshot` of game-room.service.ts and game-snapshot.presenter.ts.
use clu_chess.Base.{
  refl, false, Bool-cases, inl, inr, List, [], ◌∷◌, map, ◌≡◌, ◌≢◌, ◌==◌, true, Option, none, some,
  Result, ok, err, arith, if◌then◌else◌,
}
use clu_chess.Base.Number.{ℤ}
use clu_chess.Game.{PlayerColor, w, b, GameDomainError}
use clu_chess.Game.Clock.{ClockView, clock_view_at}
use clu_chess.Store.Rows.{Uuid, Database}
use clu_chess.Lifecycle.Resign.{Failure}
use clu_chess.Allocation.Queries.{GameMove, GameSnapshotRecord, find_snapshot}
use clu_chess.Allocation.Records.{GamePlayerRecord}
use clu_chess.Services.Presenter.{
  wire_running, GameSnapshotPayload, WireColor, white, black, PublicPlayer, WireMove, wire_color,
  wire_move, public_player, present_snapshot, payload,
}
use clu_chess.Services.Room.{
  GameSnapshotView, snapshot, viewed, with_clocks, snapshot_clock, is_player,
}

-- A view is of the snapshot that it was made from.
with_clocks-snapshot :
    (s : GameSnapshotRecord) (r : Result GameDomainError ClockView) (view : GameSnapshotView)
    → with_clocks s r ≡ ok view
    → view.snapshot ≡ s
with_clocks-snapshot s (ok clocks) view h = ground arith
with_clocks-snapshot s (err e) view h = ground arith

viewed_member :
    (guest : Uuid) (r : Result Failure (Option GameSnapshotRecord)) (view : GameSnapshotView)
    → viewed guest r ≡ ok view
    → is_player guest view.snapshot.players ≡ true
viewed_member guest (err e) view h = ground arith
viewed_member guest (ok none) view h = ground arith
viewed_member guest (ok (some s)) view h = ground (
  arith,
  with_clocks-snapshot s (clock_view_at (snapshot_clock s.game) (some s.observed_at)) view,
)

-- What a guest should be shown of a player, of a color and of a move.
abbrev pub shown_color : PlayerColor → WireColor
shown_color c = elim c [ w ↦ white | b ↦ black ]

abbrev pub shown_player : GamePlayerRecord → PublicPlayer
shown_player p = record {
  avatar = p.avatar_key;
  color = shown_color p.color;
  connected = elim p.connected_at [ none ↦ false | some _ ↦ true ];
  name = p.display_name;
}

abbrev pub shown_moves : List GameMove → List WireMove
shown_moves [] = []
shown_moves (m ∷ ms) =
    record { color = shown_color m.color; ply = m.ply; san = m.san; uci = m.uci } ∷ shown_moves ms

moves_shown : (ms : List GameMove) → map wire_move ms ≡ shown_moves ms
unfolding wire_move wire_color
moves_shown [] = refl
moves_shown (m ∷ ms) = ground (arith, moves_shown ms)

running_shown :
    (c : Option PlayerColor)
    → wire_running c ≡ elim c [ none ↦ none | some x ↦ some (shown_color x) ]
unfolding wire_color
running_shown none = refl
running_shown (some c) = refl

-- What a guest should be shown, as `you` and with the opponent.
abbrev pub shown_payload :
    GameSnapshotView → GamePlayerRecord → GamePlayerRecord → GameSnapshotPayload
shown_payload view you opponent =
    let g = view.snapshot.game in
    record {
      clocks = record {
        black_ms = view.clocks.black_ms;
        running = elim view.clocks.running [ none ↦ none | some c ↦ some (shown_color c) ];
        server_time = view.clocks.observed_at;
        white_ms = view.clocks.white_ms;
      };
      current_fen = g.current_fen;
      initial_fen = g.initial_fen;
      moves = shown_moves view.snapshot.moves;
      opponent = shown_player opponent;
      result = g.result;
      status = g.status;
      termination = g.termination;
      turn = shown_color g.turn_color;
      you = shown_player you;
    }

payload_shown :
    (view : GameSnapshotView) (you opponent : GamePlayerRecord)
    → payload view (some you) (some opponent) ≡ some (shown_payload view you opponent)
unfolding public_player wire_color
payload_shown view you opponent =
    rw (moves_shown view.snapshot.moves, running_shown view.clocks.running) refl

presented :
    (now : ℤ) (id guest : Uuid) (db : Database) (view : GameSnapshotView)
    → snapshot now id guest db ≡ ok view
    → let (p, q) = view.snapshot.players in
      p.guest_session_id ≢ q.guest_session_id
      → present_snapshot view guest ≡ (
          if p.guest_session_id == guest
          then payload view (some p) (some q)
          else payload view (some q) (some p))
unfolding snapshot present_snapshot
presented now id guest db view h ne =
    ground (arith, viewed_member guest (find_snapshot now id db) view h)

-- A guest to whom a snapshot of a game with two different players is answered is shown it with
-- their own name, avatar, color and connection as `you`, those of the other player as
-- `opponent`, both clocks, whose runs and at which moment, the positions, all moves in order,
-- the status, the result, the termination and the turn.
pub snapshot-present_snapshot :
    (now : ℤ) (id guest : Uuid) (db : Database) (view : GameSnapshotView)
    → snapshot now id guest db ≡ ok view
    → let (p, q) = view.snapshot.players in
      let g = view.snapshot.game in
      p.guest_session_id ≢ q.guest_session_id
      → present_snapshot view guest
        ≡ some
            (if p.guest_session_id == guest then shown_payload view p q else shown_payload view q p)
snapshot-present_snapshot now id guest db view h ne =
    let (p, q) = view.snapshot.players in
    elim (Bool-cases (p.guest_session_id == guest)) [
      | inl e ↦ rw (presented now id guest db view h ne, e) (payload_shown view p q)
      | inr e ↦ rw (presented now id guest db view h ne, e) (payload_shown view q p)
    ]
