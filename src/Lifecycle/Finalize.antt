-- ===== src/Lifecycle/Finalize.antt =====
-- `finalizeTerminal` of prisma-game-lifecycle.repository.ts: the terminal update that every
-- adjudication and resignation ends with.
use clu_chess.Base.{ℕ, ◌+◌, ◌==◌, false, not, Option, none, some}
use clu_chess.Game.{GameStatus}
use clu_chess.Game.Terminal.{OutcomeStatus, completed, abandoned, expired, TerminalOutcome}
use clu_chess.Store.Codec.{persisted_result, persisted_termination}
use clu_chess.Store.Loading.{PersistedGame, guest_tuple}
use clu_chess.Store.LockedClock.{LockedGameClock}
use clu_chess.Store.Rows.{
  Uuid, GameRow, PlayerRow, GameplayClock, EndedGame, TerminalSubmission, Database,
}
use clu_chess.Store.Tables.{update_game, update_where, delete_where}
use clu_chess.Store.Tx.{Body, ◌>>=◌, ◌>>◌, return, return_if, modify, next}

unfoldable pub game_status : OutcomeStatus → GameStatus
game_status abandoned = GameStatus.abandoned
game_status completed = GameStatus.completed
game_status expired = GameStatus.expired

unfoldable pub terminal_clock : LockedGameClock → GameplayClock
terminal_clock locked = record {
  black_ms = locked.black_clock_ms;
  observed_at = locked.observed_at;
  running = none;
  white_ms = locked.white_clock_ms;
}

-- The `data` of the update.
unfoldable pub terminal_row : LockedGameClock → TerminalOutcome → GameRow → GameRow
unfolding game_status
terminal_row locked outcome g = record g {
  black_clock_ms = locked.black_clock_ms;
  ended_at = some locked.observed_at;
  reconnect_deadline_at = none;
  result = some (persisted_result outcome.result);
  status = game_status outcome.status;
  termination = some (persisted_termination outcome.termination);
  turn_started_at = none;
  version = g.version + 1;
  white_clock_ms = locked.white_clock_ms;
}

abbrev pub no_grace : PlayerRow → PlayerRow
no_grace p = record p { disconnected_at = none; reconnect_grace_ends_at = none }

-- `updateMany` on a game, with the count of rows.
unfoldable pub update_game_row : {R : Type 0} → Uuid → ℕ → (GameRow → GameRow) → Body R ℕ
update_game_row id version f db =
    let (n, games) = update_game id version f db.games in next n (record db { games = games })

-- The two statements that follow the update.
unfoldable pub release_players : Uuid → Database → Database
release_players id db = record db {
  players = update_where (λ p. p.game_id == id) no_grace db.players;
  assignments = delete_where (λ a. a.game_id == id) db.assignments;
}

unfoldable pub ended_game : PersistedGame → LockedGameClock → TerminalOutcome → EndedGame
unfolding terminal_clock
ended_game game locked outcome = record {
  clocks = terminal_clock locked;
  final_fen = game.game.current_fen;
  game_id = game.game.id;
  game_version = game.game.version + 1;
  pgn = game.game.pgn;
  result = outcome.result;
  termination = outcome.termination;
}

unfoldable pub finalize_terminal :
    PersistedGame
    → LockedGameClock
    → TerminalOutcome
    → Body (Option TerminalSubmission) (Option TerminalSubmission)
finalize_terminal game locked outcome = do
  guests ← guest_tuple game.players
  count ← update_game_row game.game.id game.game.version (terminal_row locked outcome)
  return_if (not (count == 1)) none
  modify (release_players game.game.id)
  return (
      some (record {
        duplicate = false;
        ended = ended_game game locked outcome;
        guest_session_ids = guests;
      }))
