-- ===== src/Lifecycle/Resign.antt =====
-- `resign` of prisma-game-lifecycle.repository.ts.
use clu_chess.Base.{
  ℕ, ◌+◌, ◌==◌, Bool, true, false, not, ◌||◌, Option, none, some, [], ◌∷◌, ◌++◌, Result, ok, err,
  if◌then◌else◌,
}
use clu_chess.Base.Number.{ℤ}
use clu_chess.Game.{
  GameServiceErrorCode, game_already_ended, game_not_found, idempotency_key_reused, not_a_player,
  stale_game_version,
}
use clu_chess.Game.Terminal.{resigned, derive_terminal_outcome}
use clu_chess.Store.Loading.{load_game, lock_game_clock, find_command, player_for}
use clu_chess.Store.LockedClock.{is_live}
use clu_chess.Store.Rows.{
  Uuid, CommandRow, CommandType, StoredResponse, terminal_response, TerminalSubmission, Database,
}
use clu_chess.Store.Tx.{
  Body, DatabaseErrorKind, unique, ◌>>=◌, ◌>>◌, return, return_if, or_return, or_throw, gets, call,
  run_transaction, next, returned, thrown,
}
use clu_chess.Lifecycle.Finalize.{finalize_terminal}

pub record ResignGame : Type 0 where
  pub event_id : Uuid
  pub expected_version : ℕ
  pub game_id : Uuid
  pub guest_session_id : Uuid

-- `GameServiceError`, less its message.
pub record ServiceError : Type 0 where
  pub code : GameServiceErrorCode
  pub retryable : Bool
  pub authoritative_version : Option ℕ

-- `ResignTransactionResult`.
pub data ResignResult : Type 0 where
  accepted : TerminalSubmission → ResignResult
  rejected : ServiceError → ResignResult

abbrev pub reject : GameServiceErrorCode → Bool → Option ℕ → ResignResult
reject code retryable version =
    rejected (record { code = code; retryable = retryable; authoritative_version = version })

abbrev pub is_resign : CommandType → Bool
is_resign CommandType.resign = true
is_resign _ = false

pub parsed_result : StoredResponse → ResignResult
parsed_result (terminal_response ended guests) =
    accepted (record { duplicate = true; ended = ended; guest_session_ids = guests })
parsed_result _ = reject idempotency_key_reused false none

unfoldable pub replay_result : CommandRow → ResignGame → ResignResult
unfolding parsed_result
replay_result command input =
    if not (is_resign command.command_type)
      || not (command.guest_session_id == input.guest_session_id)
    then reject idempotency_key_reused false none
    else parsed_result command.response

-- `gameCommand.create`; the pair of game and event is unique.
unfoldable pub create_command : {R : Type 0} → CommandRow → Body R (Unit {0})
create_command c db = elim (find_command c.game_id c.event_id db) [
  | none ↦ next tt (record db { commands = db.commands ++ c ∷ [] })
  | some _ ↦ thrown unique
]

unfoldable pub resign_command : ResignGame → TerminalSubmission → CommandRow
resign_command input submission = record {
  game_id = input.game_id;
  guest_session_id = input.guest_session_id;
  event_id = input.event_id;
  command_type = CommandType.resign;
  result_version = submission.ended.game_version;
  response = terminal_response submission.ended submission.guest_session_ids;
}

-- The replay of an earlier command with the same event, if there is one.
abbrev pub return_replay : Option CommandRow → ResignGame → Body ResignResult (Unit {0})
return_replay none input db = next tt db
return_replay (some c) input db = returned (replay_result c input) db

unfoldable pub resign_in_transaction : ℤ → ResignGame → Body ResignResult ResignResult
unfolding resign_command
resign_in_transaction now input = do
  row ← gets (lock_game_clock now input.game_id)
  locked ← or_return row (reject game_not_found false none)
  loaded ← gets (load_game input.game_id)
  game ← or_return loaded (reject game_not_found false none)
  player ←
      or_return (player_for game input.guest_session_id)
        (reject not_a_player false (some game.game.version))
  replay ← gets (find_command input.game_id input.event_id)
  return_replay replay input
  return_if (not (is_live game.game.status))
      (reject game_already_ended false (some game.game.version))
  return_if (not (input.expected_version == game.game.version))
      (reject stale_game_version true (some game.game.version))
  outcome ← or_throw (derive_terminal_outcome (resigned player.color))
  done ← call (finalize_terminal game locked outcome)
  submission ← or_return done (reject stale_game_version true (some (game.game.version + 1)))
  create_command (resign_command input submission)
  return (accepted submission)

-- What the caller sees: a `GameServiceError` or a `DatabaseError`.
pub data Failure : Type 0 where
  service : ServiceError → Failure
  database : DatabaseErrorKind → Failure

abbrev pub unwrap : ResignResult → Result Failure TerminalSubmission
unwrap (accepted s) = ok s
unwrap (rejected e) = err (service e)

-- `findResignReplay`, outside the transaction.
abbrev pub resign_replay : ResignGame → Database → Result Failure TerminalSubmission
resign_replay input db = elim (find_command input.game_id input.event_id db) [
  | none ↦ err (database unique)
  | some c ↦ unwrap (replay_result c input)
]

abbrev pub conclude :
    ResignGame
    → Result DatabaseErrorKind ResignResult × Database
    → Result Failure TerminalSubmission × Database
conclude input (ok r, db) = (unwrap r, db)
conclude input (err DatabaseErrorKind.unique, db) = (resign_replay input db, db)
conclude input (err e, db) = (err (database e), db)

unfoldable pub resign : ℤ → ResignGame → Database → Result Failure TerminalSubmission × Database
resign now input db = conclude input (run_transaction (resign_in_transaction now input) db)
