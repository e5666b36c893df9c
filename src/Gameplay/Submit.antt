-- ===== src/Gameplay/Submit.antt =====
-- `submitMove` of prisma-gameplay.repository.ts.
use clu_chess.Base.{
  ℕ, ◌==◌, Bool, true, false, not, ◌&&◌, ◌||◌, Option, none, some, Result, ok, err, if◌then◌else◌,
}
use clu_chess.Base.Number.{ℤ}
use clu_chess.Game.{
  in_progress, ready, PlayerColor, GameDomainError, GameServiceErrorCode, game_already_ended,
  game_not_found, idempotency_key_reused, not_a_player, stale_game_version, game_unavailable,
  not_your_turn, game_state_corrupt, clock_expired, illegal_move, eq_status, eq_color,
}
use clu_chess.Game.Clock.{GameClock, ClockAdmission}
use clu_chess.Game.StateMachine.Runs.{is_terminal}
use clu_chess.Game.Terminal.{TerminalOutcome}
use clu_chess.Chess.{MoveEvaluation, ChessEngine, ChessEngineErrorCode}
use clu_chess.Store.Loading.{PersistedGame, load_game, lock_game_clock, find_command, player_for}
use clu_chess.Store.Rows.{
  Uuid, GameRow, MoveSubmission, CommandRow, CommandType, StoredResponse, move_response, Database,
  PlayerRow,
}
use clu_chess.Store.Tables.{delete_where}
use clu_chess.Store.Tx.{
  Body, DatabaseErrorKind, ◌>>=◌, ◌>>◌, return, return_if, or_return, or_throw, gets, modify,
  run_transaction, next, returned,
}
use clu_chess.Lifecycle.Finalize.{update_game_row}
use clu_chess.Lifecycle.Resign.{ServiceError, Failure, service, database, create_command}
use clu_chess.Gameplay.Effect.{
  question, SubmitMove, admit, board_outcome, guest_pair, moved_row, played_move, submission_of,
}
use clu_chess.Gameplay.History.{moves_of, has_contiguous_history, create_move}

-- `MoveTransactionResult`.
pub data MoveResult : Type 0 where
  accepted : MoveSubmission → MoveResult
  rejected : ServiceError → MoveResult
  stale_write : ℕ → MoveResult

abbrev pub reject : GameServiceErrorCode → Bool → Option ℕ → MoveResult
reject code retryable version =
    rejected (record { code = code; retryable = retryable; authoritative_version = version })

abbrev pub is_move : CommandType → Bool
is_move CommandType.move = true
is_move _ = false

-- `persistedSubmissionSchema.safeParse`, and what follows it.
abbrev pub parsed_submission : StoredResponse → MoveResult
parsed_submission (move_response move ended guests started) = accepted (record {
  accepted = move;
  duplicate = true;
  ended = ended;
  guest_session_ids = guests;
  started = started;
})
parsed_submission _ = reject game_state_corrupt false none

unfoldable pub replay_result : CommandRow → SubmitMove → MoveResult
replay_result command input =
    if not (is_move command.command_type)
      || not (command.guest_session_id == input.guest_session_id)
    then reject idempotency_key_reused false none
    else parsed_submission command.response

abbrev pub return_replay : Option CommandRow → SubmitMove → Body MoveResult (Unit {0})
return_replay none input db = next tt db
return_replay (some c) input db = returned (replay_result c input) db

-- Its two refusals.
abbrev pub or_refuse : Result GameDomainError ClockAdmission → ℕ → Body MoveResult GameClock
or_refuse (err _) version db = returned (reject game_state_corrupt false (some version)) db
or_refuse (ok (ClockAdmission.flag_fall _ _ _)) version db =
    returned (reject clock_expired false (some version)) db
or_refuse (ok (ClockAdmission.accepted clock _)) version db = next clock db

-- The `try` around the engine.
abbrev pub or_illegal :
    Result ChessEngineErrorCode MoveEvaluation → ℕ → Body MoveResult MoveEvaluation
or_illegal (err ChessEngineErrorCode.illegal_move) version db =
    returned (reject illegal_move false (some version)) db
or_illegal (err _) version db = returned (reject game_state_corrupt false (some version)) db
or_illegal (ok evaluation) version db = next evaluation db

-- `activeGameAssignment.deleteMany`, if the move has ended the game.
abbrev pub release_if : Option TerminalOutcome → Uuid → Database → Database
release_if none id db = db
release_if (some _) id db = record db {
  assignments = delete_where (λ a. a.game_id == id) db.assignments;
}

-- `persistedSubmission` in the command's row.
unfoldable pub move_command : SubmitMove → MoveSubmission → CommandRow
move_command input s = record {
  game_id = input.game_id;
  guest_session_id = input.guest_session_id;
  event_id = input.client_move_id;
  command_type = CommandType.move;
  result_version = s.accepted.game_version;
  response = move_response s.accepted s.ended s.guest_session_ids s.started;
}

-- The guards of the game's row: its status, its turn, its version and its history.
unfoldable pub guard_game : SubmitMove → GameRow → PlayerColor → Body MoveResult (Unit {0})
guard_game input g mover = do
  return_if (is_terminal g.status) (reject game_already_ended false (some g.version))
  return_if (not (eq_status g.status in_progress) && not (eq_status g.status ready))
      (reject game_unavailable false (some g.version))
  return_if (not (eq_color g.turn_color mover)) (reject not_your_turn false (some g.version))
  return_if (not (input.expected_version == g.version))
      (reject stale_game_version true (some g.version))
  history ← gets (λ db. moves_of g.id db.moves)
  return_if (not (has_contiguous_history history))
      (reject game_state_corrupt false (some g.version))

-- The statements that write.
unfoldable pub commit_move :
    SubmitMove
    → GameRow
    → PlayerColor
    → GameClock
    → MoveEvaluation
    → Option TerminalOutcome
    → ℤ
    → Uuid × Uuid
    → Body MoveResult MoveResult
commit_move input g mover clock evaluation terminal observed guests = do
  let submission = submission_of input g mover clock evaluation terminal observed guests
  count ← update_game_row g.id g.version (moved_row mover clock evaluation terminal observed)
  return_if (not (count == 1)) (stale_write g.version)
  create_move (played_move input mover evaluation observed)
  modify (release_if terminal g.id)
  create_command (move_command input submission)
  return (accepted submission)

abbrev pub unwrap : MoveResult → Result Failure MoveSubmission
unwrap (accepted s) = ok s
unwrap (rejected e) = err (service e)
unwrap (stale_write version) = err (
    service (record {
      code = stale_game_version;
      retryable = true;
      authoritative_version = some version;
    }))

-- `findReplay`, outside the transaction.
abbrev pub find_replay : SubmitMove → Database → Result Failure MoveSubmission
find_replay input db = elim (find_command input.game_id input.client_move_id db) [
  | none ↦ err (database DatabaseErrorKind.unique)
  | some c ↦ unwrap (replay_result c input)
]

abbrev pub conclude :
    SubmitMove
    → Result DatabaseErrorKind MoveResult × Database
    → Result Failure MoveSubmission × Database
conclude input (ok r, db) = (unwrap r, db)
conclude input (err DatabaseErrorKind.unique, db) = (find_replay input db, db)
conclude input (err e, db) = (err (database e), db)

module _ (chess : ChessEngine) where
  -- From the clock on, for a player whose game has passed the guards.
  unfoldable pub play_move : ℤ → SubmitMove → PersistedGame → PlayerRow → Body MoveResult MoveResult
  play_move now input game player = do
    let g = game.game
    clock ← or_refuse (admit g player.color now) g.version
    history ← gets (λ db. moves_of g.id db.moves)
    evaluation ← or_illegal (chess.evaluate_move (question input g history)) g.version
    return_if (not (eq_color evaluation.applied.color player.color))
        (reject game_state_corrupt false (some g.version))
    terminal ← or_throw (board_outcome evaluation.game_over)
    guests ← or_return (guest_pair game.players) (reject game_state_corrupt false (some g.version))
    commit_move input g player.color clock evaluation terminal now guests

  unfoldable pub submit_in_transaction : ℤ → SubmitMove → Body MoveResult MoveResult
  submit_in_transaction now input = do
    row ← gets (lock_game_clock now input.game_id)
    locked ← or_return row (reject game_not_found false none)
    loaded ← gets (load_game input.game_id)
    game ← or_return loaded (reject game_not_found false none)
    let g = game.game
    player ←
        or_return (player_for game input.guest_session_id)
          (reject not_a_player false (some g.version))
    replay ← gets (find_command input.game_id input.client_move_id)
    return_replay replay input
    guard_game input g player.color
    play_move locked.observed_at input game player

  unfoldable pub submit_move : ℤ → SubmitMove → Database → Result Failure MoveSubmission × Database
  submit_move now input db = conclude input (run_transaction (submit_in_transaction now input) db)
