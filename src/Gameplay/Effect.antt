-- ===== src/Gameplay/Effect.antt =====
-- What an accepted move computes before it writes: the clock, the outcome, the acknowledgement and
-- the new row, in `submitInTransaction` of prisma-gameplay.repository.ts.
use clu_chess.Base.{
  ℕ, ◌+◌, false, Option, none, some, List, [], ◌∷◌, Result, ok, ◌>>=◌, if◌then◌else◌, map,
}
use clu_chess.Base.Number.{ℤ}
use clu_chess.Game.{in_progress, ready, PlayerColor, w, GameDomainError, eq_status, opposite_color}
use clu_chess.Game.Clock.{GameClock, ClockAdmission, resume_clock, admit_move_on_clock, Date}
use clu_chess.Game.Terminal.{TerminalOutcome, board_end, derive_terminal_outcome}
use clu_chess.Chess.{EvaluateMoveInput, MoveInput, GameOver, ongoing, over, MoveEvaluation}
use clu_chess.Store.Codec.{persisted_result, persisted_termination}
use clu_chess.Store.Rows.{
  Uuid, GameRow, PlayerRow, MoveRow, GameplayClock, AcceptedMove, StartedGame, EndedGame,
  MoveSubmission,
}
use clu_chess.Lifecycle.Finalize.{game_status}

pub record SubmitMove : Type 0 where
  pub client_move_id : Uuid
  pub expected_version : ℕ
  pub game_id : Uuid
  pub guest_session_id : Uuid
  pub move : MoveInput

-- A stored time as the `Date` that Prisma reads.
abbrev pub stored_date : Option ℤ → Option Date
stored_date none = none
stored_date (some t) = some (some t)

abbrev pub base_clock : GameRow → PlayerColor → GameClock
base_clock g mover =
    let fresh = eq_status g.status ready in
    record {
      black_ms = g.black_clock_ms;
      increment_ms = g.increment_ms;
      running = if fresh then none else some mover;
      turn_started_at = if fresh then none else stored_date g.turn_started_at;
      white_ms = g.white_clock_ms;
    }

-- The `try` around the clock.
unfoldable pub admit : GameRow → PlayerColor → ℤ → Result GameDomainError ClockAdmission
admit g mover observed = do
  clock ←
      if eq_status g.status ready
      then resume_clock (base_clock g mover) w (some observed)
      else ok (base_clock g mover)
  admit_move_on_clock clock mover (some observed)

unfoldable pub board_outcome : GameOver → Result GameDomainError (Option TerminalOutcome)
board_outcome ongoing = ok none
board_outcome (over reason winner) = do
  outcome ← derive_terminal_outcome (board_end reason winner)
  ok (some outcome)

-- The numbers of the versions, and what the players are told.
abbrev pub started_version : GameRow → ℕ
started_version g = if eq_status g.status ready then g.version + 1 else g.version

abbrev pub move_clocks : PlayerColor → GameClock → Option TerminalOutcome → ℤ → GameplayClock
move_clocks mover clock terminal observed = record {
  black_ms = clock.black_ms;
  observed_at = observed;
  running = elim terminal [ none ↦ some (opposite_color mover) | some _ ↦ none ];
  white_ms = clock.white_ms;
}

unfoldable pub accepted_move :
    SubmitMove
    → GameRow
    → PlayerColor
    → GameClock
    → MoveEvaluation
    → Option TerminalOutcome
    → ℤ
    → AcceptedMove
accepted_move input g mover clock evaluation terminal observed = record {
  check = evaluation.applied.check;
  client_move_id = input.client_move_id;
  clocks = move_clocks mover clock terminal observed;
  fen_after = evaluation.applied.fen_after;
  game_id = g.id;
  game_version = started_version g + 1;
  ply = evaluation.applied.ply_number;
  san = evaluation.applied.san;
  turn = opposite_color mover;
  uci = evaluation.applied.uci;
}

unfoldable pub started_game : GameRow → ℤ → Option StartedGame
started_game g observed =
    if eq_status g.status ready
    then some (record {
      clocks = record {
        black_ms = g.black_clock_ms;
        observed_at = observed;
        running = some w;
        white_ms = g.white_clock_ms;
      };
      game_id = g.id;
      game_version = started_version g;
      initial_fen = g.initial_fen;
    })
    else none

unfoldable pub ended_game :
    GameRow
    → PlayerColor
    → GameClock
    → MoveEvaluation
    → Option TerminalOutcome
    → ℤ
    → Option EndedGame
ended_game g mover clock evaluation none observed = none
ended_game g mover clock evaluation (some terminal) observed = some (record {
  clocks = move_clocks mover clock (some terminal) observed;
  final_fen = evaluation.applied.fen_after;
  game_id = g.id;
  game_version = started_version g + 1;
  pgn = evaluation.pgn;
  result = terminal.result;
  termination = terminal.termination;
})

unfoldable pub guest_pair : List PlayerRow → Option (Uuid × Uuid)
guest_pair (p ∷ q ∷ []) = some (p.guest_session_id, q.guest_session_id)
guest_pair _ = none

-- The `data` of the update, for a game that goes on and for one that the move ends.
unfoldable pub moved_row :
    PlayerColor → GameClock → MoveEvaluation → Option TerminalOutcome → ℤ → GameRow → GameRow
moved_row mover clock evaluation terminal observed g =
    let fresh = eq_status g.status ready in
    record g {
      black_clock_ms = clock.black_ms;
      current_fen = evaluation.applied.fen_after;
      ended_at = elim terminal [ none ↦ g.ended_at | some _ ↦ some observed ];
      result = elim terminal [ none ↦ g.result | some o ↦ some (persisted_result o.result) ];
      termination = elim terminal [
        | none ↦ g.termination
        | some o ↦ some (persisted_termination o.termination)
      ];
      pgn = evaluation.pgn;
      started_at = if fresh then some observed else g.started_at;
      status = elim terminal [
        | none ↦ if fresh then in_progress else g.status
        | some o ↦ game_status o.status
      ];
      turn_color = opposite_color mover;
      turn_started_at = elim terminal [ none ↦ some observed | some _ ↦ none ];
      version = if fresh then g.version + 2 else g.version + 1;
      white_clock_ms = clock.white_ms;
    }

unfoldable pub played_move : SubmitMove → PlayerColor → MoveEvaluation → ℤ → MoveRow
played_move input mover evaluation observed = record {
  game_id = input.game_id;
  ply = evaluation.applied.ply_number;
  client_move_id = input.client_move_id;
  guest_session_id = input.guest_session_id;
  color = mover;
  san = evaluation.applied.san;
  uci = evaluation.applied.uci;
  fen_before = evaluation.applied.fen_before;
  fen_after = evaluation.applied.fen_after;
  server_received_at = observed;
}

unfoldable pub submission_of :
    SubmitMove
    → GameRow
    → PlayerColor
    → GameClock
    → MoveEvaluation
    → Option TerminalOutcome
    → ℤ
    → Uuid × Uuid
    → MoveSubmission
unfolding accepted_move ended_game started_game
submission_of input g mover clock evaluation terminal observed guests = record {
  accepted = accepted_move input g mover clock evaluation terminal observed;
  duplicate = false;
  ended = ended_game g mover clock evaluation terminal observed;
  guest_session_ids = guests;
  started = started_game g observed;
}

-- The question to the engine.
unfoldable pub question : SubmitMove → GameRow → List MoveRow → EvaluateMoveInput
question input g history = record {
  expected_current_fen = g.current_fen;
  history = map (λ m. m.uci) history;
  initial_fen = g.initial_fen;
  move = input.move;
}
