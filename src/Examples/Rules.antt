-- ===== src/Examples/Rules.antt =====
-- The rules of the game on examples: outcomes, transitions and the clock.
use clu_chess.Base.{any, List, ◌+◌, ◌≡◌, refl, ◌↔◌, true, none, some, [], ◌∷◌, ok, arith}
use clu_chess.Base.Number.{pos, ◌+ℤ◌, ◌-ℤ◌, ◌≤ℤ◌}
use clu_chess.Game.{
  GameStatus, in_progress, w, checkmate, timeout, eq_status, opposite_color, white_win, board,
}
use clu_chess.Game.Clock.{
  GameClock, paused, check_flag_fall, clock_deadline, clock_view_at, pause_clock, resume_clock,
  admit_move_on_clock, remaining_for, new_date,
}
use clu_chess.Game.Clock.Admission.{Charges, elapsed, admit-Charges}
use clu_chess.Game.Clock.Deadline.{
  has_fallen, check_flag_fall-clock_deadline, Shows, clock_of, clock_view_at-pause_clock,
  resume_clock-pause_clock,
}
use clu_chess.Game.Clock.WellFormed.{IsRunning}
use clu_chess.Game.StateMachine.{
  validate_outcome, GameTransition, GameTransitionInput, GameTransitionResult, accept_terminal_move,
  transition_game, transition_rule,
}
use clu_chess.Game.StateMachine.Adjudication.{
  game_status, transition_for, transition_game-derive_terminal_outcome,
}
use clu_chess.Game.StateMachine.Histories.{
  Progress, Request, run, allocated, Inv, run-allocated-Inv,
}
use clu_chess.Game.StateMachine.Runs.{Advances, transition_game-Advances}
use clu_chess.Game.Terminal.{TerminalOutcome, OutcomeStatus, board_end, derive_terminal_outcome}
use clu_chess.Store.Codec.{
  domain_result, domain_termination, persisted_result, persisted_termination, domain-persisted,
}

-- Mate by white.
abbrev mated : TerminalOutcome
mated = record {
  result = white_win;
  status = OutcomeStatus.completed;
  termination = board checkmate;
  winner = some w;
}

mate_derived : derive_terminal_outcome (board_end checkmate (some w)) ≡ ok mated
unfolding derive_terminal_outcome
mate_derived = refl

abbrev mating : GameTransitionInput
mating = record {
  outcome = some mated;
  status = in_progress;
  transition = accept_terminal_move;
  version = pos 9;
}

abbrev over : GameTransitionResult
over = record {
  outcome = some mated;
  previous_status = in_progress;
  previous_version = pos 9;
  status = GameStatus.completed;
  version = pos 10;
}

mating_accepted : transition_game mating ≡ ok over
unfolding transition_game transition_rule eq_status ◌+ℤ◌ validate_outcome
mating_accepted = refl

transition_game-Advances_example : Advances mating over
transition_game-Advances_example = transition_game-Advances mating mating_accepted

mate_allowed :
    any
      (eq_status in_progress)
      (transition_rule (transition_for (board_end checkmate (some w)))).from
    ≡ true
unfolding transition_rule eq_status
mate_allowed = refl

transition_game-derive_terminal_outcome_example :
    transition_game (record {
      outcome = some mated;
      status = in_progress;
      transition = transition_for (board_end checkmate (some w));
      version = pos 9;
    })
    ≡ ok (record {
      outcome = some mated;
      previous_status = in_progress;
      previous_version = pos 9;
      status = game_status mated.status;
      version = pos (9 + 1);
    })
transition_game-derive_terminal_outcome_example =
    transition_game-derive_terminal_outcome (board_end checkmate (some w)) mated in_progress 9
      mate_derived mate_allowed (ground arith)

abbrev story : List Request
story =
    (GameTransition.mark_players_ready, none)
    ∷ (GameTransition.start, none)
    ∷ (accept_terminal_move, some mated)
    ∷ (GameTransition.resign, none)
    ∷ []

run-allocated-Inv_example : Inv (run allocated story)
run-allocated-Inv_example = run-allocated-Inv story

abbrev closed : Progress
closed = record { status = GameStatus.completed; version = pos 10; outcomes = mated ∷ [] }

abbrev clock : GameClock
clock = record {
  black_ms = pos 3000;
  increment_ms = pos 20;
  running = some w;
  turn_started_at = some (some (pos 1000));
  white_ms = pos 3000;
}

clock-IsRunning : IsRunning clock w (pos 1000)
clock-IsRunning = record {
  durations = record { white = ground arith; black = ground arith; increment = ground arith };
  running = refl;
  since = refl;
}

admit-Charges_example :
    Charges clock w
      (elapsed (pos 1000) (pos 1400))
      (pos 1400)
      (admit_move_on_clock clock w (some (pos 1400)))
admit-Charges_example = admit-Charges clock w (pos 1000) (pos 1400) clock-IsRunning

clock_ends : clock_deadline clock ≡ ok (some (some (pos 4000)))
unfolding clock_deadline new_date ◌+ℤ◌
clock_ends = refl

check_flag_fall-clock_deadline_example :
    (has_fallen (check_flag_fall clock (some (pos 4100))) ≡ true) ↔ (pos 4000 ≤ℤ pos 4100)
check_flag_fall-clock_deadline_example =
    check_flag_fall-clock_deadline clock w (pos 1000) (pos 4100) (pos 4000) clock-IsRunning
      (unfold remaining_for in ground arith) clock_ends

abbrev halted : GameClock
halted = record clock { white_ms = pos 2600; running = none; turn_started_at = none }

clock_pauses : pause_clock clock (some (pos 1400)) ≡ ok (paused halted (pos 400))
unfolding pause_clock ◌-ℤ◌
clock_pauses = refl

clock_view_at-pause_clock_example :
    Shows (clock_of (paused halted (pos 400))) (clock_view_at clock (some (pos 1400)))
clock_view_at-pause_clock_example =
    clock_view_at-pause_clock clock w (pos 1000) (pos 1400) (paused halted (pos 400))
      clock-IsRunning clock_pauses

resume_clock-pause_clock_example :
    (c'' : GameClock) × (resume_clock halted w (some (pos 5000)) ≡ ok c'')
    × IsRunning c'' w (pos 5000)
    × (pos 400 ≡ elapsed (pos 1000) (pos 1400))
    × (remaining_for c'' w +ℤ pos 400 ≡ remaining_for clock w)
    × (remaining_for c'' (opposite_color w) ≡ remaining_for clock (opposite_color w))
resume_clock-pause_clock_example =
    resume_clock-pause_clock clock w (pos 1000) (pos 1400) (pos 5000) halted (pos 400)
      clock-IsRunning clock_pauses

domain-persisted_example :
    (domain_result (some (persisted_result white_win)) ≡ some white_win)
    × (domain_termination (some (persisted_termination timeout)) ≡ some timeout)
domain-persisted_example = domain-persisted white_win timeout
