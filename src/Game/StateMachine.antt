-- ===== src/Game/StateMachine.antt =====
-- src/modules/game/domain/game-state-machine.ts: the transition table and `transitionGame`.
pub mod Runs
pub mod Adjudication
pub mod Histories
use clu_chess.Base.{
  ℕ, Bool, true, false, not, ◌&&◌, ◌||◌, Option, none, some, List, [], ◌∷◌, Result, ok, err, ◌>>=◌,
  ◌>>◌, throw_if, any, if◌then◌else◌,
}
use clu_chess.Base.Number.{ℤ, pos, ◌+ℤ◌, ltb_ℤ, is_safe_integer}
use clu_chess.Game.{
  GameStatus, PlayerColor, BoardTermination, GameTermination, abandonment, double_abandon, no_show,
  resignation, timeout, board, GameDomainError, illegal_game_transition, invalid_game_state,
  eq_status,
}
use clu_chess.Game.Terminal.{OutcomeStatus, TerminalOutcome}

pub data GameTransition : Type 0 where
  abandon accept_move accept_terminal_move allocate expire_no_show : GameTransition
  mark_players_ready player_disconnected player_reconnected resign start : GameTransition
  time_out : GameTransition

pub record GameTransitionInput : Type 0 where
  pub outcome : Option TerminalOutcome
  pub status : GameStatus
  pub transition : GameTransition
  pub version : ℤ

pub record GameTransitionResult : Type 0 where
  pub outcome : Option TerminalOutcome
  pub previous_status : GameStatus
  pub previous_version : ℤ
  pub status : GameStatus
  pub version : ℤ

pub record TransitionRule : Type 0 where
  pub from : List GameStatus
  pub outcome_status : Option OutcomeStatus
  pub to : GameStatus
  pub version_delta : ℕ

-- `TRANSITION_RULES`.
unfoldable pub transition_rule : GameTransition → TransitionRule
transition_rule abandon = record {
  from = GameStatus.in_progress ∷ GameStatus.reconnecting ∷ [];
  outcome_status = some OutcomeStatus.abandoned;
  to = GameStatus.abandoned;
  version_delta = 1;
}
transition_rule accept_move = record {
  from = GameStatus.in_progress ∷ [];
  outcome_status = none;
  to = GameStatus.in_progress;
  version_delta = 1;
}
transition_rule accept_terminal_move = record {
  from = GameStatus.in_progress ∷ [];
  outcome_status = some OutcomeStatus.completed;
  to = GameStatus.completed;
  version_delta = 1;
}
transition_rule allocate = record {
  from = GameStatus.created ∷ [];
  outcome_status = none;
  to = GameStatus.waiting_for_players;
  version_delta = 0;
}
transition_rule expire_no_show = record {
  from = GameStatus.waiting_for_players ∷ [];
  outcome_status = some OutcomeStatus.expired;
  to = GameStatus.expired;
  version_delta = 1;
}
transition_rule mark_players_ready = record {
  from = GameStatus.waiting_for_players ∷ [];
  outcome_status = none;
  to = GameStatus.ready;
  version_delta = 1;
}
transition_rule player_disconnected = record {
  from = GameStatus.in_progress ∷ GameStatus.reconnecting ∷ [];
  outcome_status = none;
  to = GameStatus.reconnecting;
  version_delta = 1;
}
transition_rule player_reconnected = record {
  from = GameStatus.reconnecting ∷ [];
  outcome_status = none;
  to = GameStatus.in_progress;
  version_delta = 1;
}
transition_rule resign = record {
  from = GameStatus.in_progress ∷ GameStatus.reconnecting ∷ [];
  outcome_status = some OutcomeStatus.completed;
  to = GameStatus.completed;
  version_delta = 1;
}
transition_rule start = record {
  from = GameStatus.ready ∷ [];
  outcome_status = none;
  to = GameStatus.in_progress;
  version_delta = 1;
}
transition_rule time_out = record {
  from = GameStatus.in_progress ∷ GameStatus.reconnecting ∷ [];
  outcome_status = some OutcomeStatus.completed;
  to = GameStatus.completed;
  version_delta = 1;
}

eq_outcome_status : OutcomeStatus → OutcomeStatus → Bool
eq_outcome_status OutcomeStatus.abandoned OutcomeStatus.abandoned = true
eq_outcome_status OutcomeStatus.completed OutcomeStatus.completed = true
eq_outcome_status OutcomeStatus.expired OutcomeStatus.expired = true
eq_outcome_status _ _ = false

-- `validTermination` in `validateOutcome`.
valid_termination : GameTransition → GameTermination → Bool
valid_termination accept_terminal_move (board _) = true
valid_termination resign resignation = true
valid_termination time_out timeout = true
valid_termination expire_no_show no_show = true
valid_termination abandon abandonment = true
valid_termination abandon double_abandon = true
valid_termination _ _ = false

unfoldable pub validate_outcome :
    Option TerminalOutcome
    → Option OutcomeStatus
    → GameTransition
    → Result GameDomainError (Unit {0})
unfolding eq_outcome_status valid_termination
validate_outcome none none transition = ok tt
validate_outcome (some _) none transition = err invalid_game_state
validate_outcome none (some _) transition = err invalid_game_state
validate_outcome (some outcome) (some expected) transition = do
  throw_if (not (eq_outcome_status outcome.status expected)) invalid_game_state
  throw_if (not (valid_termination transition outcome.termination)) invalid_game_state

unfoldable pub transition_game : GameTransitionInput → Result GameDomainError GameTransitionResult
transition_game input = do
  throw_if (not (is_safe_integer input.version) || ltb_ℤ input.version (pos 0)) invalid_game_state
  let rule = transition_rule input.transition
  throw_if (not (any (eq_status input.status) rule.from)) illegal_game_transition
  validate_outcome input.outcome rule.outcome_status input.transition
  let version = input.version +ℤ pos rule.version_delta
  throw_if (not (is_safe_integer version)) invalid_game_state
  ok (record {
    outcome = input.outcome;
    previous_status = input.status;
    previous_version = input.version;
    status = rule.to;
    version = version;
  })
