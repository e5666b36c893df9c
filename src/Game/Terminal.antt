-- ===== src/Game/Terminal.antt =====
-- src/modules/game/domain/terminal-result.ts: how a terminal event becomes an outcome.
pub mod Presence
pub mod Outcomes
use mathlib.Core.List.{head?}
use clu_chess.Base.{
  Bool, true, false, Option, none, some, List, [], ◌∷◌, ◌++◌, Result, ok, err, any, length, ◌==◌,
  if◌then◌else◌,
}
use clu_chess.Game.{
  PlayerColor, b, w, GameResult, black_win, draw, void, white_win, BoardTermination, checkmate,
  GameTermination, abandonment, double_abandon, no_show, resignation, timeout, board,
  GameDomainError, invalid_terminal_event, opposite_color, eq_color,
}

-- The statuses that an outcome may carry.
pub data OutcomeStatus : Type 0 where
  abandoned completed expired : OutcomeStatus

pub record TerminalOutcome : Type 0 where
  pub result : GameResult
  pub status : OutcomeStatus
  pub termination : GameTermination
  pub winner : Option PlayerColor

pub data TerminalEvent : Type 0 where
  board_end : BoardTermination → Option PlayerColor → TerminalEvent
  resigned : PlayerColor → TerminalEvent
  timed_out : PlayerColor → TerminalEvent
  absence : List PlayerColor → TerminalEvent
  joined_only : List PlayerColor → TerminalEvent

pub winner_outcome : PlayerColor → OutcomeStatus → GameTermination → TerminalOutcome
unfolding eq_color
winner_outcome winner status termination = record {
  result = if eq_color winner w then white_win else black_win;
  status = status;
  termination = termination;
  winner = some winner;
}

-- `[...new Set(colors)]`: the colors in the order of their first occurrence.
pub unique_from : List PlayerColor → List PlayerColor → List PlayerColor
unfolding eq_color
unique_from seen [] = seen
unique_from seen (c ∷ cs) = unique_from (if any (eq_color c) seen then seen else seen ++ c ∷ []) cs

pub unique_colors : List PlayerColor → List PlayerColor
unfolding unique_from
unique_colors colors = unique_from [] colors

pub derive_abandonment : List PlayerColor → Result GameDomainError TerminalOutcome
unfolding winner_outcome opposite_color
derive_abandonment absent_input =
    let absent = unique_colors absent_input in
    if length absent == 2 then ok void_outcome else elim (head? absent) [
      | none ↦ err invalid_terminal_event
      | some loser ↦ ok (winner_outcome (opposite_color loser) abandoned abandonment)
    ]
  where
    void_outcome : TerminalOutcome
    void_outcome = record {
      result = void;
      status = abandoned;
      termination = double_abandon;
      winner = none;
    }

-- `DRAW_TERMINATIONS.has`.
abbrev pub is_draw_termination : BoardTermination → Bool
is_draw_termination checkmate = false
is_draw_termination _ = true

-- The two arms of `deriveBoardOutcome`.
checkmate_outcome : Option PlayerColor → Result GameDomainError TerminalOutcome
unfolding winner_outcome
checkmate_outcome none = err invalid_terminal_event
checkmate_outcome (some winner) = ok (winner_outcome winner completed (board checkmate))

draw_outcome : BoardTermination → Option PlayerColor → Result GameDomainError TerminalOutcome
draw_outcome reason (some _) = err invalid_terminal_event
draw_outcome reason none =
    if is_draw_termination reason
    then ok
        (record { result = draw; status = completed; termination = board reason; winner = none })
    else err invalid_terminal_event

pub derive_board_outcome :
    BoardTermination → Option PlayerColor → Result GameDomainError TerminalOutcome
unfolding checkmate_outcome draw_outcome
derive_board_outcome checkmate winner = checkmate_outcome winner
derive_board_outcome reason winner = draw_outcome reason winner

pub derive_no_show : List PlayerColor → Result GameDomainError TerminalOutcome
unfolding winner_outcome
derive_no_show joined_input =
    let joined = unique_colors joined_input in
    if length joined == 0
    then ok void_outcome
    else elim (if length joined == 1 then head? joined else none) [
      | none ↦ err invalid_terminal_event
      | some winner ↦ ok (winner_outcome winner expired no_show)
    ]
  where
    void_outcome : TerminalOutcome
    void_outcome = record { result = void; status = expired; termination = no_show; winner = none }

unfoldable pub derive_terminal_outcome : TerminalEvent → Result GameDomainError TerminalOutcome
unfolding derive_board_outcome winner_outcome opposite_color derive_abandonment derive_no_show
derive_terminal_outcome (board_end reason winner) = derive_board_outcome reason winner
derive_terminal_outcome (resigned loser) =
    ok (winner_outcome (opposite_color loser) completed resignation)
derive_terminal_outcome (timed_out loser) =
    ok (winner_outcome (opposite_color loser) completed timeout)
derive_terminal_outcome (absence absent) = derive_abandonment absent
derive_terminal_outcome (joined_only joined) = derive_no_show joined
