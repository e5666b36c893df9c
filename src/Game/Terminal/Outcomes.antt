-- ===== src/Game/Terminal/Outcomes.antt =====
-- Every outcome that `deriveTerminalOutcome` returns is consistent.
use clu_chess.Base.{
  ◌≡◌, refl, Bool, true, false, not, ◌&&◌, ◌||◌, none, some, Option, Result, ok, err, arith,
}
use clu_chess.Game.{
  PlayerColor, b, w, GameResult, draw, white_win, black_win, GameTermination, board, checkmate,
  abandonment, double_abandon, no_show, GameDomainError,
}
use clu_chess.Game.Terminal.{
  OutcomeStatus, completed, abandoned, expired, TerminalOutcome, TerminalEvent, board_end, resigned,
  timed_out, absence, joined_only, derive_terminal_outcome,
}
use clu_chess.Game.Terminal.Presence.{
  has, absence_outcome, no_show_outcome, derive_abandonment_lem, derive_no_show_lem,
}

-- The winner that a result names.
abbrev pub result_winner : GameResult → Option PlayerColor
result_winner white_win = some w
result_winner black_win = some b
result_winner _ = none

-- The status that a termination leads to.
abbrev pub termination_status : GameTermination → OutcomeStatus
termination_status abandonment = abandoned
termination_status double_abandon = abandoned
termination_status no_show = expired
termination_status _ = completed

-- A drawn game is a game that the board has drawn.
abbrev pub is_board_draw : GameTermination → Bool
is_board_draw (board checkmate) = false
is_board_draw (board _) = true
is_board_draw _ = false

abbrev pub is_draw : GameResult → Bool
is_draw draw = true
is_draw _ = false

pub record IsConsistent (o : TerminalOutcome) : Type 0 where
  pub winner : o.winner ≡ result_winner o.result
  pub status : o.status ≡ termination_status o.termination
  pub drawn : is_draw o.result ≡ is_board_draw o.termination

absence_outcome-IsConsistent :
    (x y : Bool) {o : TerminalOutcome} → absence_outcome x y ≡ ok o → IsConsistent o
absence_outcome-IsConsistent x y h = ground arith

no_show_outcome-IsConsistent :
    (x y : Bool) {o : TerminalOutcome} → no_show_outcome x y ≡ ok o → IsConsistent o
no_show_outcome-IsConsistent x y h = ground arith

-- In every derived outcome the winner is the one that the result names, the status is the one
-- that the termination leads to, and a draw is a draw on the board.
pub derive_terminal_outcome-IsConsistent :
    (e : TerminalEvent) {o : TerminalOutcome} → derive_terminal_outcome e ≡ ok o → IsConsistent o
unfolding derive_terminal_outcome
derive_terminal_outcome-IsConsistent (board_end reason winner) h = ground arith
derive_terminal_outcome-IsConsistent (resigned loser) h = ground arith
derive_terminal_outcome-IsConsistent (timed_out loser) h = ground arith
derive_terminal_outcome-IsConsistent (absence cs) h =
    absence_outcome-IsConsistent (has w cs) (has b cs) (rw (derive_abandonment_lem cs) at h)
derive_terminal_outcome-IsConsistent (joined_only cs) h =
    no_show_outcome-IsConsistent (has w cs) (has b cs) (rw (derive_no_show_lem cs) at h)

-- The events that cannot be judged.
abbrev pub is_judgeable : TerminalEvent → Bool
is_judgeable (board_end checkmate winner) = elim winner [ none ↦ false | some _ ↦ true ]
is_judgeable (board_end _ winner) = elim winner [ none ↦ true | some _ ↦ false ]
is_judgeable (resigned _) = true
is_judgeable (timed_out _) = true
is_judgeable (absence cs) = has w cs || has b cs
is_judgeable (joined_only cs) = not (has w cs && has b cs)

abbrev pub returns {ℓ} : {A : Type ℓ} → Result GameDomainError A → Bool
returns (ok _) = true
returns (err _) = false

-- An outcome is derived exactly from these events: a checkmate with a winner, another board end
-- without one, a resignation, a timeout, the absence of at least one player, and a no-show
-- where not both players have joined.
pub derive_terminal_outcome-returns :
    (e : TerminalEvent) → returns (derive_terminal_outcome e) ≡ is_judgeable e
unfolding derive_terminal_outcome
derive_terminal_outcome-returns (board_end reason winner) = ground arith
derive_terminal_outcome-returns (resigned loser) = refl
derive_terminal_outcome-returns (timed_out loser) = refl
derive_terminal_outcome-returns (absence cs) = ground (arith, derive_abandonment_lem cs)
derive_terminal_outcome-returns (joined_only cs) = ground (arith, derive_no_show_lem cs)
