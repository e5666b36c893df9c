-- ===== src/Game/StateMachine/Adjudication.antt =====
-- The outcomes of terminal-result.ts are the ones that game-state-machine.ts accepts.
use clu_chess.Base.{◌≡◌, ◌<◌, ◌+◌, ℕ, true, some, ok, any, arith}
use clu_chess.Base.Number.{pos, ◌+ℤ◌, max_safe_integer}
use clu_chess.Game.{GameStatus, eq_status}
use clu_chess.Game.StateMachine.{
  GameTransition, accept_terminal_move, resign, time_out, abandon, expire_no_show, transition_game,
  transition_rule, validate_outcome,
}
use clu_chess.Game.Terminal.{
  OutcomeStatus, completed, abandoned, expired, TerminalOutcome, TerminalEvent, board_end, resigned,
  timed_out, absence, joined_only, derive_terminal_outcome,
}
use clu_chess.Game.Terminal.Presence.{derive_abandonment_lem, derive_no_show_lem}

-- The transition that an event asks for.
abbrev pub transition_for : TerminalEvent → GameTransition
transition_for (board_end _ _) = accept_terminal_move
transition_for (resigned _) = resign
transition_for (timed_out _) = time_out
transition_for (absence _) = abandon
transition_for (joined_only _) = expire_no_show

abbrev pub game_status : OutcomeStatus → GameStatus
game_status completed = GameStatus.completed
game_status abandoned = GameStatus.abandoned
game_status expired = GameStatus.expired

-- The outcome derived from a terminal event is accepted by the transition for that event, from
-- every status that its rule allows and every version below the largest safe integer, and the
-- new status is the outcome's.
pub transition_game-derive_terminal_outcome :
    (e : TerminalEvent) (o : TerminalOutcome) (s : GameStatus) (n : ℕ)
    → derive_terminal_outcome e ≡ ok o
    → any (eq_status s) (transition_rule (transition_for e)).from ≡ true
    → n < max_safe_integer
    → transition_game
        (record { outcome = some o; status = s; transition = transition_for e; version = pos n })
      ≡ ok (record {
        outcome = some o;
        previous_status = s;
        previous_version = pos n;
        status = game_status o.status;
        version = pos (n + 1);
      })
unfolding derive_terminal_outcome transition_game transition_rule validate_outcome eq_status ◌+ℤ◌
transition_game-derive_terminal_outcome (board_end reason winner) o s n d f h = ground arith
transition_game-derive_terminal_outcome (resigned loser) o s n d f h = ground arith
transition_game-derive_terminal_outcome (timed_out loser) o s n d f h = ground arith
transition_game-derive_terminal_outcome (absence cs) o s n d f h =
    ground (arith, derive_abandonment_lem cs)
transition_game-derive_terminal_outcome (joined_only cs) o s n d f h =
    ground (arith, derive_no_show_lem cs)
