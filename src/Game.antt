-- ===== src/Game.antt =====
-- The vocabulary of the game: game.types.ts and game.errors.ts of src/modules/game/domain.
pub mod Terminal
pub mod StateMachine
pub mod Clock
use mathlib.Core.Bool.{Bool, true, false}

pub data GameStatus : Type 0 where
  created waiting_for_players ready in_progress reconnecting completed abandoned expired :
      GameStatus

pub data PlayerColor : Type 0 where
  b w : PlayerColor

pub data GameResult : Type 0 where
  black_win draw void white_win : GameResult

pub data BoardTermination : Type 0 where
  checkmate fifty_move insufficient_material stalemate threefold_repetition : BoardTermination

pub data GameTermination : Type 0 where
  abandonment double_abandon no_show resignation timeout : GameTermination
  board : BoardTermination → GameTermination

pub data GameDomainError : Type 0 where
  illegal_game_transition invalid_clock_state invalid_game_state : GameDomainError
  invalid_terminal_event : GameDomainError

-- game-service.errors.ts.
pub data GameServiceErrorCode : Type 0 where
  allocation_mismatch clock_expired dependency_unavailable game_already_ended : GameServiceErrorCode
  game_not_found game_state_corrupt game_unavailable guest_already_in_game : GameServiceErrorCode
  guest_not_eligible idempotency_key_reused illegal_move not_a_player : GameServiceErrorCode
  not_your_turn stale_game_version : GameServiceErrorCode

unfoldable pub opposite_color : PlayerColor → PlayerColor
opposite_color w = b
opposite_color b = w

-- `===` on colors.
unfoldable pub eq_color : PlayerColor → PlayerColor → Bool
eq_color b b = true
eq_color w w = true
eq_color _ _ = false

-- `===` on statuses.
unfoldable pub eq_status : GameStatus → GameStatus → Bool
eq_status created created = true
eq_status waiting_for_players waiting_for_players = true
eq_status ready ready = true
eq_status in_progress in_progress = true
eq_status reconnecting reconnecting = true
eq_status completed completed = true
eq_status abandoned abandoned = true
eq_status expired expired = true
eq_status _ _ = false
