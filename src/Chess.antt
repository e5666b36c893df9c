-- ===== src/Chess.antt =====
-- What the server asks of a chess engine: src/modules/chess/application/ports/chess-engine.ts. The
-- colors are those of the game.
use Prim.Native.String.{String}
use clu_chess.Base.{ℕ, Bool, Option, List, Result}
use clu_chess.Game.{PlayerColor, BoardTermination}

pub data PromotionPiece : Type 0 where
  bishop knight queen rook : PromotionPiece

pub record MoveInput : Type 0 where
  pub from : String
  pub promotion : Option PromotionPiece
  pub to : String

pub record AppliedMove : Type 0 where
  pub capture : Bool
  pub check : Bool
  pub color : PlayerColor
  pub fen_after : String
  pub fen_before : String
  pub ply_number : ℕ
  pub san : String
  pub uci : String

pub data GameOver : Type 0 where
  ongoing : GameOver
  over : BoardTermination → Option PlayerColor → GameOver

-- A historical move is its UCI text.
pub record EvaluateMoveInput : Type 0 where
  pub expected_current_fen : String
  pub history : List String
  pub initial_fen : String
  pub move : MoveInput

pub record MoveEvaluation : Type 0 where
  pub applied : AppliedMove
  pub game_over : GameOver
  pub pgn : String

pub data ChessEngineErrorCode : Type 0 where
  game_state_corrupt illegal_move invalid_initial_position : ChessEngineErrorCode

pub record ReplayedPosition : Type 0 where
  pub fen : String
  pub game_over : GameOver
  pub pgn : String
  pub ply_count : ℕ
  pub turn : PlayerColor

pub record ChessEngine : Type 0 where
  pub evaluate_move : EvaluateMoveInput → Result ChessEngineErrorCode MoveEvaluation
  pub new_game : Result ChessEngineErrorCode ReplayedPosition
  pub replay : String → List String → Result ChessEngineErrorCode ReplayedPosition
