-- ===== src/Store/Rows.antt =====
-- Rows: the models of prisma/schema.prisma that a game uses. `createdAt` and `updatedAt` are left
-- out: no operation modelled here reads them.
use Prim.Native.String.{String}
use clu_chess.Base.{ℕ, Bool, Option, List}
use clu_chess.Base.Number.{ℤ}
use clu_chess.Game.{GameStatus, PlayerColor, GameResult, GameTermination}

abbrev pub Uuid : Type 0
Uuid = ℕ

pub data Slot : Type 0 where
  first second : Slot

pub record GuestRow : Type 0 where
  pub id : Uuid
  pub display_name : String
  pub avatar_key : String
  pub expires_at : ℤ
  pub revoked_at : Option ℤ

pub record GameRow : Type 0 where
  pub id : Uuid
  pub match_id : Uuid
  pub status : GameStatus
  pub initial_fen : String
  pub current_fen : String
  pub turn_color : PlayerColor
  pub pgn : String
  pub version : ℕ
  pub result : Option String
  pub termination : Option String
  pub time_initial_ms : ℤ
  pub increment_ms : ℤ
  pub white_clock_ms : ℤ
  pub black_clock_ms : ℤ
  pub turn_started_at : Option ℤ
  pub join_deadline_at : Option ℤ
  pub reconnect_deadline_at : Option ℤ
  pub started_at : Option ℤ
  pub ended_at : Option ℤ

pub record PlayerRow : Type 0 where
  pub id : Uuid
  pub game_id : Uuid
  pub guest_session_id : Uuid
  pub color : PlayerColor
  pub slot : Slot
  pub joined_at : Option ℤ
  pub connected_at : Option ℤ
  pub disconnected_at : Option ℤ
  pub reconnect_grace_ends_at : Option ℤ

pub record AssignmentRow : Type 0 where
  pub guest_session_id : Uuid
  pub game_id : Uuid

pub record MoveRow : Type 0 where
  pub game_id : Uuid
  pub ply : ℕ
  pub client_move_id : Uuid
  pub guest_session_id : Uuid
  pub color : PlayerColor
  pub san : String
  pub uci : String
  pub fen_before : String
  pub fen_after : String
  pub server_received_at : ℤ

-- `GameplayClock`, `AcceptedMove`, `StartedGame`, `EndedGame` of gameplay.repository.ts.
pub record GameplayClock : Type 0 where
  pub black_ms : ℤ
  pub observed_at : ℤ
  pub running : Option PlayerColor
  pub white_ms : ℤ

pub record AcceptedMove : Type 0 where
  pub check : Bool
  pub client_move_id : Uuid
  pub clocks : GameplayClock
  pub fen_after : String
  pub game_id : Uuid
  pub game_version : ℕ
  pub ply : ℕ
  pub san : String
  pub turn : PlayerColor
  pub uci : String

pub record StartedGame : Type 0 where
  pub clocks : GameplayClock
  pub game_id : Uuid
  pub game_version : ℕ
  pub initial_fen : String

pub record EndedGame : Type 0 where
  pub clocks : GameplayClock
  pub final_fen : String
  pub game_id : Uuid
  pub game_version : ℕ
  pub pgn : String
  pub result : GameResult
  pub termination : GameTermination

-- `MoveSubmission` and `TerminalSubmission`. What is stored of them leaves `duplicate` out.
pub record MoveSubmission : Type 0 where
  pub accepted : AcceptedMove
  pub duplicate : Bool
  pub ended : Option EndedGame
  pub guest_session_ids : Uuid × Uuid
  pub started : Option StartedGame

pub record TerminalSubmission : Type 0 where
  pub duplicate : Bool
  pub ended : EndedGame
  pub guest_session_ids : Uuid × Uuid

-- The JSON column `response`, as far as its readers tell values apart: an acknowledgement of a
-- move, one of a terminal command, or another value.
pub data StoredResponse : Type 0 where
  move_response :
      AcceptedMove → Option EndedGame → Uuid × Uuid → Option StartedGame → StoredResponse
  terminal_response : EndedGame → Uuid × Uuid → StoredResponse
  other_response : StoredResponse

pub data CommandType : Type 0 where
  move resign other : CommandType

pub record CommandRow : Type 0 where
  pub game_id : Uuid
  pub guest_session_id : Uuid
  pub event_id : Uuid
  pub command_type : CommandType
  pub result_version : ℕ
  pub response : StoredResponse

pub record Database : Type 0 where
  pub guests : List GuestRow
  pub games : List GameRow
  pub players : List PlayerRow
  pub assignments : List AssignmentRow
  pub moves : List MoveRow
  pub commands : List CommandRow
