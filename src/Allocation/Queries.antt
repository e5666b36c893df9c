-- ===== src/Allocation/Queries.antt =====
-- The queries of prisma-game.repository.ts.
use Prim.Native.String.{String}
use clu_chess.Base.{ℕ, ◌==◌, Bool, false, Option, none, some, List, map, Result, ok, err}
use clu_chess.Base.Number.{ℤ}
use clu_chess.Game.{PlayerColor}
use clu_chess.Store.Loading.{find_assignment}
use clu_chess.Store.Rows.{Uuid, AssignmentRow, MoveRow, Database}
use clu_chess.Store.Tables.{find}
use clu_chess.Store.Tx.{DatabaseErrorKind, settle}
use clu_chess.Lifecycle.Resign.{Failure, ServiceError, service, database}
use clu_chess.Gameplay.History.{moves_of}
use clu_chess.Allocation.Allocate.{is_eligible}
use clu_chess.Allocation.Records.{
  GamePlayerRecord, GameRecord, PersistedAllocation, GameAllocation, find_allocation,
  include_players, find_match, map_allocation,
}

abbrev pub mapped_row : Result ServiceError GameAllocation → Result Failure (Option GameAllocation)
mapped_row (ok a) = ok (some a)
mapped_row (err e) = err (service e)

abbrev pub read :
    Result DatabaseErrorKind (Option PersistedAllocation) → Result Failure (Option GameAllocation)
read (ok none) = ok none
read (ok (some a)) = mapped_row (map_allocation a)
read (err e) = err (database e)

unfoldable pub find_by_id : Uuid → Database → Result Failure (Option GameAllocation)
find_by_id id db = read (settle db (find_allocation id db)).0

unfoldable pub find_by_match_id : Uuid → Database → Result Failure (Option GameAllocation)
find_by_match_id id db = read (settle db (include_players (find_match id db.games) db)).0

pub record GuestMatchEligibility : Type 0 where
  pub active_game_id : Option Uuid
  pub eligible : Bool

abbrev pub game_of_assignment : Option AssignmentRow → Option Uuid
game_of_assignment none = none
game_of_assignment (some a) = some a.game_id

-- The assignment is read with its guest, so a guest that is not stored has none.
unfoldable pub guest_match_eligibility : Uuid → ℤ → Database → GuestMatchEligibility
guest_match_eligibility guest observed_at db = elim (find (λ g. g.id == guest) db.guests) [
  | none ↦ record { active_game_id = none; eligible = false }
  | some g ↦ record {
    active_game_id = game_of_assignment (find_assignment guest db);
    eligible = is_eligible observed_at g;
  }
]

pub record GameMove : Type 0 where
  pub client_move_id : Uuid
  pub color : PlayerColor
  pub fen_after : String
  pub fen_before : String
  pub guest_session_id : Uuid
  pub ply : ℕ
  pub san : String
  pub server_received_at : ℤ
  pub uci : String

pub record GameSnapshotRecord : Type 0 where
  pub game : GameRecord
  pub players : GamePlayerRecord × GamePlayerRecord
  pub moves : List GameMove
  pub observed_at : ℤ

unfoldable pub game_move : MoveRow → GameMove
game_move m = record {
  client_move_id = m.client_move_id;
  color = m.color;
  fen_after = m.fen_after;
  fen_before = m.fen_before;
  guest_session_id = m.guest_session_id;
  ply = m.ply;
  san = m.san;
  server_received_at = m.server_received_at;
  uci = m.uci;
}

abbrev pub with_moves :
    ℤ
    → List MoveRow
    → Result Failure (Option GameAllocation)
    → Result Failure (Option GameSnapshotRecord)
with_moves now moves (ok (some a)) = ok (
    some (record {
      game = a.game;
      players = a.players;
      moves = map game_move moves;
      observed_at = now;
    }))
with_moves now moves (ok none) = ok none
with_moves now moves (err e) = err e

-- A transaction of the level `RepeatableRead`, which sees one state of the tables.
unfoldable pub find_snapshot : ℤ → Uuid → Database → Result Failure (Option GameSnapshotRecord)
find_snapshot now id db = with_moves now (moves_of id db.moves) (find_by_id id db)
