-- ===== src/Services/Presenter.antt =====
-- game-snapshot.presenter.ts of src/modules/game: the payload of `game.snapshot`.
use Prim.Native.String.{String}
use clu_chess.Base.{ℕ, ◌==◌, Bool, not, Option, none, some, List, map, if◌then◌else◌}
use clu_chess.Base.Number.{ℤ}
use clu_chess.Game.{GameStatus, GameResult, GameTermination, PlayerColor, w, b}
use clu_chess.Game.Clock.{Date}
use clu_chess.Store.Rows.{Uuid}
use clu_chess.Store.Soundness.{present}
use clu_chess.Allocation.Queries.{GameMove}
use clu_chess.Allocation.Records.{GamePlayerRecord}
use clu_chess.Services.Room.{GameSnapshotView}

pub data WireColor : Type 0 where
  black white : WireColor

unfoldable pub wire_color : PlayerColor → WireColor
wire_color w = white
wire_color b = black

pub record PublicPlayer : Type 0 where
  pub avatar : String
  pub color : WireColor
  pub connected : Bool
  pub name : String

unfoldable pub public_player : GamePlayerRecord → PublicPlayer
public_player p = record {
  avatar = p.avatar_key;
  color = wire_color p.color;
  connected = present p.connected_at;
  name = p.display_name;
}

pub record WireMove : Type 0 where
  pub color : WireColor
  pub ply : ℕ
  pub san : String
  pub uci : String

unfoldable pub wire_move : GameMove → WireMove
wire_move m = record { color = wire_color m.color; ply = m.ply; san = m.san; uci = m.uci }

pub record WireClocks : Type 0 where
  pub black_ms : ℤ
  pub running : Option WireColor
  pub server_time : Date
  pub white_ms : ℤ

-- `GameSnapshotPayload`.
pub record GameSnapshotPayload : Type 0 where
  pub clocks : WireClocks
  pub current_fen : String
  pub initial_fen : String
  pub moves : List WireMove
  pub opponent : PublicPlayer
  pub result : Option GameResult
  pub status : GameStatus
  pub termination : Option GameTermination
  pub turn : WireColor
  pub you : PublicPlayer

abbrev pub wire_running : Option PlayerColor → Option WireColor
wire_running none = none
wire_running (some c) = some (wire_color c)

-- The first player that is, or is not, the guest.
abbrev pub find_player :
    (Uuid → Bool) → GamePlayerRecord × GamePlayerRecord → Option GamePlayerRecord
find_player test (p, q) =
    if test p.guest_session_id then some p else if test q.guest_session_id then some q else none

abbrev pub payload :
    GameSnapshotView
    → Option GamePlayerRecord
    → Option GamePlayerRecord
    → Option GameSnapshotPayload
payload view (some you) (some opponent) =
    let s = view.snapshot in
    some (record {
      clocks = record {
        black_ms = view.clocks.black_ms;
        running = wire_running view.clocks.running;
        server_time = view.clocks.observed_at;
        white_ms = view.clocks.white_ms;
      };
      current_fen = s.game.current_fen;
      initial_fen = s.game.initial_fen;
      moves = map wire_move s.moves;
      opponent = public_player opponent;
      result = s.game.result;
      status = s.game.status;
      termination = s.game.termination;
      turn = wire_color s.game.turn_color;
      you = public_player you;
    })
payload view _ _ = none

-- None where the code throws.
unfoldable pub present_snapshot : GameSnapshotView → Uuid → Option GameSnapshotPayload
present_snapshot view guest =
    payload view (find_player (λ id. id == guest) view.snapshot.players)
      (find_player (λ id. not (id == guest)) view.snapshot.players)
