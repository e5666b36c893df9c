-- ===== src/Allocation/Records.antt =====
-- The types of src/modules/game/application/ports/game.repository.ts, and a stored game with its
-- players and their guests. `mode`, which has the single value BLITZ, and `updatedAt` are left out.
use Prim.Native.String.{String}
use clu_chess.Base.{ℕ, ◌==◌, Bool, Option, none, some, List, [], ◌∷◌, Result, ok, err, false}
use clu_chess.Base.Number.{ℤ}
use clu_chess.Game.{
  GameServiceErrorCode, allocation_mismatch, GameStatus, PlayerColor, GameResult, GameTermination,
}
use clu_chess.Store.Codec.{domain_result, domain_termination}
use clu_chess.Store.Loading.{players_of}
use clu_chess.Store.Rows.{Uuid, Slot, GuestRow, GameRow, PlayerRow}
use clu_chess.Store.Tables.{find, find_game}
use clu_chess.Store.Tx.{Body, unknown, next, thrown}
use clu_chess.Lifecycle.Resign.{ServiceError}

pub record AllocateGame : Type 0 where
  pub black_guest_session_id : Uuid
  pub game_id : Uuid
  pub initial_fen : String
  pub join_deadline_at : ℤ
  pub match_id : Uuid
  pub observed_at : ℤ
  pub pgn : String
  pub time_increment_ms : ℤ
  pub time_initial_ms : ℤ
  pub white_guest_session_id : Uuid

pub record MarkGameReady : Type 0 where
  pub expected_version : ℕ
  pub game_id : Uuid
  pub guest_session_id : Uuid
  pub observed_at : ℤ

pub record GamePlayerRecord : Type 0 where
  pub avatar_key : String
  pub color : PlayerColor
  pub connected_at : Option ℤ
  pub disconnected_at : Option ℤ
  pub display_name : String
  pub game_id : Uuid
  pub guest_session_id : Uuid
  pub id : Uuid
  pub joined_at : Option ℤ
  pub reconnect_grace_ends_at : Option ℤ
  pub slot : Slot

pub record GameRecord : Type 0 where
  pub black_clock_ms : ℤ
  pub current_fen : String
  pub ended_at : Option ℤ
  pub id : Uuid
  pub initial_fen : String
  pub increment_ms : ℤ
  pub join_deadline_at : Option ℤ
  pub match_id : Uuid
  pub pgn : String
  pub result : Option GameResult
  pub started_at : Option ℤ
  pub status : GameStatus
  pub termination : Option GameTermination
  pub time_initial_ms : ℤ
  pub turn_color : PlayerColor
  pub turn_started_at : Option ℤ
  pub version : ℕ
  pub white_clock_ms : ℤ

pub record GameAllocation : Type 0 where
  pub game : GameRecord
  pub players : GamePlayerRecord × GamePlayerRecord

-- A row of `players` with the row of its guest.
pub record SeatedPlayer : Type 0 where
  pub player : PlayerRow
  pub guest : GuestRow

pub record PersistedAllocation : Type 0 where
  pub game : GameRow
  pub players : List SeatedPlayer

abbrev pub seat :
    PlayerRow → Option GuestRow → Option (List SeatedPlayer) → Option (List SeatedPlayer)
seat p (some guest) (some rest) = some (record { player = p; guest = guest } ∷ rest)
seat p _ _ = none

-- `include: { guestSession: true }`; none where a guest's row is missing.
unfoldable pub with_guests : List GuestRow → List PlayerRow → Option (List SeatedPlayer)
with_guests guests [] = some []
with_guests guests (p ∷ ps) =
    seat p (find (λ g. g.id == p.guest_session_id) guests) (with_guests guests ps)

abbrev pub seated :
    {R : Type 0} → GameRow → Option (List SeatedPlayer) → Body R (Option PersistedAllocation)
seated g none db = thrown unknown
seated g (some ps) db = next (some (record { game = g; players = ps })) db

-- What `include: allocationInclude` reads with a row; the client throws where a guest is missing.
unfoldable pub include_players : {R : Type 0} → Option GameRow → Body R (Option PersistedAllocation)
include_players none db = next none db
include_players (some g) db = seated g (with_guests db.guests (players_of g.id db.players)) db

unfoldable pub find_allocation : {R : Type 0} → Uuid → Body R (Option PersistedAllocation)
find_allocation id db = include_players (find_game id db.games) db

unfoldable pub find_match : Uuid → List GameRow → Option GameRow
find_match id = find (λ g. g.match_id == id)

unfoldable pub map_game : GameRow → GameRecord
map_game g = record {
  black_clock_ms = g.black_clock_ms;
  current_fen = g.current_fen;
  ended_at = g.ended_at;
  id = g.id;
  initial_fen = g.initial_fen;
  increment_ms = g.increment_ms;
  join_deadline_at = g.join_deadline_at;
  match_id = g.match_id;
  pgn = g.pgn;
  result = domain_result g.result;
  started_at = g.started_at;
  status = g.status;
  termination = domain_termination g.termination;
  time_initial_ms = g.time_initial_ms;
  turn_color = g.turn_color;
  turn_started_at = g.turn_started_at;
  version = g.version;
  white_clock_ms = g.white_clock_ms;
}

unfoldable pub map_player : SeatedPlayer → GamePlayerRecord
map_player s = record {
  avatar_key = s.guest.avatar_key;
  color = s.player.color;
  connected_at = s.player.connected_at;
  disconnected_at = s.player.disconnected_at;
  display_name = s.guest.display_name;
  game_id = s.player.game_id;
  guest_session_id = s.player.guest_session_id;
  id = s.player.id;
  joined_at = s.player.joined_at;
  reconnect_grace_ends_at = s.player.reconnect_grace_ends_at;
  slot = s.player.slot;
}

abbrev pub refusal : GameServiceErrorCode → Bool → Option ℕ → ServiceError
refusal code retryable version = record {
  code = code;
  retryable = retryable;
  authoritative_version = version;
}

abbrev pub seats : GameRow → List SeatedPlayer → Result ServiceError GameAllocation
seats g (white ∷ black ∷ []) =
    ok (record { game = map_game g; players = (map_player white, map_player black) })
seats g _ = err (refusal allocation_mismatch false none)

unfoldable pub map_allocation : PersistedAllocation → Result ServiceError GameAllocation
map_allocation a = seats a.game a.players
