-- ===== src/Store/Loading.antt =====
-- Reading a game with its players, and the unique lookups, as the repositories in
-- src/modules/game/infrastructure do.
use clu_chess.Base.{Bool, ◌&&◌, Option, none, some, List, [], ◌∷◌, ◌++◌, ◌==◌, true, false}
use clu_chess.Base.Number.{ℤ}
use clu_chess.Store.LockedClock.{LockedGameClock, locked_clock}
use clu_chess.Store.Rows.{
  Uuid, Slot, first, second, GameRow, PlayerRow, AssignmentRow, CommandRow, Database,
}
use clu_chess.Store.Tables.{find, filter, find_game}
use clu_chess.Store.Tx.{Body, unknown, next, thrown}

pub record PersistedGame : Type 0 where
  pub game : GameRow
  pub players : List PlayerRow

abbrev pub is_first : Slot → Bool
is_first first = true
is_first second = false

abbrev pub is_second : Slot → Bool
is_second first = false
is_second second = true

-- `players: { orderBy: { slot: 'asc' } }`.
unfoldable pub players_of : Uuid → List PlayerRow → List PlayerRow
players_of id ps =
    filter (λ p. (p.game_id == id) && is_first p.slot) ps
    ++ filter (λ p. (p.game_id == id) && is_second p.slot) ps

-- `findGame`.
unfoldable pub load_game : Uuid → Database → Option PersistedGame
load_game id db = elim (find_game id db.games) [
  | none ↦ none
  | some g ↦ some (record { game = g; players = players_of id db.players })
]

-- `lockGameClock`.
unfoldable pub lock_game_clock : ℤ → Uuid → Database → Option LockedGameClock
lock_game_clock now id db = elim (find_game id db.games) [
  | none ↦ none
  | some g ↦ some (locked_clock g now)
]

unfoldable pub find_command : Uuid → Uuid → Database → Option CommandRow
find_command game_id event_id db =
    find (λ c. (c.game_id == game_id) && (c.event_id == event_id)) db.commands

unfoldable pub find_assignment : Uuid → Database → Option AssignmentRow
find_assignment guest db = find (λ a. a.guest_session_id == guest) db.assignments

-- `playerFor`.
unfoldable pub player_for : PersistedGame → Uuid → Option PlayerRow
player_for game guest = find (λ p. p.guest_session_id == guest) game.players

-- `guestTuple`; it throws unless the game has exactly two players.
unfoldable pub guest_tuple : {R : Type 0} → List PlayerRow → Body R (Uuid × Uuid)
guest_tuple (p ∷ q ∷ []) db = next (p.guest_session_id, q.guest_session_id) db
guest_tuple _ db = thrown unknown
