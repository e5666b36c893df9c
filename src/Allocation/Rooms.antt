-- ===== src/Allocation/Rooms.antt =====
-- Two players of a waiting game that call `markReady` one after the other, and `startIfReady`
-- (prisma-game.repository.ts).
use clu_chess.Base.{
  true, false, ◌+◌, ◌≡◌, ◌≢◌, refl, ◌==◌, Bool, ◌&&◌, some, List, [], ◌∷◌, ◌++◌, length, arith,
}
use clu_chess.Base.Number.{ℤ}
use clu_chess.Store.Loading.{players_of, is_first, is_second}
use clu_chess.Store.Rows.{Uuid, GameRow, PlayerRow, Database}
use clu_chess.Store.Tables.{filter-++, find, filter, find_game, update_where}
use clu_chess.Store.Tx.{next}
use clu_chess.Lifecycle.Ending.{is_set}
use clu_chess.Allocation.Ready.{joining, count_joined}
use clu_chess.Allocation.Records.{
  SeatedPlayer, PersistedAllocation, include_players, find_allocation, with_guests,
}

filter-update_where :
    (test : PlayerRow → Bool) (pid : Uuid) (f : PlayerRow → PlayerRow) (ps : List PlayerRow)
    → ((p : PlayerRow) → test (f p) ≡ test p)
    → filter test (update_where (λ p. p.id == pid) f ps)
      ≡ update_where (λ p. p.id == pid) f (filter test ps)
filter-update_where test pid f [] h = refl
filter-update_where test pid f (p ∷ ps) h = ground (arith, h p, filter-update_where test pid f ps h)

update_where-++ :
    (pid : Uuid) (f : PlayerRow → PlayerRow) (xs ys : List PlayerRow)
    → update_where (λ p. p.id == pid) f (xs ++ ys)
      ≡ update_where (λ p. p.id == pid) f xs ++ update_where (λ p. p.id == pid) f ys
update_where-++ pid f [] ys = refl
update_where-++ pid f (x ∷ xs) ys = ground (arith, update_where-++ pid f xs ys)

-- The players of a game after an update of one player.
pub players-update_where :
    (id pid : Uuid) (f : PlayerRow → PlayerRow) (ps : List PlayerRow)
    → ((p : PlayerRow) → (f p).game_id ≡ p.game_id)
    → ((p : PlayerRow) → (f p).slot ≡ p.slot)
    → players_of id (update_where (λ p. p.id == pid) f ps)
      ≡ update_where (λ p. p.id == pid) f (players_of id ps)
unfolding players_of
players-update_where id pid f ps h k = ground (
  arith,
  filter-update_where (λ p. (p.game_id == id) && is_first p.slot) pid f ps
      (λ p. ground (arith, h p, k p)),
  filter-update_where (λ p. (p.game_id == id) && is_second p.slot) pid f ps
      (λ p. ground (arith, h p, k p)),
  update_where-++ pid f (filter (λ p. (p.game_id == id) && is_first p.slot) ps)
      (filter (λ p. (p.game_id == id) && is_second p.slot) ps),
)

-- Those who have joined are counted in either slot.
abbrev joined : PlayerRow → Bool
joined p = is_set p.joined_at

length-++ : (xs ys : List PlayerRow) → length (xs ++ ys) ≡ length xs + length ys
length-++ [] ys = ground arith
length-++ (x ∷ xs) ys = ground (arith, length-++ xs ys)

filter-split :
    (id : Uuid) (ps : List PlayerRow)
    → length (filter (λ p. (p.game_id == id) && joined p) ps)
      ≡ length (filter joined (filter (λ p. (p.game_id == id) && is_first p.slot) ps))
        + length (filter joined (filter (λ p. (p.game_id == id) && is_second p.slot) ps))
filter-split id [] = refl
filter-split id (p ∷ ps) = ground (arith, filter-split id ps)

pub count_joined_lem :
    (id : Uuid) (db : Database)
    → count_joined id db ≡ length (filter joined (players_of id db.players))
unfolding count_joined players_of
count_joined_lem id db =
    let xs = filter (λ p. (p.game_id == id) && is_first p.slot) db.players in
    let ys = filter (λ p. (p.game_id == id) && is_second p.slot) db.players in
    ground (
      arith,
      filter-split id db.players,
      filter-++ joined xs ys,
      length-++ (filter joined xs) (filter joined ys),
    )

-- A game with its two players and their guests.
pub record IsRoom (g : GameRow) (white black : SeatedPlayer) (db : Database) : Type 0 where
  pub found : find_game g.id db.games ≡ some g
  pub members : players_of g.id db.players ≡ white.player ∷ black.player ∷ []
  pub white_stored : find (λ x. x.id == white.player.guest_session_id) db.guests ≡ some white.guest
  pub black_stored : find (λ x. x.id == black.player.guest_session_id) db.guests ≡ some black.guest
  pub players : white.player.id ≢ black.player.id
  pub guests : white.player.guest_session_id ≢ black.player.guest_session_id

abbrev pub room : GameRow → SeatedPlayer → SeatedPlayer → PersistedAllocation
room g white black = record { game = g; players = white ∷ black ∷ [] }

guests_read :
    (g : GameRow) (white black : SeatedPlayer) (db : Database)
    → IsRoom g white black db
    → with_guests db.guests (white.player ∷ black.player ∷ []) ≡ some (white ∷ black ∷ [])
unfolding with_guests
guests_read g white black db h = ground (arith, h.white_stored, h.black_stored)

pub find_room :
    {R : Type 0} (g : GameRow) (white black : SeatedPlayer) (db : Database)
    → IsRoom g white black db
    → find_allocation {R = R} g.id db ≡ next (some (room g white black)) db
unfolding find_allocation include_players
find_room g white black db h = rw h.found (rw h.members (rw (guests_read g white black db h) refl))

-- The seats of two players of whom one is named first: white, if `side` is true.
abbrev pub white_of : Bool → SeatedPlayer → SeatedPlayer → SeatedPlayer
white_of true s o = s
white_of false s o = o

abbrev pub black_of : Bool → SeatedPlayer → SeatedPlayer → SeatedPlayer
black_of true s o = o
black_of false s o = s

-- The seat of a player who joins.
abbrev pub seat_joining : ℤ → SeatedPlayer → SeatedPlayer
seat_joining now s = record s { player = joining now s.player s.player }
