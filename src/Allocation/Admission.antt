-- ===== src/Allocation/Admission.antt =====
-- What `allocate` of prisma-game.repository.ts leaves: the tables as they were, or the rows of one
-- new game.
use clu_chess.Base.{◌≡◌, ◌≢◌, refl, ◌⊎◌, inl, inr, true, Option, none, some, arith, Option-cases}
use clu_chess.Store.Rows.{Uuid, GameRow, Database}
use clu_chess.Store.Tables.{find, find_game}
use clu_chess.Store.Tx.{next, thrown, unknown}
use clu_chess.Allocation.Allocate.{
  AllocationResult, allocate, allocate_in_transaction, create_game, allocated_tables, meets_checks,
  count_eligible, guest_ids, is_in,
}
use clu_chess.Allocation.Records.{
  AllocateGame, PersistedAllocation, include_players, find_allocation, find_match, seated,
  with_guests,
}

-- Where the allocation is accepted.
pub record IsAdmissible (input : AllocateGame) (db : Database) : Type 0 where
  pub distinct : input.white_guest_session_id ≢ input.black_guest_session_id
  pub new_match : find_match input.match_id db.games ≡ none
  pub eligible : count_eligible input db ≡ 2
  pub unassigned : find (λ a. is_in (guest_ids input) a.guest_session_id) db.assignments ≡ none
  pub checked : meets_checks input ≡ true
  pub new_id : find_game input.game_id db.games ≡ none

-- Reading a row with its players leaves the tables, and gives a game or throws.
include_players_cases :
    {R : Type 0} (g : GameRow) (db : Database)
    → (include_players {R = R} (some g) db ≡ thrown unknown)
      ⊎ ((a : PersistedAllocation) × (include_players {R = R} (some g) db ≡ next (some a) db)
          × (a.game ≡ g))
unfolding include_players
include_players_cases {R = R} g db = seated_cases (with_guests db.guests _)
  where
    seated_cases :
        (ps : Option _)
        → (seated {R = R} g ps db ≡ thrown unknown)
          ⊎ ((a : PersistedAllocation) × (seated {R = R} g ps db ≡ next (some a) db) × (a.game ≡ g))
    seated_cases none = inl refl
    seated_cases (some ps) = inr (_, refl, refl)

pub find_allocation_cases :
    {R : Type 0} (id : Uuid) (db : Database) (g : GameRow)
    → find_game id db.games ≡ some g
    → (find_allocation {R = R} id db ≡ thrown unknown)
      ⊎ ((a : PersistedAllocation) × (find_allocation {R = R} id db ≡ next (some a) db)
          × (a.game ≡ g))
unfolding find_allocation
find_allocation_cases id db g h = rw h (include_players_cases g db)

pub find_allocation-none :
    {R : Type 0} (id : Uuid) (db : Database)
    → find_game id db.games ≡ none
    → find_allocation {R = R} id db ≡ next none db
unfolding find_allocation include_players
find_allocation-none id db h = rw h

repeat_unreadable :
    (fresh : Uuid × Uuid) (input : AllocateGame) (db : Database) (g : GameRow)
    → find_match input.match_id db.games ≡ some g
    → include_players {R = AllocationResult} (some g) db ≡ thrown unknown
    → (allocate fresh input db).1 ≡ db
unfolding allocate allocate_in_transaction
repeat_unreadable fresh input db g h k = ground arith

-- A repeated allocation is answered from the game that is stored, and leaves the tables.
repeat_known :
    (fresh : Uuid × Uuid) (input : AllocateGame) (db : Database) (g : GameRow)
    (a : PersistedAllocation)
    → find_match input.match_id db.games ≡ some g
    → include_players {R = AllocationResult} (some g) db ≡ next (some a) db
    → (allocate fresh input db).1 ≡ db
unfolding allocate allocate_in_transaction
repeat_known fresh input db g a h k = ground arith

pub no_match : {R : Type 0} (db : Database) → include_players {R = R} none db ≡ next none db
unfolding include_players
no_match db = refl

first_time_unreadable :
    (fresh : Uuid × Uuid) (input : AllocateGame) (db : Database)
    → find_match input.match_id db.games ≡ none
    → find_allocation {R = AllocationResult} input.game_id (allocated_tables fresh input db)
      ≡ thrown unknown
    → (allocate fresh input db).1 ≡ db
unfolding allocate allocate_in_transaction create_game
first_time_unreadable fresh input db h k = ground (arith, no_match {R = AllocationResult} db)

first_time :
    (fresh : Uuid × Uuid) (input : AllocateGame) (db : Database) (a : PersistedAllocation)
    → find_match input.match_id db.games ≡ none
    → let after = allocated_tables fresh input db in
      find_allocation {R = AllocationResult} input.game_id after ≡ next (some a) after
      → let after' = (allocate fresh input db).1 in
        (after' ≡ db) ⊎ (IsAdmissible input db × (after' ≡ allocated_tables fresh input db))
unfolding allocate allocate_in_transaction create_game
first_time fresh input db a h k = ground (arith, no_match {R = AllocationResult} db)

first_time_missing :
    (fresh : Uuid × Uuid) (input : AllocateGame) (db : Database)
    → find_match input.match_id db.games ≡ none
    → let after = allocated_tables fresh input db in
      find_allocation {R = AllocationResult} input.game_id after ≡ next none after
      → (allocate fresh input db).1 ≡ db
unfolding allocate allocate_in_transaction create_game
first_time_missing fresh input db h k = ground (arith, no_match {R = AllocationResult} db)

-- Every allocation either leaves the tables as they were or is admissible: the guests are two,
-- neither its match nor its id is known, both guests are eligible, neither has an active
-- assignment and the times pass the constraints; then the tables are those of
-- `allocated_tables`, with the rows of one new game.
pub allocate_cases :
    (fresh : Uuid × Uuid) (input : AllocateGame) (db : Database)
    → let after = (allocate fresh input db).1 in
      (after ≡ db) ⊎ (IsAdmissible input db × (after ≡ allocated_tables fresh input db))
allocate_cases fresh input db = elim (Option-cases (find_match input.match_id db.games)) [
  | inr (g, known) ↦ elim (include_players_cases {R = AllocationResult} g db) [
    | inl fails ↦ inl (repeat_unreadable fresh input db g known fails)
    | inr (a, reads, _) ↦ inl (repeat_known fresh input db g a known reads)
  ]
  | inl new ↦
      let after = allocated_tables fresh input db in
      elim (Option-cases (find_game input.game_id after.games)) [
        | inl lost ↦ inl (
            first_time_missing fresh input db new
              (find_allocation-none {R = AllocationResult} input.game_id after lost))
        | inr (g, found) ↦
            elim (find_allocation_cases {R = AllocationResult} input.game_id after g found) [
              | inl fails ↦ inl (first_time_unreadable fresh input db new fails)
              | inr (a, reads, _) ↦ first_time fresh input db a new reads
            ]
      ]
]
