-- ===== src/Allocation/Allocate.antt =====
-- `allocate` of prisma-game.repository.ts. The ids of the two players' rows, which the client
-- generates, are an argument. The lock on the guests' rows has no effect here, since a
-- transaction has the tables to itself.
use clu_chess.Base.{
  ℕ, ◌==◌, leb, Bool, true, false, not, ◌&&◌, Option, none, some, List, [], ◌∷◌, ◌++◌, map, any,
  length, Result, ok, err, if◌then◌else◌,
}
use clu_chess.Base.Number.{ℤ, pos, ltb_ℤ}
use clu_chess.Game.{
  allocation_mismatch, guest_already_in_game, guest_not_eligible, waiting_for_players, w, b,
}
use clu_chess.Store.Rows.{Uuid, Slot, GuestRow, GameRow, PlayerRow, AssignmentRow, Database}
use clu_chess.Store.Soundness.{present}
use clu_chess.Store.Tables.{find, filter, find_game}
use clu_chess.Store.Tx.{
  Body, DatabaseErrorKind, constraint, unique, unknown, ◌>>=◌, ◌>>◌, return, return_if, throw_if,
  gets, modify, run_transaction, next, returned, thrown,
}
use clu_chess.Lifecycle.Resign.{Failure, ServiceError, service, database}
use clu_chess.Allocation.Records.{
  AllocateGame, PersistedAllocation, GameAllocation, include_players, find_allocation, find_match,
  map_allocation, refusal,
}

-- `AllocationTransactionResult`.
pub data AllocationResult : Type 0 where
  allocated : PersistedAllocation → AllocationResult
  conflict ineligible mismatch : AllocationResult

-- `sort` on ids.
abbrev pub insert : Uuid → List Uuid → List Uuid
insert x [] = x ∷ []
insert x (y ∷ ys) = if leb x y then x ∷ y ∷ ys else (y ∷ insert x ys)

abbrev pub sorted : List Uuid → List Uuid
sorted [] = []
sorted (x ∷ xs) = insert x (sorted xs)

-- `actual.every((id, index) => id === expected[index])`.
abbrev pub every_at : List Uuid → List Uuid → Bool
every_at [] expected = true
every_at (x ∷ xs) [] = false
every_at (x ∷ xs) (y ∷ ys) = (x == y) && every_at xs ys

unfoldable pub guest_ids : AllocateGame → List Uuid
guest_ids input = input.white_guest_session_id ∷ input.black_guest_session_id ∷ []

unfoldable pub matches_reservation : PersistedAllocation → AllocateGame → Bool
unfolding guest_ids
matches_reservation a input =
    let actual = sorted (map (λ s. s.player.guest_session_id) a.players) in
    (a.game.id == input.game_id)
    && ((length actual == 2) && every_at actual (sorted (guest_ids input)))

-- `id: { in: guestIds }`.
abbrev pub is_in : List Uuid → Uuid → Bool
is_in ids id = any (λ i. i == id) ids

abbrev pub is_eligible : ℤ → GuestRow → Bool
is_eligible now g = ltb_ℤ now g.expires_at && not (present g.revoked_at)

unfoldable pub count_eligible : AllocateGame → Database → ℕ
unfolding guest_ids
count_eligible input db =
    length (filter (λ g. is_eligible input.observed_at g && is_in (guest_ids input) g.id) db.guests)

unfoldable pub new_game : AllocateGame → GameRow
new_game input = record {
  id = input.game_id;
  match_id = input.match_id;
  status = waiting_for_players;
  initial_fen = input.initial_fen;
  current_fen = input.initial_fen;
  turn_color = w;
  pgn = input.pgn;
  version = 0;
  result = none;
  termination = none;
  time_initial_ms = input.time_initial_ms;
  increment_ms = input.time_increment_ms;
  white_clock_ms = input.time_initial_ms;
  black_clock_ms = input.time_initial_ms;
  turn_started_at = none;
  join_deadline_at = some input.join_deadline_at;
  reconnect_deadline_at = none;
  started_at = none;
  ended_at = none;
}

abbrev pub new_white : Uuid × Uuid → AllocateGame → PlayerRow
new_white fresh input = record {
  id = fresh.0;
  game_id = input.game_id;
  guest_session_id = input.white_guest_session_id;
  color = w;
  slot = Slot.first;
  joined_at = none;
  connected_at = none;
  disconnected_at = none;
  reconnect_grace_ends_at = none;
}

abbrev pub new_black : Uuid × Uuid → AllocateGame → PlayerRow
new_black fresh input = record (new_white fresh input) {
  id = fresh.1;
  guest_session_id = input.black_guest_session_id;
  color = b;
  slot = Slot.second;
}

unfoldable pub new_players : Uuid × Uuid → AllocateGame → List PlayerRow
new_players fresh input = new_white fresh input ∷ new_black fresh input ∷ []

abbrev pub assign : Uuid → Uuid → AssignmentRow
assign game_id guest = record { guest_session_id = guest; game_id = game_id }

unfoldable pub new_assignments : AllocateGame → List AssignmentRow
unfolding guest_ids
new_assignments input = map (assign input.game_id) (sorted (guest_ids input))

-- The rows that `game.create` writes.
unfoldable pub allocated_tables : Uuid × Uuid → AllocateGame → Database → Database
allocated_tables fresh input db = record db {
  games = db.games ++ new_game input ∷ [];
  players = db.players ++ new_players fresh input;
  assignments = db.assignments ++ new_assignments input;
}

-- `time_initial_ms > 0` and `increment_ms >= 0`, of the migration.
abbrev pub meets_checks : AllocateGame → Bool
meets_checks input =
    ltb_ℤ (pos 0) input.time_initial_ms && not (ltb_ℤ input.time_increment_ms (pos 0))

-- `game.create`, with the constraints of the schema.
unfoldable pub create_game :
    {R : Type 0} → Uuid × Uuid → AllocateGame → Body R (Option PersistedAllocation)
create_game fresh input = do
  throw_if (not (meets_checks input)) constraint
  clash ← gets (λ db. find_game input.game_id db.games)
  throw_if (present clash) unique
  modify (allocated_tables fresh input)
  find_allocation input.game_id

-- An allocation of the same match is returned, if it is of the same reservation.
abbrev pub return_existing :
    Option PersistedAllocation → AllocateGame → Body AllocationResult (Unit {0})
return_existing none input db = next tt db
return_existing (some a) input db =
    returned (if matches_reservation a input then allocated a else mismatch) db

-- The result of `create`, which is a row.
abbrev pub created_row : {R : Type 0} → Option PersistedAllocation → Body R PersistedAllocation
created_row none db = thrown unknown
created_row (some a) db = next a db

unfoldable pub allocate_in_transaction :
    Uuid × Uuid → AllocateGame → Body AllocationResult AllocationResult
allocate_in_transaction fresh input = do
  row ← gets (λ db. find_match input.match_id db.games)
  existing ← include_players row
  return_existing existing input
  eligible ← gets (count_eligible input)
  return_if (not (eligible == 2)) ineligible
  assignment ← gets (λ db. find (λ a. is_in (guest_ids input) a.guest_session_id) db.assignments)
  return_if (present assignment) conflict
  made ← create_game fresh input
  allocation ← created_row made
  return (allocated allocation)

abbrev pub mapped : Result ServiceError GameAllocation → Result Failure GameAllocation
mapped (ok a) = ok a
mapped (err e) = err (service e)

abbrev pub answer : AllocationResult → Result Failure GameAllocation
answer (allocated a) = mapped (map_allocation a)
answer conflict = err (service (refusal guest_already_in_game false none))
answer ineligible = err (service (refusal guest_not_eligible false none))
answer mismatch = err (service (refusal allocation_mismatch false none))

abbrev pub conclude :
    Result DatabaseErrorKind AllocationResult × Database → Result Failure GameAllocation × Database
conclude (ok r, db) = (answer r, db)
conclude (err e, db) = (err (database e), db)

unfoldable pub allocate :
    Uuid × Uuid → AllocateGame → Database → Result Failure GameAllocation × Database
allocate fresh input db =
    if input.white_guest_session_id == input.black_guest_session_id
    then (err (service (refusal allocation_mismatch false none)), db)
    else conclude (run_transaction (allocate_in_transaction fresh input) db)
