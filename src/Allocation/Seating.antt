-- ===== src/Allocation/Seating.antt =====
-- An allocation seats two guests that nothing else holds, and assigns them to the new game.
use clu_chess.Base.{
  ◌≡◌, refl, ◌⊎◌, ◌==◌, Bool, true, ◌&&◌, ◌||◌, none, some, List, [], ◌∷◌, ◌++◌, any, arith, inl,
  inr,
}
use clu_chess.Store.Loading.{find_assignment}
use clu_chess.Store.Rows.{Uuid, PlayerRow, AssignmentRow, Database, GameRow}
use clu_chess.Store.Seats.{is_seated, assigned_game, IsAllocated}
use clu_chess.Store.Soundness.{present}
use clu_chess.Store.Tables.{find, find-append, find_game}
use clu_chess.Allocation.Admission.{IsAdmissible}
use clu_chess.Allocation.Allocate.{
  allocated_tables, new_players, new_assignments, guest_ids, is_in, new_game,
}
use clu_chess.Allocation.Creation.{found_new}
use clu_chess.Allocation.Records.{AllocateGame}

any-++ : (p : PlayerRow → Bool) (xs ys : List PlayerRow) → any p (xs ++ ys) ≡ (any p xs || any p ys)
any-++ p [] ys = refl
any-++ p (x ∷ xs) ys = ground (arith, any-++ p xs ys)

is_in_eq : (ids : List Uuid) (a guest : Uuid) → (a == guest) ≡ true → is_in ids a ≡ is_in ids guest
is_in_eq ids a guest h = ground (arith, h)

-- None of the new guests is assigned.
free_guest :
    (ids : List Uuid) (guest : Uuid) (rows : List AssignmentRow)
    → is_in ids guest ≡ true
    → find (λ a. is_in ids a.guest_session_id) rows ≡ none
    → find (λ a. a.guest_session_id == guest) rows ≡ none
free_guest ids guest [] h k = refl
free_guest ids guest (a ∷ rows) h k =
    ground (arith, free_guest ids guest rows h, is_in_eq ids a.guest_session_id guest)

module _ (fresh : Uuid × Uuid) (input : AllocateGame) (db : Database) where
  -- Who is seated after an allocation.
  seated_cases :
      (id guest : Uuid)
      → is_seated id guest (allocated_tables fresh input db).players ≡ true
      → (is_seated id guest db.players ≡ true)
        ⊎ ((id ≡ input.game_id) × (is_in (guest_ids input) guest ≡ true))
  unfolding allocated_tables new_players guest_ids
  seated_cases id guest s = ground (
    arith,
    any-++ (λ p. (p.game_id == id) && (p.guest_session_id == guest)) db.players
        (new_players fresh input),
  )

  -- An assignment that was there is still found.
  kept_assignment :
      (id guest : Uuid)
      → assigned_game (find_assignment guest db) ≡ some id
      → assigned_game (find_assignment guest (allocated_tables fresh input db)) ≡ some id
  unfolding allocated_tables find_assignment
  kept_assignment id guest h =
      ground (
        arith,
        find-append (λ a. a.guest_session_id == guest) db.assignments (new_assignments input),
      )

  new_assignment :
      (guest : Uuid)
      → is_in (guest_ids input) guest ≡ true
      → IsAdmissible input db
      → assigned_game (find_assignment guest (allocated_tables fresh input db)) ≡ some input.game_id
  unfolding allocated_tables find_assignment new_assignments guest_ids
  new_assignment guest h k = ground (
    arith,
    find-append (λ a. a.guest_session_id == guest) db.assignments (new_assignments input),
    free_guest (guest_ids input) guest db.assignments h k.unassigned,
  )

  found_still :
      (id : Uuid)
      → present (find_game id db.games) ≡ true
      → present (find_game id (allocated_tables fresh input db).games) ≡ true
  unfolding find_game allocated_tables
  found_still id h = ground (arith, find-append (λ g. g.id == id) db.games (new_game input ∷ []))

  found_before :
      (id : Uuid) (g : GameRow)
      → find_game id (allocated_tables fresh input db).games ≡ some g
      → present (find_game id db.games) ≡ true
      → find_game id db.games ≡ some g
  unfolding find_game allocated_tables
  found_before id g f h =
      ground (arith, find-append (λ x. x.id == id) db.games (new_game input ∷ []))

  pub allocated-IsAllocated :
      IsAdmissible input db → IsAllocated db → IsAllocated (allocated_tables fresh input db)
  allocated-IsAllocated k v = record {
    stored = λ id guest s. elim (seated_cases id guest s) [
      | inl old ↦ found_still id (v.stored id guest old)
      | inr (here, _) ↦ rw here (found_made)
    ];
    assigned = λ id guest g s f o. elim (seated_cases id guest s) [
      | inl old ↦
          kept_assignment id guest
            (v.assigned id guest g old (found_before id g f (v.stored id guest old)) o)
      | inr (here, new) ↦ rw here (new_assignment guest new k)
    ];
  }
    where
      after : Database
      after = allocated_tables fresh input db

      found_made : present (find_game input.game_id after.games) ≡ true
      found_made = rw (found_new fresh input db k.new_id) refl
