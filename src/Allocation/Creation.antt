-- ===== src/Allocation/Creation.antt =====
-- The rows that an allocation adds keep the tables consistent, and no other game changes.
use clu_chess.Base.{
  ◌≡◌, ◌≢◌, refl, ◌⊎◌, inl, inr, ◌==◌, Bool, true, false, none, some, List, [], ◌∷◌, ◌++◌, any,
  arith,
}
use clu_chess.Game.StateMachine.Runs.{is_terminal}
use clu_chess.Store.LockedClock.{is_live}
use clu_chess.Store.Rows.{Uuid, GameRow, AssignmentRow, Database}
use clu_chess.Store.Soundness.{IsSound, IsConsistent, has_assignment}
use clu_chess.Store.Tables.{find_game, find-append, find-append_new}
use clu_chess.Allocation.Admission.{IsAdmissible}
use clu_chess.Allocation.Allocate.{allocated_tables, new_game, new_assignments, guest_ids}
use clu_chess.Allocation.Records.{AllocateGame}

-- The new row is found by its id, and every other game is found as before.
pub found_new :
    (fresh : Uuid × Uuid) (input : AllocateGame) (db : Database)
    → find_game input.game_id db.games ≡ none
    → find_game input.game_id (allocated_tables fresh input db).games ≡ some (new_game input)
unfolding find_game allocated_tables new_game
found_new fresh input db h =
    find-append_new (λ g. g.id == input.game_id) db.games (new_game input) h (ground arith)

pub found_cases :
    (gs : List GameRow) (g x : GameRow) (id : Uuid)
    → find_game id (gs ++ x ∷ []) ≡ some g
    → (find_game id gs ≡ some g) ⊎ ((find_game id gs ≡ none) × (g ≡ x))
unfolding find_game
found_cases gs g x id h = ground (arith, find-append (λ r. r.id == id) gs (x ∷ []))

pub found_old :
    (gs : List GameRow) (g x : GameRow) (id : Uuid)
    → find_game id gs ≡ some g
    → find_game id (gs ++ x ∷ []) ≡ some g
unfolding find_game
found_old gs g x id h = ground (arith, find-append (λ r. r.id == id) gs (x ∷ []))

new_game-IsSound :
    (input : AllocateGame) (db : Database) → IsAdmissible input db → IsSound (new_game input)
unfolding new_game is_live
new_game-IsSound input db h = record {
  result = refl;
  termination = refl;
  ended = refl;
  turn = refl;
  started = ground arith;
  white = ground (arith, h.checked);
  black = ground (arith, h.checked);
  increment = ground (arith, h.checked);
}

any-append :
    (p : AssignmentRow → Bool) (xs ys : List AssignmentRow)
    → any p xs ≡ false
    → any p ys ≡ false
    → any p (xs ++ ys) ≡ false
any-append p [] ys h k = k
any-append p (x ∷ xs) ys h k = ground (arith, any-append p xs ys)

unassigned_elsewhere :
    (input : AllocateGame) (id : Uuid)
    → id ≢ input.game_id
    → has_assignment id (new_assignments input) ≡ false
unfolding new_assignments guest_ids
unassigned_elsewhere input id h = ground arith

new_game_open :
    (input : AllocateGame) {g : GameRow}
    → g ≡ new_game input
    → is_terminal g.status ≡ true
    → true ≡ false
unfolding new_game
new_game_open input e t = ground arith

pub allocated-IsConsistent :
    (fresh : Uuid × Uuid) (input : AllocateGame) (db : Database)
    → IsAdmissible input db
    → IsConsistent db
    → IsConsistent (allocated_tables fresh input db)
unfolding allocated_tables
allocated-IsConsistent fresh input db h v = record {
  sound = λ id g e. elim (found_cases db.games g (new_game input) id e) [
    | inl old ↦ v.sound id g old
    | inr (_, new) ↦ rw new (new_game-IsSound input db h)
  ];
  released = λ id g e t. elim (found_cases db.games g (new_game input) id e) [
    | inl old ↦
        any-append (λ a. a.game_id == id) db.assignments (new_assignments input)
          (v.released id g old t) (unassigned_elsewhere input id (ground (arith, h.new_id)))
    | inr (_, new) ↦ cc (new_game_open input new t)
  ];
}
