-- ===== src/Store/Soundness.antt =====
-- The CHECK constraints and the allocation trigger of the migration
-- prisma/migrations/20260724010000_phase_2_durable_persistence, as invariants of the tables.
use clu_chess.Base.{
  ℕ, ◌≡◌, refl, ◌⊎◌, inl, inr, Bool, true, false, Option, none, some, List, [], ◌∷◌, any, ◌==◌,
  arith, sym, ◌∙◌,
}
use clu_chess.Base.Number.{ℤ, pos, ◌≤ℤ◌}
use clu_chess.Game.StateMachine.Runs.{is_terminal}
use clu_chess.Store.LockedClock.{is_live, locked_clock}
use clu_chess.Store.Rows.{Uuid, GameRow, AssignmentRow, Database}
use clu_chess.Store.Tables.{find_game, update_game, delete_where, any-delete_where}

abbrev pub present {ℓ} : {A : Type ℓ} → Option A → Bool
present none = false
present (some _) = true

-- `games_terminal_state_check`, `games_turn_clock_state_check` and the checks on the clocks.
pub record IsSound (g : GameRow) : Type 0 where
  pub result : present g.result ≡ is_terminal g.status
  pub termination : present g.termination ≡ is_terminal g.status
  pub ended : present g.ended_at ≡ is_terminal g.status
  pub turn : present g.turn_started_at ≡ is_live g.status
  pub started : is_live g.status ≡ true → present g.started_at ≡ true
  pub white : pos 0 ≤ℤ g.white_clock_ms
  pub black : pos 0 ≤ℤ g.black_clock_ms
  pub increment : pos 0 ≤ℤ g.increment_ms

abbrev pub has_assignment : Uuid → List AssignmentRow → Bool
has_assignment id rows = any (λ a. a.game_id == id) rows

-- Every game row is sound, and a terminal game has no active assignment.
pub record IsConsistent (db : Database) : Type 0 where
  pub sound : (id : Uuid) (g : GameRow) → find_game id db.games ≡ some g → IsSound g
  pub released :
      (id : Uuid) (g : GameRow)
      → find_game id db.games ≡ some g
      → is_terminal g.status ≡ true
      → has_assignment id db.assignments ≡ false

-- The times that are read under the lock are no less than 0.
pub locked_clock_nonneg :
    (g : GameRow) (now : ℤ)
    → IsSound g
    → (pos 0 ≤ℤ (locked_clock g now).white_clock_ms)
      × (pos 0 ≤ℤ (locked_clock g now).black_clock_ms)
unfolding locked_clock
locked_clock_nonneg g now h = ground arith

-- What a lookup meets after an update by id and version: the old row, or the changed one.
abbrev change : (GameRow → GameRow) → Option GameRow → Option GameRow
change f none = none
change f (some g) = some (f g)

update_cases :
    (id i : Uuid) (version : ℕ) (f : GameRow → GameRow) (gs : List GameRow)
    → ((x : GameRow) → (f x).id ≡ x.id)
    → let after = find_game i (update_game id version f gs).1 in
      (after ≡ find_game i gs) ⊎ ((i ≡ id) × (after ≡ change f (find_game i gs)))
unfolding find_game update_game
update_cases id i version f [] k = inl refl
update_cases id i version f (x ∷ gs) k = ground (arith, k x, update_cases id i version f gs k)

changed_row :
    (f : GameRow → GameRow) (o : Option GameRow) {g : GameRow}
    → change f o ≡ some g
    → (x : GameRow) × (o ≡ some x) × (g ≡ f x)
changed_row f none h = cc
changed_row f (some x) h = (x, refl, ground arith)

find-update_game :
    (id i : Uuid) (version : ℕ) (f : GameRow → GameRow) (gs : List GameRow) {g : GameRow}
    → ((x : GameRow) → (f x).id ≡ x.id)
    → find_game i (update_game id version f gs).1 ≡ some g
    → (find_game i gs ≡ some g) ⊎ ((x : GameRow) × (i ≡ id) × (find_game i gs ≡ some x) × (g ≡ f x))
find-update_game id i version f gs k h = elim (update_cases id i version f gs k) [
  | inl e ↦ inl (sym e ∙ h)
  | inr (here, e) ↦
      let (x, old, new) = changed_row f (find_game i gs) (sym e ∙ h) in inr (x, here, old, new)
]

has_assignment-delete_where :
    (id : Uuid) (p : AssignmentRow → Bool) (rows : List AssignmentRow)
    → has_assignment id rows ≡ false
    → has_assignment id (delete_where p rows) ≡ false
has_assignment-delete_where id p [] h = refl
has_assignment-delete_where id p (a ∷ rows) h =
    ground (arith, has_assignment-delete_where id p rows)

-- Tables that differ in other columns only.
pub IsConsistent-same :
    {db : Database} (db' : Database)
    → IsConsistent db
    → db'.games ≡ db.games
    → db'.assignments ≡ db.assignments
    → IsConsistent db'
IsConsistent-same db' v g a = record {
  sound = λ id x e. v.sound id x (rw g at e);
  released = λ id x e t. rw a (v.released id x (rw g at e) t);
}

-- An update that leaves a game in play.
pub update-IsConsistent :
    (db : Database) (id : Uuid) (version : ℕ) (f : GameRow → GameRow)
    → ((x : GameRow) → (f x).id ≡ x.id)
    → ((x : GameRow) → find_game id db.games ≡ some x → is_terminal (f x).status ≡ false)
    → ((x : GameRow) → find_game id db.games ≡ some x → IsSound x → IsSound (f x))
    → IsConsistent db
    → IsConsistent (record db { games = (update_game id version f db.games).1 })
update-IsConsistent db id version f same live keep v = record {
  sound = λ i g e. elim (find-update_game id i version f db.games same e) [
    | inl old ↦ v.sound i g old
    | inr (x, here, old, new) ↦ rw new (keep x (rw here at old) (v.sound i x old))
  ];
  released = λ i g e t. elim (find-update_game id i version f db.games same e) [
    | inl old ↦ v.released i g old t
    | inr (x, here, old, new) ↦ cc (live x (rw here at old))
  ];
}

-- An update that ends a game, together with the deletion of its assignments.
pub end-IsConsistent :
    (db : Database) (id : Uuid) (version : ℕ) (f : GameRow → GameRow)
    → ((x : GameRow) → (f x).id ≡ x.id)
    → ((x : GameRow) → find_game id db.games ≡ some x → IsSound x → IsSound (f x))
    → IsConsistent db
    → IsConsistent (record db {
      games = (update_game id version f db.games).1;
      assignments = delete_where (λ a. a.game_id == id) db.assignments;
    })
end-IsConsistent db id version f same keep v = record {
  sound = λ i g e. elim (find-update_game id i version f db.games same e) [
    | inl old ↦ v.sound i g old
    | inr (x, here, old, new) ↦ rw new (keep x (rw here at old) (v.sound i x old))
  ];
  released = λ i g e t. elim (find-update_game id i version f db.games same e) [
    | inl old ↦ has_assignment-delete_where i _ db.assignments (v.released i g old t)
    | inr (x, here, old, new) ↦ rw here (any-delete_where (λ a. a.game_id == id) db.assignments)
  ];
}
