-- ===== src/Server/Progress.antt =====
-- How the rows of the games change from one state of the tables to the next.
use clu_chess.Base.{
  ◌==◌, ◌≡◌, refl, sym, ◌⊎◌, inl, inr, ◌<◌, false, Bool-cases, none, some, [], ◌∷◌, ◌++◌, arith,
}
use clu_chess.Game.StateMachine.Runs.{is_terminal}
use clu_chess.Store.Rows.{Uuid, GameRow, Database}
use clu_chess.Store.Seats.{IsAllocated}
use clu_chess.Store.Soundness.{IsConsistent}
use clu_chess.Store.Tables.{find_game, update_game, update_game_hit, update_game_other}
use clu_chess.Allocation.Creation.{found_old}

-- A row that comes after a row: the same one, or one of a later version where the game had not ended.
abbrev pub Follows : GameRow → GameRow → Type 0
Follows g g' = (g' ≡ g) ⊎ ((is_terminal g.status ≡ false) × (g.version < g'.version))

pub Follows-trans : (g g' g'' : GameRow) → Follows g g' → Follows g' g'' → Follows g g''
Follows-trans g g' g'' (inl e) h = rw (sym e) h
Follows-trans g g' g'' (inr (open_end, later)) (inl e) = inr (open_end, rw e later)
Follows-trans g g' g'' (inr (open_end, later)) (inr (_, later')) =
    inr (open_end, ground (arith, later, later'))

-- An update of one game that has not ended.
pub record Updates (db after : Database) : Type 0 where
  pub row : GameRow
  pub change : GameRow → GameRow
  pub found : find_game row.id db.games ≡ some row
  pub open_end : is_terminal row.status ≡ false
  pub same_id : (x : GameRow) → (change x).id ≡ x.id
  pub later : row.version < (change row).version
  pub games : after.games ≡ (update_game row.id row.version change db.games).1

-- A row of a new game, after the others.
pub record Adds (db after : Database) : Type 0 where
  pub row : GameRow
  pub new_id : find_game row.id db.games ≡ none
  pub games : after.games ≡ db.games ++ row ∷ []

pub data Change (db after : Database) : Type 0 where
  same_rows : after.games ≡ db.games → Change db after
  updates : Updates db after → Change db after
  adds : Adds db after → Change db after

-- What every operation does.
pub record Proceeds (db after : Database) : Type 0 where
  pub consistent : IsConsistent db → IsConsistent after
  pub allocated : IsAllocated db → IsAllocated after
  pub rows : Change db after

pub stays : (db : Database) → Proceeds db db
stays db = record { consistent = λ v. v; allocated = λ v. v; rows = same_rows refl }

updated_row :
    (db after : Database) (u : Updates db after) (id : Uuid) (g : GameRow)
    → find_game id db.games ≡ some g
    → (g' : GameRow) × (find_game id after.games ≡ some g') × Follows g g'
updated_row db after u id g h = elim (Bool-cases (u.row.id == id)) [
  | inl here ↦
      let hit = (update_game_hit u.row.id u.change u.row db.games u.found (u.same_id u.row)).1 in
      let same : u.row ≡ g = ground (arith, here, h, u.found) in
      (
        u.change u.row,
        ground (arith, here, hit, u.games),
        inr (rw (sym same) u.open_end, rw (sym same) u.later),
      )
  | inr away ↦
      let kept =
        update_game_other u.row.id id u.row.version u.change db.games (ground (arith, away))
          u.same_id in
      (g, ground (arith, kept, u.games, h), inl refl)
]

pub Proceeds-row :
    (db after : Database)
    → Proceeds db after
    → (id : Uuid) (g : GameRow) → find_game id db.games ≡ some g
    → (g' : GameRow) × (find_game id after.games ≡ some g') × Follows g g'
Proceeds-row db after p id g h = elim p.rows [
  | same_rows same ↦ (g, rw same h, inl refl)
  | updates u ↦ updated_row db after u id g h
  | adds a ↦ (g, rw a.games (found_old db.games g a.row id h), inl refl)
]
