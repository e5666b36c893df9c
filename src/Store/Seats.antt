-- ===== src/Store/Seats.antt =====
-- Who plays where: the allocation trigger of the migration
-- prisma/migrations/20260724010000_phase_2_durable_persistence, as far as it joins the players of
-- a game that has not ended with their active assignments.
use clu_chess.Base.{
  ◌≡◌, ◌≢◌, refl, sym, ◌∙◌, inl, inr, ◌==◌, Bool, true, false, ◌&&◌, Option, none, some, List, [],
  ◌∷◌, any, arith, Bool-cases,
}
use clu_chess.Game.StateMachine.Runs.{is_terminal}
use clu_chess.Store.Loading.{find_assignment}
use clu_chess.Store.Rows.{Uuid, GameRow, PlayerRow, AssignmentRow, Database}
use clu_chess.Store.Soundness.{present}
use clu_chess.Store.Tables.{
  find, find_game, update_game, update_where, delete_where, update_game_hit, update_game_other,
}

-- Whether a guest is a player of a game.
abbrev pub is_seated : Uuid → Uuid → List PlayerRow → Bool
is_seated id guest ps = any (λ p. (p.game_id == id) && (p.guest_session_id == guest)) ps

abbrev pub assigned_game : Option AssignmentRow → Option Uuid
assigned_game none = none
assigned_game (some a) = some a.game_id

-- A player's game is stored, and the players of a game that has not ended are assigned to it.
pub record IsAllocated (db : Database) : Type 0 where
  pub stored :
      (id guest : Uuid)
      → is_seated id guest db.players ≡ true
      → present (find_game id db.games) ≡ true
  pub assigned :
      (id guest : Uuid) (g : GameRow)
      → is_seated id guest db.players ≡ true
      → find_game id db.games ≡ some g
      → is_terminal g.status ≡ false
      → assigned_game (find_assignment guest db) ≡ some id

-- A guest has at most one game that has not ended.
pub one_open_game :
    (db : Database) (id other guest : Uuid) (g g' : GameRow)
    → IsAllocated db
    → is_seated id guest db.players ≡ true
    → is_seated other guest db.players ≡ true
    → find_game id db.games ≡ some g
    → find_game other db.games ≡ some g'
    → is_terminal g.status ≡ false
    → is_terminal g'.status ≡ false
    → id ≡ other
one_open_game db id other guest g g' v s s' f f' o o' =
    ground (arith, v.assigned id guest g s f o, v.assigned other guest g' s' f' o')

-- Updates of players that keep their seats.
pub seats-update_where :
    (test : PlayerRow → Bool) (f : PlayerRow → PlayerRow) (ps : List PlayerRow) (id guest : Uuid)
    → ((p : PlayerRow) → (f p).game_id ≡ p.game_id)
    → ((p : PlayerRow) → (f p).guest_session_id ≡ p.guest_session_id)
    → is_seated id guest (update_where test f ps) ≡ is_seated id guest ps
seats-update_where test f [] id guest h k = refl
seats-update_where test f (p ∷ ps) id guest h k =
    ground (arith, h p, k p, seats-update_where test f ps id guest h k)

assigned-delete_where :
    (ended id guest : Uuid) (rows : List AssignmentRow)
    → id ≢ ended
    → assigned_game (find (λ a. a.guest_session_id == guest) rows) ≡ some id
    → assigned_game
        (find (λ a. a.guest_session_id == guest) (delete_where (λ a. a.game_id == ended) rows))
      ≡ some id
assigned-delete_where ended id guest [] ne h = h
assigned-delete_where ended id guest (a ∷ rows) ne h =
    ground (arith, assigned-delete_where ended id guest rows ne)

module _ (db after : Database) (row : GameRow) (change : GameRow → GameRow)
    (found : find_game row.id db.games ≡ some row) (open_end : is_terminal row.status ≡ false)
    (same_id : (x : GameRow) → (change x).id ≡ x.id)
    (games : after.games ≡ (update_game row.id row.version change db.games).1) where
  -- An open game after the update was open before it.
  open_before :
      (id : Uuid) (g : GameRow)
      → find_game id after.games ≡ some g
      → is_terminal g.status ≡ false
      → (g' : GameRow) × (find_game id db.games ≡ some g') × (is_terminal g'.status ≡ false)
  open_before id g h o = elim (Bool-cases (row.id == id)) [
    | inl here ↦ (row, ground (arith, here, found), open_end)
    | inr away ↦ (
      g,
      ground (
        arith,
        update_game_other row.id id row.version change db.games (ground (arith, away)) same_id,
        games,
        h,
      ),
      o,
    )
  ]

  -- The row that has been updated is found.
  changed_row : find_game row.id after.games ≡ some (change row)
  changed_row =
      ground (arith, (update_game_hit row.id change row db.games found (same_id row)).1, games)

  stored_after :
      (id : Uuid)
      → present (find_game id db.games) ≡ true
      → present (find_game id after.games) ≡ true
  stored_after id h = elim (Bool-cases (row.id == id)) [
    | inl here ↦ ground (arith, here, changed_row)
    | inr away ↦ ground (
      arith,
      update_game_other row.id id row.version change db.games (ground (arith, away)) same_id,
      games,
      h,
    )
  ]

  module _
      (seats : (id guest : Uuid)
        → is_seated id guest after.players ≡ is_seated id guest db.players) where
    pub update-IsAllocated : after.assignments ≡ db.assignments → IsAllocated db → IsAllocated after
    unfolding find_assignment
    update-IsAllocated same v = record {
      stored = λ id guest s. stored_after id (v.stored id guest (sym (seats id guest) ∙ s));
      assigned = λ id guest g s f o.
          let (g', f', o') = open_before id g f o in
          rw same (v.assigned id guest g' (sym (seats id guest) ∙ s) f' o');
    }

    pub end-IsAllocated :
        is_terminal (change row).status ≡ true
        → after.assignments ≡ delete_where (λ a. a.game_id == row.id) db.assignments
        → IsAllocated db
        → IsAllocated after
    unfolding find_assignment
    end-IsAllocated ends deleted v = record {
      stored = λ id guest s. stored_after id (v.stored id guest (sym (seats id guest) ∙ s));
      assigned = λ id guest g s f o.
          let (g', f', o') = open_before id g f o in
          let ne : id ≢ row.id = λ e. cc (changed_row, f, o, ends, e) in
          rw deleted (
            assigned-delete_where row.id id guest db.assignments ne
              (v.assigned id guest g' (sym (seats id guest) ∙ s) f' o'));
    }

-- Tables that differ elsewhere only.
pub IsAllocated-same :
    (db after : Database)
    → after.games ≡ db.games
    → ((id guest : Uuid) → is_seated id guest after.players ≡ is_seated id guest db.players)
    → after.assignments ≡ db.assignments
    → IsAllocated db
    → IsAllocated after
unfolding find_assignment
IsAllocated-same db after games seats same v = record {
  stored = λ id guest s. rw games (v.stored id guest (sym (seats id guest) ∙ s));
  assigned = λ id guest g s f o.
      rw same (v.assigned id guest g (sym (seats id guest) ∙ s) (rw games at f) o);
}
