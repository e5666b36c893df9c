-- ===== src/Services/Absentees.antt =====
-- Whom `adjudicateGame` of game-lifecycle.service.ts names as absent, and whose grace it asks for.
use clu_chess.Base.{
  ◌==◌, ◌≡◌, ◌≢◌, refl, ◌∙◌, Bool, true, false, not, Option, none, some, List, [], ◌∷◌, any, ok,
  arith, if◌then◌else◌,
}
use clu_chess.Base.Number.{ℤ}
use clu_chess.Game.{reconnecting, eq_status}
use clu_chess.Store.Loading.{PersistedGame, load_game, guest_tuple}
use clu_chess.Store.Rows.{Uuid, PlayerRow, Database}
use clu_chess.Lifecycle.Ending.{includes}
use clu_chess.Lifecycle.Verdicts.{has_come, due-has_come}
use clu_chess.Services.Adjudication.{
  GraceState, absent_of, find_grace_state, grace_in_transaction, due_guests, grace_of,
}

-- The guests that an abandonment names: of the two guests of the game, exactly those whose presence is
-- known and who are not present, and one of them is due.
pub record IsAbsentees (present : Uuid → Option Bool) (grace : GraceState) (absent : List Uuid)
    : Type 0 where
  pub asked :
      (present grace.guest_session_ids.0 ≢ none) × (present grace.guest_session_ids.1 ≢ none)
  pub of_first :
      any (λ id. id == grace.guest_session_ids.0) absent
      ≡ elim (present grace.guest_session_ids.0) [ none ↦ false | some here ↦ not here ]
  pub of_second :
      any (λ id. id == grace.guest_session_ids.1) absent
      ≡ elim (present grace.guest_session_ids.1) [ none ↦ false | some here ↦ not here ]
  pub of_others :
      (id : Uuid)
      → id ≢ grace.guest_session_ids.0
      → id ≢ grace.guest_session_ids.1
      → any (λ other. other == id) absent ≡ false
  pub overdue : any (λ due. any (λ id. id == due) absent) grace.due_guest_session_ids ≡ true

pub absentees :
    (present : Uuid → Option Bool) (grace : GraceState) (absent : List Uuid)
    → absent_of present grace.guest_session_ids ≡ some absent
    → any (includes absent) grace.due_guest_session_ids ≡ true
    → IsAbsentees present grace absent
absentees present grace absent e due =
    let (p, q) = grace.guest_session_ids in go (present p) (present q) refl refl
  where
    go :
        (here_p here_q : Option Bool)
        → present grace.guest_session_ids.0 ≡ here_p
        → present grace.guest_session_ids.1 ≡ here_q
        → IsAbsentees present grace absent
    go none here_q f g = ground (arith, e, f)
    go (some here_p) none f g = ground (arith, e, f, g)
    go (some here_p) (some here_q) f g = record {
      asked = ground (arith, f, g);
      of_first = ground (arith, e, f, g);
      of_second = ground (arith, e, f, g);
      of_others = λ id x y. ground (arith, e, f, g, x, y);
      overdue = due;
    }

-- The grace state of a game: its two guests, and those of them whose grace is over.
pub record IsGrace (now : ℤ) (id : Uuid) (db : Database) (grace : GraceState) : Type 0 where
  pub game : PersistedGame
  pub p : PlayerRow
  pub q : PlayerRow
  pub loaded : load_game id db ≡ some game
  pub status : game.game.status ≡ reconnecting
  pub players : game.players ≡ p ∷ q ∷ []
  pub guests : grace.guest_session_ids ≡ (p.guest_session_id, q.guest_session_id)
  pub due :
      let second : List Uuid =
        if has_come now q.reconnect_grace_ends_at then q.guest_session_id ∷ [] else [] in
      grace.due_guest_session_ids
      ≡ (if has_come now p.reconnect_grace_ends_at then p.guest_session_id ∷ second else second)

due_guests_lem :
    (now : ℤ) (p q : PlayerRow)
    → let second : List Uuid =
        if has_come now q.reconnect_grace_ends_at then q.guest_session_id ∷ [] else [] in
      due_guests now (p ∷ q ∷ [])
      ≡ (if has_come now p.reconnect_grace_ends_at then p.guest_session_id ∷ second else second)
due_guests_lem now p q =
    ground (
      arith,
      due-has_come now p.reconnect_grace_ends_at,
      due-has_come now q.reconnect_grace_ends_at,
    )

grace_guests :
    (due : List Uuid) (guests : Uuid × Uuid) (grace : GraceState)
    → grace_of due guests ≡ some grace
    → (grace.guest_session_ids ≡ guests) × (grace.due_guest_session_ids ≡ due)
grace_guests [] guests grace h = ground arith
grace_guests (d ∷ due) guests grace h = ground arith

pub find_grace_state-IsGrace :
    (now : ℤ) (id : Uuid) (db : Database) (grace : GraceState)
    → find_grace_state now id db ≡ ok (some grace)
    → IsGrace now id db grace
unfolding find_grace_state grace_in_transaction guest_tuple eq_status
find_grace_state-IsGrace now id db grace h = go (load_game id db) refl
  where
    seats :
        (game : PersistedGame) (ps : List PlayerRow)
        → load_game id db ≡ some game
        → game.players ≡ ps
        → IsGrace now id db grace
    seats game [] f e = ground (arith, h, f, e)
    seats game (p ∷ []) f e = ground (arith, h, f, e)
    seats game (p ∷ q ∷ r ∷ ps) f e = ground (arith, h, f, e)
    seats game (p ∷ q ∷ []) f e =
        let live : game.game.status ≡ reconnecting = ground (arith, h, f, e) in
        let found : grace_of (due_guests now (p ∷ q ∷ [])) (p.guest_session_id, q.guest_session_id)
            ≡ some grace =
          ground (arith, h, f, e, live) in
        let (guests, due) = grace_guests _ _ grace found in
        record {
          game = game;
          p = p;
          q = q;
          loaded = f;
          status = live;
          players = e;
          guests = guests;
          due = due ∙ due_guests_lem now p q;
        }

    go : (o : Option PersistedGame) → load_game id db ≡ o → IsGrace now id db grace
    go none f = ground (arith, h, f)
    go (some game) f = seats game game.players f refl
