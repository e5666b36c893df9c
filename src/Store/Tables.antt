-- ===== src/Store/Tables.antt =====
-- Tables as lists of rows: what `findUnique`, `updateMany` and `deleteMany` do to them. A game's id
-- is the primary key, so a query by it meets the first row that has it.
use clu_chess.Base.{
  true, ◌++◌, ℕ, ◌≡◌, ◌≢◌, refl, Bool, false, not, Option, none, some, List, [], ◌∷◌, ◌==◌, any,
  if◌then◌else◌, arith,
}
use clu_chess.Store.Rows.{Uuid, GameRow}

module _ {ℓ} {A : Type ℓ} where
  -- The first row that passes the test.
  abbrev pub find : (A → Bool) → List A → Option A
  find p [] = none
  find p (x ∷ xs) = if p x then some x else find p xs

  -- The rows that pass the test.
  abbrev pub filter : (A → Bool) → List A → List A
  filter p [] = []
  filter p (x ∷ xs) = let rest = filter p xs in if p x then x ∷ rest else rest

  -- `updateMany`: the rows that pass the test are changed.
  abbrev pub update_where : (A → Bool) → (A → A) → List A → List A
  update_where p f [] = []
  update_where p f (x ∷ xs) = (if p x then f x else x) ∷ update_where p f xs

  -- `deleteMany`.
  abbrev pub delete_where : (A → Bool) → List A → List A
  delete_where p = filter (λ x. not (p x))

  pub any-delete_where : (p : A → Bool) (xs : List A) → any p (delete_where p xs) ≡ false
  any-delete_where p [] = refl
  any-delete_where p (x ∷ xs) = ground (arith, any-delete_where p xs)

pub filter-++ {ℓ} :
    {A : Type ℓ} (p : A → Bool) (xs ys : List A) → filter p (xs ++ ys) ≡ filter p xs ++ filter p ys
filter-++ p [] ys = refl
filter-++ p (x ∷ xs) ys = ground (arith, filter-++ p xs ys)

pub find-append_new {ℓ} :
    {A : Type ℓ} (p : A → Bool) (xs : List A) (x : A)
    → find p xs ≡ none
    → p x ≡ true
    → find p (xs ++ x ∷ []) ≡ some x
find-append_new p [] x h k = rw k
find-append_new p (y ∷ ys) x h k = ground (arith, find-append_new p ys x)

pub find-append {ℓ} :
    {A : Type ℓ} (p : A → Bool) (xs ys : List A)
    → find p (xs ++ ys) ≡ elim (find p xs) [ none ↦ find p ys | some x ↦ some x ]
find-append p [] ys = refl
find-append p (x ∷ xs) ys = ground (arith, find-append p xs ys)

unfoldable pub find_game : Uuid → List GameRow → Option GameRow
find_game id = find (λ g. g.id == id)

-- An update by id and version, with the number of rows that it has changed; the row keeps its id.
unfoldable pub update_game : Uuid → ℕ → (GameRow → GameRow) → List GameRow → ℕ × List GameRow
update_game id version f [] = (0, [])
update_game id version f (g ∷ gs) =
    let (n, rest) = update_game id version f gs in
    if g.id == id
    then (if g.version == version then (1, f g ∷ gs) else (0, g ∷ gs))
    else (n, g ∷ rest)

-- A game whose row has been read at its version is updated, and no other one is.
pub update_game_hit :
    (id : Uuid) (f : GameRow → GameRow) (g : GameRow) (gs : List GameRow)
    → find_game id gs ≡ some g
    → (f g).id ≡ g.id
    → ((update_game id g.version f gs).0 ≡ 1)
      × (find_game id (update_game id g.version f gs).1 ≡ some (f g))
unfolding find_game update_game
update_game_hit id f g [] h k = cc
update_game_hit id f g (x ∷ gs) h k = ground (arith, update_game_hit id f g gs)

pub update_game_other :
    (id other : Uuid) (version : ℕ) (f : GameRow → GameRow) (gs : List GameRow)
    → id ≢ other
    → ((g : GameRow) → (f g).id ≡ g.id)
    → find_game other (update_game id version f gs).1 ≡ find_game other gs
unfolding find_game update_game
update_game_other id other version f [] h k = refl
update_game_other id other version f (x ∷ gs) h k =
    ground (arith, k x, update_game_other id other version f gs h k)

pub find_game-id :
    (id : Uuid) (gs : List GameRow) (g : GameRow) → find_game id gs ≡ some g → g.id ≡ id
unfolding find_game
find_game-id id [] g h = cc
find_game-id id (x ∷ gs) g h = ground (arith, find_game-id id gs g)
