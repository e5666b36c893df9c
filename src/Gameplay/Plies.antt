-- ===== src/Gameplay/Plies.antt =====
-- The history of a game stays contiguous (`hasContiguousHistory` and `move.create` of
-- prisma-gameplay.repository.ts).
use clu_chess.Base.{
  ℕ, suc, ◌+◌, ◌==◌, ◌≡◌, refl, sym, Bool, true, ◌&&◌, List, [], ◌∷◌, ◌++◌, map, all, length, leb,
  ok, arith, ◌∙◌, ap,
}
use clu_chess.Base.Number.{ℤ}
use clu_chess.Chess.{ChessEngine, EvaluateMoveInput, MoveEvaluation}
use clu_chess.Store.Rows.{Uuid, MoveRow, Database}
use clu_chess.Store.Tables.{filter}
use clu_chess.Lifecycle.Settlement.{load_game_row}
use clu_chess.Gameplay.Acceptance.{Attempt, IsPlayable, moved_tables}
use clu_chess.Gameplay.Effect.{SubmitMove, question, played_move}
use clu_chess.Gameplay.History.{
  moves_of, has_contiguous_history, contiguous_from, sort_plies, insert_ply,
}

-- An engine numbers the ply that it evaluates after the history.
unfoldable pub NumbersPlies : ChessEngine → Type 0
NumbersPlies chess =
    (q : EvaluateMoveInput) (e : MoveEvaluation)
    → chess.evaluate_move q ≡ ok e
    → e.applied.ply_number ≡ length q.history + 1

abbrev up_to : ℕ → MoveRow → Bool
up_to n m = leb m.ply n

filter-append {ℓ} :
    {A : Type ℓ} (p : A → Bool) (xs ys : List A) → filter p (xs ++ ys) ≡ filter p xs ++ filter p ys
filter-append p [] ys = refl
filter-append p (x ∷ xs) ys = ground (arith, filter-append p xs ys)

all-insert_ply :
    (n : ℕ) (m : MoveRow) (xs : List MoveRow)
    → all (up_to n) (insert_ply m xs) ≡ (up_to n m && all (up_to n) xs)
all-insert_ply n m [] = refl
all-insert_ply n m (x ∷ xs) = ground (arith, all-insert_ply n m xs)

all-sort_plies : (n : ℕ) (xs : List MoveRow) → all (up_to n) (sort_plies xs) ≡ all (up_to n) xs
all-sort_plies n [] = refl
all-sort_plies n (x ∷ xs) = ground (arith, all-insert_ply n x (sort_plies xs), all-sort_plies n xs)

insert_ply-append :
    (m x : MoveRow) (xs : List MoveRow)
    → up_to m.ply x ≡ true
    → insert_ply x (xs ++ m ∷ []) ≡ insert_ply x xs ++ m ∷ []
insert_ply-append m x [] h = ground arith
insert_ply-append m x (y ∷ ys) h = ground (arith, insert_ply-append m x ys h)

sort_plies-append :
    (m : MoveRow) (xs : List MoveRow)
    → all (up_to m.ply) xs ≡ true
    → sort_plies (xs ++ m ∷ []) ≡ sort_plies xs ++ m ∷ []
sort_plies-append m [] h = refl
sort_plies-append m (x ∷ xs) h =
    ground (arith, sort_plies-append m xs, insert_ply-append m x (sort_plies xs))

contiguous_bound :
    (i n : ℕ) (xs : List MoveRow)
    → contiguous_from i xs ≡ true
    → (i + length xs) ≡ n
    → all (up_to n) xs ≡ true
contiguous_bound i n [] h e = refl
contiguous_bound i n (x ∷ xs) h e = ground (arith, contiguous_bound (suc i) n xs)

contiguous_from-append :
    (i : ℕ) (m : MoveRow) (xs : List MoveRow)
    → contiguous_from i xs ≡ true
    → m.ply ≡ i + length xs + 1
    → contiguous_from i (xs ++ m ∷ []) ≡ true
contiguous_from-append i m [] h e = ground arith
contiguous_from-append i m (x ∷ xs) h e = ground (arith, contiguous_from-append (suc i) m xs)

leb_weaken :
    (n k : ℕ) (xs : List MoveRow) → all (up_to n) xs ≡ true → n + 1 ≡ k → all (up_to k) xs ≡ true
leb_weaken n k [] h e = refl
leb_weaken n k (x ∷ xs) h e = ground (arith, leb_weaken n k xs)

length-map {ℓ κ} :
    {A : Type ℓ} {B : Type κ} (f : A → B) (xs : List A) → length (map f xs) ≡ length xs
length-map f [] = refl
length-map f (x ∷ xs) = omega (arith, length-map f xs)

-- A new row with the next ply stands last, and the history with it is contiguous.
moves_of-append :
    (id : Uuid) (m : MoveRow) (ms : List MoveRow)
    → m.game_id ≡ id
    → has_contiguous_history (moves_of id ms) ≡ true
    → m.ply ≡ length (moves_of id ms) + 1
    → (moves_of id (ms ++ m ∷ []) ≡ moves_of id ms ++ m ∷ [])
      × (has_contiguous_history (moves_of id (ms ++ m ∷ [])) ≡ true)
unfolding moves_of has_contiguous_history
moves_of-append id m ms here h ply =
    let own = filter (λ x. x.game_id == id) ms in
    let n = length (sort_plies own) in
    let bound = contiguous_bound 0 n (sort_plies own) h (omega arith) in
    let sorted : sort_plies (own ++ m ∷ []) ≡ sort_plies own ++ m ∷ [] =
      sort_plies-append m own
        (leb_weaken n m.ply own (sym (all-sort_plies n own) ∙ bound) (sym ply)) in
    let last : moves_of id (ms ++ m ∷ []) ≡ moves_of id ms ++ m ∷ [] =
      ground (arith, filter-append (λ x. x.game_id == id) ms (m ∷ []), sorted) in
    (last, rw last (contiguous_from-append 0 m (sort_plies own) h (omega (arith, ply))))

moved_moves :
    (now : ℤ) (input : SubmitMove) (a : Attempt) (db : Database)
    → (moved_tables now input a db).moves
      ≡ db.moves ++ played_move input a.player.color a.evaluation now ∷ []
unfolding moved_tables
moved_moves now input a db = ground arith

-- With an engine that numbers the evaluated ply by the length of the history and one, a
-- playable move is appended to the game's moves in the order of the plies, and the history
-- stays contiguous, so that the next move passes the test of the history.
pub moved_tables-has_contiguous_history :
    (chess : ChessEngine) (now : ℤ) (input : SubmitMove) (db : Database) (a : Attempt)
    → NumbersPlies chess
    → IsPlayable chess now input db a
    → let before = moves_of a.game.game.id db.moves in
      let after = moves_of a.game.game.id (moved_tables now input a db).moves in
      (after ≡ before ++ played_move input a.player.color a.evaluation now ∷ [])
      × (has_contiguous_history after ≡ true)
unfolding NumbersPlies
moved_tables-has_contiguous_history chess now input db a law h =
    let g = a.game.game in
    let m = played_move input a.player.color a.evaluation now in
    let history = moves_of g.id db.moves in
    let next : m.ply ≡ length history + 1 =
      unfold played_move question in
      law (question input g history) a.evaluation h.legal
      ∙ ap (λ n. n + 1) (length-map _ history) in
    rw (moved_moves now input a db) (
      moves_of-append g.id m db.moves
        (unfold played_move in sym (load_game_row input.game_id db a.game h.loaded).1) h.history
        next)
