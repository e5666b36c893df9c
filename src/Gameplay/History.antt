-- ===== src/Gameplay/History.antt =====
-- A game's moves: `moves: { orderBy: { ply: 'asc' } }` and `hasContiguousHistory` of
-- prisma-gameplay.repository.ts, and the table they stand in.
use clu_chess.Base.{
  ℕ, suc, ◌+◌, ◌==◌, Bool, true, ◌&&◌, ◌||◌, List, [], ◌∷◌, ◌++◌, any, ltb, if◌then◌else◌,
}
use clu_chess.Store.Rows.{Uuid, MoveRow}
use clu_chess.Store.Tables.{filter}
use clu_chess.Store.Tx.{Body, next, thrown, unique, constraint}

-- The order of the plies; equal plies keep their order.
abbrev pub insert_ply : MoveRow → List MoveRow → List MoveRow
insert_ply m [] = m ∷ []
insert_ply m (x ∷ xs) =
    let rest = insert_ply m xs in if ltb x.ply m.ply then x ∷ rest else m ∷ x ∷ xs

abbrev pub sort_plies : List MoveRow → List MoveRow
sort_plies [] = []
sort_plies (m ∷ ms) = insert_ply m (sort_plies ms)

unfoldable pub moves_of : Uuid → List MoveRow → List MoveRow
moves_of id ms = sort_plies (filter (λ m. m.game_id == id) ms)

-- `every((move, index) => move.ply === index + 1)`, from an index on.
abbrev pub contiguous_from : ℕ → List MoveRow → Bool
contiguous_from index [] = true
contiguous_from index (m ∷ ms) = (m.ply == index + 1) && contiguous_from (suc index) ms

unfoldable pub has_contiguous_history : List MoveRow → Bool
has_contiguous_history = contiguous_from 0

-- Whether a row meets one of the two unique keys: game and ply, game and client move.
abbrev pub same_move : MoveRow → MoveRow → Bool
same_move m x =
    (x.game_id == m.game_id) && ((x.ply == m.ply) || (x.client_move_id == m.client_move_id))

-- `move.create`, with the constraint `moves_ply_check` of the migration.
unfoldable pub create_move : {R : Type 0} → MoveRow → Body R (Unit {0})
create_move m db =
    if m.ply == 0
    then thrown constraint
    else if any (same_move m) db.moves
    then thrown unique
    else next tt (record db { moves = db.moves ++ m ∷ [] })
