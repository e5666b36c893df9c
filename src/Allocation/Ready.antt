-- ===== src/Allocation/Ready.antt =====
-- `markReady` of prisma-game.repository.ts, and `updateGameAtVersion` of transaction.service.ts.
use clu_chess.Base.{
  ℕ, ◌+◌, ◌==◌, Bool, true, false, not, ◌&&◌, ◌||◌, Option, none, some, length, Result, ok, err,
}
use clu_chess.Base.Number.{ℤ}
use clu_chess.Game.{
  GameStatus, waiting_for_players, ready, in_progress, reconnecting, eq_status, game_not_found,
  game_unavailable, not_a_player, stale_game_version,
}
use clu_chess.Store.Rows.{Uuid, GameRow, PlayerRow, Database}
use clu_chess.Store.Tables.{find, filter}
use clu_chess.Store.Tx.{
  Body, DatabaseErrorKind, ◌>>=◌, ◌>>◌, return, return_if, or_return, gets, modify, run_transaction,
  next, bind,
}
use clu_chess.Lifecycle.Connection.{update_player}
use clu_chess.Lifecycle.Ending.{is_set}
use clu_chess.Lifecycle.Finalize.{update_game_row}
use clu_chess.Lifecycle.Resign.{Failure, service, database}
use clu_chess.Allocation.Allocate.{mapped}
use clu_chess.Allocation.Records.{
  MarkGameReady, PersistedAllocation, GameAllocation, find_allocation, map_allocation, refusal,
}

-- `ReadyTransactionResult`.
pub data ReadyResult : Type 0 where
  set_ready : PersistedAllocation → ReadyResult
  missing not_player unavailable : ReadyResult
  stale : ℕ → ReadyResult

-- `updateGameAtVersion`, where a count of 1 gives the next version.
abbrev pub next_version : ℕ → Bool → Option ℕ
next_version version true = some (version + 1)
next_version version false = none

unfoldable pub update_game_at_version :
    {R : Type 0} → Uuid → ℕ → (GameRow → GameRow) → Body R (Option ℕ)
update_game_at_version id version change = do
  count ← update_game_row id version (λ g. record (change g) { version = g.version + 1 })
  gets (λ _. next_version version (count == 1))

-- `['READY', 'IN_PROGRESS', 'RECONNECTING'].includes(status)`.
abbrev pub is_joined_status : GameStatus → Bool
is_joined_status status =
    eq_status status ready || (eq_status status in_progress || eq_status status reconnecting)

abbrev pub or_else : Option ℤ → ℤ → ℤ
or_else none later = later
or_else (some t) later = t

unfoldable pub joining : ℤ → PlayerRow → PlayerRow → PlayerRow
joining now player p = record p {
  connected_at = some now;
  joined_at = some (or_else player.joined_at now);
}

unfoldable pub count_joined : Uuid → Database → ℕ
count_joined id db = length (filter (λ p. (p.game_id == id) && is_set p.joined_at) db.players)

abbrev pub ready_row : GameRow → GameRow
ready_row g = record g { status = ready }

-- The update to READY, once both players have joined.
abbrev pub set_ready_if : Bool → GameRow → Body ReadyResult (Unit {0})
set_ready_if false g db = next tt db
set_ready_if true g db =
    bind (update_game_at_version g.id g.version ready_row db)
      (λ version. or_return version (stale g.version) >>= λ _ db'. next tt db')

unfoldable pub ready_in_transaction : MarkGameReady → Body ReadyResult ReadyResult
ready_in_transaction input = do
  found ← find_allocation input.game_id
  game ← or_return found missing
  member ←
      or_return (find (λ s. s.player.guest_session_id == input.guest_session_id) game.players)
        not_player
  let player = member.player
  let status = game.game.status
  let idempotent = is_set player.joined_at && is_joined_status status
  return_if (not (input.expected_version == game.game.version) && not idempotent)
      (stale game.game.version)
  return_if (not (eq_status status waiting_for_players || is_joined_status status)) unavailable
  modify (update_player player.id (joining input.observed_at player))
  joined ← gets (count_joined input.game_id)
  set_ready_if (eq_status status waiting_for_players && (joined == 2)) game.game
  again ← find_allocation input.game_id
  after ← or_return again missing
  return (set_ready after)

abbrev pub answer : ReadyResult → Result Failure GameAllocation
answer (set_ready a) = mapped (map_allocation a)
answer missing = err (service (refusal game_not_found false none))
answer not_player = err (service (refusal not_a_player false none))
answer (stale version) = err (service (refusal stale_game_version true (some version)))
answer unavailable = err (service (refusal game_unavailable false none))

abbrev pub conclude :
    Result DatabaseErrorKind ReadyResult × Database → Result Failure GameAllocation × Database
conclude (ok r, db) = (answer r, db)
conclude (err e, db) = (err (database e), db)

unfoldable pub mark_ready : MarkGameReady → Database → Result Failure GameAllocation × Database
mark_ready input db = conclude (run_transaction (ready_in_transaction input) db)
