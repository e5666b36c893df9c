-- ===== src/Allocation/Start.antt =====
-- `startIfReady` of prisma-game.repository.ts.
use clu_chess.Base.{ℕ, Bool, true, false, none, some, Result, ok, err}
use clu_chess.Base.Number.{ℤ}
use clu_chess.Game.{ready, in_progress, eq_status, game_not_found, stale_game_version}
use clu_chess.Store.Loading.{lock_game_clock}
use clu_chess.Store.LockedClock.{LockedGameClock}
use clu_chess.Store.Rows.{Uuid, GameRow, Database}
use clu_chess.Store.Tx.{
  Body, DatabaseErrorKind, ◌>>=◌, ◌>>◌, return, or_return, gets, run_transaction, next, bind,
}
use clu_chess.Lifecycle.Resign.{Failure, ServiceError, service, database}
use clu_chess.Allocation.Ready.{update_game_at_version}
use clu_chess.Allocation.Records.{
  PersistedAllocation, GameAllocation, find_allocation, map_allocation, refusal,
}

pub record StartGameResult : Type 0 where
  pub allocation : GameAllocation
  pub started : Bool

-- `StartTransactionResult`.
pub data StartResult : Type 0 where
  found : PersistedAllocation → Bool → StartResult
  missing : StartResult
  stale : ℕ → StartResult

abbrev pub started_row : ℤ → GameRow → GameRow
started_row now g = record g {
  started_at = some now;
  status = in_progress;
  turn_started_at = some now;
}

-- The update of a game that is READY.
abbrev pub start_row_if : Bool → Uuid → LockedGameClock → Body StartResult (Unit {0})
start_row_if false id locked db = next tt db
start_row_if true id locked db =
    bind (update_game_at_version id locked.version (started_row locked.observed_at) db)
      (λ version. or_return version (stale locked.version) >>= λ _ db'. next tt db')

unfoldable pub start_in_transaction : ℤ → Uuid → Body StartResult StartResult
start_in_transaction now id = do
  row ← gets (lock_game_clock now id)
  locked ← or_return row missing
  start_row_if (eq_status locked.status ready) id locked
  read ← find_allocation id
  allocation ← or_return read missing
  return (found allocation (eq_status locked.status ready))

abbrev pub started_result :
    Bool → Result ServiceError GameAllocation → Result Failure StartGameResult
started_result started (ok a) = ok (record { allocation = a; started = started })
started_result started (err e) = err (service e)

abbrev pub answer : StartResult → Result Failure StartGameResult
answer (found a started) = started_result started (map_allocation a)
answer missing = err (service (refusal game_not_found false none))
answer (stale version) = err (service (refusal stale_game_version true (some version)))

abbrev pub conclude :
    Result DatabaseErrorKind StartResult × Database → Result Failure StartGameResult × Database
conclude (ok r, db) = (answer r, db)
conclude (err e, db) = (err (database e), db)

unfoldable pub start_if_ready : ℤ → Uuid → Database → Result Failure StartGameResult × Database
start_if_ready now id db = conclude (run_transaction (start_in_transaction now id) db)
