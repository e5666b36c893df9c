-- ===== src/Services/Adjudication.antt =====
-- `adjudicateGame` of game-lifecycle.service.ts, and `findGraceState` of
-- prisma-game-lifecycle.repository.ts. The presence of the guests is asked in Redis; a failure of
-- it ends the call. What follows an ending tells Redis and the sockets, and changes nothing here.
use clu_chess.Base.{
  ◌==◌, Bool, not, Option, none, some, List, [], ◌∷◌, map, any, Result, ok, err, if◌then◌else◌,
}
use clu_chess.Base.Number.{ℤ}
use clu_chess.Game.{reconnecting, eq_status}
use clu_chess.Store.Loading.{load_game, guest_tuple}
use clu_chess.Store.Rows.{Uuid, PlayerRow, TerminalSubmission, Database}
use clu_chess.Store.Tables.{filter}
use clu_chess.Store.Tx.{
  Body, DatabaseErrorKind, ◌>>=◌, ◌>>◌, return, return_if, or_return, gets, run_transaction,
}
use clu_chess.Lifecycle.Ending.{
  adjudicate_no_show, adjudicate_timeout, adjudicate_abandonment, includes, not_due,
}

pub record GraceState : Type 0 where
  pub due_guest_session_ids : List Uuid
  pub guest_session_ids : Uuid × Uuid

abbrev pub due_guests : ℤ → List PlayerRow → List Uuid
due_guests now ps =
    map (λ p. p.guest_session_id) (filter (λ p. not (not_due now p.reconnect_grace_ends_at)) ps)

abbrev pub grace_of : List Uuid → Uuid × Uuid → Option GraceState
grace_of [] guests = none
grace_of due guests = some (record { due_guest_session_ids = due; guest_session_ids = guests })

unfoldable pub grace_in_transaction : ℤ → Uuid → Body (Option GraceState) (Option GraceState)
grace_in_transaction now game_id = do
  loaded ← gets (load_game game_id)
  game ← or_return loaded none
  return_if (not (eq_status game.game.status reconnecting)) none
  guests ← guest_tuple game.players
  return (grace_of (due_guests now game.players) guests)

-- `guestTuple` throws after the transaction in the code; its error counts as one of the transaction.
unfoldable pub find_grace_state : ℤ → Uuid → Database → Result DatabaseErrorKind (Option GraceState)
find_grace_state now game_id db = (run_transaction (grace_in_transaction now game_id) db).0

-- The guests who are not present; none where Redis fails.
abbrev pub absent_of : (Uuid → Option Bool) → Uuid × Uuid → Option (List Uuid)
absent_of present (p, q) = absent (present p) (present q)
  where
    absent : Option Bool → Option Bool → Option (List Uuid)
    absent (some here_p) (some here_q) =
        some (filter (λ g. if g == p then not here_p else not here_q) (p ∷ q ∷ []))
    absent _ _ = none

abbrev pub Adjudicated : Type 0
Adjudicated = Result DatabaseErrorKind (Option TerminalSubmission) × Database

-- The last of the three adjudications.
abbrev pub abandon_absent : ℤ → Uuid → GraceState → Option (List Uuid) → Database → Adjudicated
abandon_absent now game_id grace none db = (ok none, db)
abandon_absent now game_id grace (some absent) db =
    if any (includes absent) grace.due_guest_session_ids
    then adjudicate_abandonment now game_id absent db
    else (ok none, db)

abbrev pub after_grace :
    ℤ
    → Uuid
    → (Uuid → Option Bool)
    → Database
    → Result DatabaseErrorKind (Option GraceState)
    → Adjudicated
after_grace now game_id present db (err e) = (err e, db)
after_grace now game_id present db (ok none) = (ok none, db)
after_grace now game_id present db (ok (some grace)) =
    abandon_absent now game_id grace (absent_of present grace.guest_session_ids) db

-- A submission, or an error, ends the call.
abbrev pub unless_ended : Adjudicated → (Database → Adjudicated) → Adjudicated
unless_ended (ok none, db) rest = rest db
unless_ended (ok (some s), db) rest = (ok (some s), db)
unless_ended (err e, db) rest = (err e, db)

-- The times are those that the four statements observe.
unfoldable pub adjudicate_game :
    ℤ → ℤ → ℤ → ℤ → (Uuid → Option Bool) → Uuid → Database → Adjudicated
adjudicate_game t1 t2 t3 t4 present game_id db =
    unless_ended (adjudicate_no_show t1 game_id db) (λ db1.
      unless_ended (adjudicate_timeout t2 game_id db1)
        (λ db2. after_grace t4 game_id present db2 (find_grace_state t3 game_id db2)))
