-- ===== src/Services/Moves.antt =====
-- game-move.service.ts of src/modules/game: the transaction of a move, its errors, and what it tells
-- the deadline service. The spans, the metrics and the state of the game in Redis are left out.
use clu_chess.Base.{true, Option, none, some, Result, ok, err}
use clu_chess.Base.Number.{ℤ, pos}
use clu_chess.Game.{dependency_unavailable}
use clu_chess.Chess.{ChessEngine}
use clu_chess.Store.Rows.{Uuid, EndedGame, MoveSubmission, Database}
use clu_chess.Lifecycle.Resign.{Failure, ServiceError, service, database}
use clu_chess.Gameplay.Effect.{SubmitMove}
use clu_chess.Gameplay.Submit.{submit_move}
use clu_chess.Allocation.Records.{refusal}
use clu_chess.Services.Deadlines.{Deadlines, schedule_game, cancel}

-- The error that the caller sees.
unfoldable pub service_error : Failure → ServiceError
service_error (service e) = e
service_error (database _) = refusal dependency_unavailable true none

abbrev pub reschedule : Uuid → Option EndedGame → Deadlines → Deadlines
reschedule id none s = schedule_game id (pos 0) s
reschedule id (some _) s = cancel id s

abbrev pub Submitted : Type 0
Submitted = Result ServiceError MoveSubmission × Database × Deadlines

abbrev pub announce : Result Failure MoveSubmission × Database → Deadlines → Submitted
announce (err e, db) s = (err (service_error e), db, s)
announce (ok m, db) s = (ok m, db, reschedule m.accepted.game_id m.ended s)

-- `submit`, up to the wait of scheduleGame.
unfoldable pub submit : ChessEngine → ℤ → SubmitMove → Database → Deadlines → Submitted
submit chess now input db s = announce (submit_move chess now input db) s
