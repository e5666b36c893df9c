-- ===== src/Services/Announcement.antt =====
-- How a move of game-move.service.ts meets the timers of game-deadline.service.ts.
use clu_chess.Base.{◌≡◌, refl, false, Option, none, some, Result, ok, err, arith}
use clu_chess.Base.Number.{ℤ}
use clu_chess.Chess.{ChessEngine}
use clu_chess.Store.Rows.{Uuid, EndedGame, MoveSubmission, Database}
use clu_chess.Lifecycle.Replay.{is_ok}
use clu_chess.Lifecycle.Resign.{Failure}
use clu_chess.Gameplay.Effect.{SubmitMove}
use clu_chess.Gameplay.Refusal.{submit_move_refused}
use clu_chess.Gameplay.Submit.{submit_move}
use clu_chess.Services.Armed.{IsArmed, cancel-IsArmed, schedule_game-IsArmed}
use clu_chess.Services.Deadlines.{Deadlines}
use clu_chess.Services.Moves.{submit, announce, reschedule}

reschedule-IsArmed :
    (id : Uuid) (ended : Option EndedGame) (s : Deadlines)
    → IsArmed s
    → IsArmed (reschedule id ended s)
reschedule-IsArmed id none s v = schedule_game-IsArmed id _ s v
reschedule-IsArmed id (some e) s v = cancel-IsArmed id s v

announce-IsArmed :
    (r : Result Failure MoveSubmission × Database) (s : Deadlines)
    → IsArmed s
    → IsArmed (announce r s).2
announce-IsArmed (err e, db) s v = v
announce-IsArmed (ok m, db) s v = reschedule-IsArmed m.accepted.game_id m.ended s v

submit-IsArmed :
    (chess : ChessEngine) (now : ℤ) (input : SubmitMove) (db : Database) (s : Deadlines)
    → IsArmed s
    → IsArmed (submit chess now input db s).2
unfolding submit
submit-IsArmed chess now input db s v = announce-IsArmed (submit_move chess now input db) s v

announce_refused :
    (r : Result Failure MoveSubmission × Database) (s : Deadlines)
    → is_ok (announce r s).0 ≡ false
    → (is_ok r.0 ≡ false) × ((announce r s).1 ≡ r.1) × ((announce r s).2 ≡ s)
announce_refused (err e, db) s h = (refl, refl, refl)
announce_refused (ok m, db) s h = ground arith

-- A move that the service refuses changes neither the tables nor the timers.
submit_refused :
    (chess : ChessEngine) (now : ℤ) (input : SubmitMove) (db : Database) (s : Deadlines)
    → is_ok (submit chess now input db s).0 ≡ false
    → ((submit chess now input db s).1 ≡ db) × ((submit chess now input db s).2 ≡ s)
unfolding submit
submit_refused chess now input db s h =
    let (refused, kept, same) = announce_refused (submit_move chess now input db) s h in
    (rw kept (submit_move_refused chess now input db refused), same)
