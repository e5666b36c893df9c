-- ===== src/Services/Timers.antt =====
-- The pending timeouts of game-deadline.service.ts.
use clu_chess.Base.{
  ℕ, ◌≡◌, refl, true, false, none, some, List, [], ◌∷◌, arith, Option-cases, inl, inr, Bool,
}
use clu_chess.Base.Number.{ℤ, pos}
use clu_chess.Store.Rows.{Uuid}
use clu_chess.Services.Armed.{
  IsArmed, cancel-IsArmed, schedule_game-IsArmed, resume-IsArmed, elapse-IsArmed,
}
use clu_chess.Services.Deadlines.{
  sweep_unless, begins_sweep, finds_due, sweeps, rebuilds, shuts_down, begin_sweep, found_due,
  sweep_first, sweep_next, rebuild, shutdown, Timeout, Deadlines, Step, schedules, resumes, cancels,
  elapses, concludes, conclude, step, run,
}

conclude-IsArmed :
    (interval_ms : ℤ) (id : Uuid) (ended : Bool) (s : Deadlines)
    → IsArmed s
    → IsArmed (conclude interval_ms id ended s)
unfolding conclude
conclude-IsArmed interval_ms id true s v = cancel-IsArmed id s v
conclude-IsArmed interval_ms id false s v = schedule_game-IsArmed id interval_ms s v

-- The fields of the sweep do not count.
sweep-IsArmed :
    (running_sweep : Bool) (due : List Uuid) (s : Deadlines)
    → IsArmed s
    → IsArmed (record s { running_sweep = running_sweep; due = due })
sweep-IsArmed running_sweep due s v = record {
  pending = v.pending;
  stored = v.stored;
  called = v.called;
  unarmed = v.unarmed;
}

begin_sweep-IsArmed : (s : Deadlines) → IsArmed s → IsArmed (begin_sweep s)
unfolding begin_sweep
begin_sweep-IsArmed s v = go s.running_sweep
  where
    go : (running : Bool) → IsArmed (sweep_unless running s)
    go true = v
    go false = sweep-IsArmed true s.due s v

sweep_next-IsArmed :
    (interval_ms : ℤ) (ended : Bool) (s : Deadlines)
    → IsArmed s
    → IsArmed (sweep_next interval_ms ended s)
unfolding sweep_next
sweep_next-IsArmed interval_ms ended s v = first s.due
  where
    first : (ids : List Uuid) → IsArmed (sweep_first interval_ms ids ended s)
    first [] = sweep-IsArmed false s.due s v
    first (id ∷ ids) =
        conclude-IsArmed interval_ms id ended _ (sweep-IsArmed s.running_sweep ids s v)

rebuild-IsArmed : (ids : List Uuid) (s : Deadlines) → IsArmed s → IsArmed (rebuild ids s)
unfolding rebuild
rebuild-IsArmed [] s v = v
rebuild-IsArmed (id ∷ ids) s v = rebuild-IsArmed ids _ (schedule_game-IsArmed id (pos 0) s v)

-- No timeout is left.
shutdown_lem : (s : Deadlines) (h : ℕ) → IsArmed s → (shutdown s).timeouts h ≡ none
unfolding shutdown
shutdown_lem s h v = elim (Option-cases (s.timeouts h)) [
  | inl e ↦ ground (arith, e)
  | inr (t, e) ↦ ground (arith, e, v.pending h t e)
]

shutdown-IsArmed : (s : Deadlines) → IsArmed s → IsArmed (shutdown s)
unfolding shutdown
shutdown-IsArmed s v = record {
  pending = λ h t f. ground (arith, shutdown_lem s h v, f);
  stored = λ id h f. ground (arith, f);
  called = v.called;
  unarmed = λ id d f. refl;
}

step-IsArmed :
    (interval_ms : ℤ) (one : Step) (s : Deadlines) → IsArmed s → IsArmed (step interval_ms one s)
unfolding step found_due
step-IsArmed interval_ms (schedules id d) s v = schedule_game-IsArmed id d s v
step-IsArmed interval_ms (resumes id g answer now) s v = resume-IsArmed id g answer now s v
step-IsArmed interval_ms (cancels id) s v = cancel-IsArmed id s v
step-IsArmed interval_ms (elapses h) s v = elapse-IsArmed h s v
step-IsArmed interval_ms (concludes id ended) s v = conclude-IsArmed interval_ms id ended s v
step-IsArmed interval_ms begins_sweep s v = begin_sweep-IsArmed s v
step-IsArmed interval_ms (finds_due none) s v = sweep-IsArmed false s.due s v
step-IsArmed interval_ms (finds_due (some ids)) s v = sweep-IsArmed s.running_sweep ids s v
step-IsArmed interval_ms (sweeps ended) s v = sweep_next-IsArmed interval_ms ended s v
step-IsArmed interval_ms (rebuilds ids) s v = rebuild-IsArmed ids s v
step-IsArmed interval_ms shuts_down s v = shutdown-IsArmed s v

pub run-IsArmed :
    (interval_ms : ℤ) (steps : List Step) (s : Deadlines)
    → IsArmed s
    → IsArmed (run interval_ms steps s)
unfolding run
run-IsArmed interval_ms [] s v = v
run-IsArmed interval_ms (one ∷ later) s v =
    run-IsArmed interval_ms later (step interval_ms one s) (step-IsArmed interval_ms one s v)

-- From a state where the map of timers and the pending timeouts agree, whatever sequence of
-- calls, answers, cancellations, elapsed timeouts, adjudications, sweeps, rebuilds and
-- shutdowns follows, in any order and with other calls between a call and its answer, two
-- pending timeouts of one game are the same one, it is the one in the map, and it has the
-- game's present generation.
pub run-one_timeout :
    (interval_ms : ℤ) (steps : List Step) (s : Deadlines)
    → IsArmed s
    → let after = run interval_ms steps s in
      (h h' : ℕ) (t t' : Timeout)
      → after.timeouts h ≡ some t
      → after.timeouts h' ≡ some t'
      → t.game_id ≡ t'.game_id
      → (h ≡ h') × (after.timers t.game_id ≡ some h) × (t.generation ≡ after.generations t.game_id)
run-one_timeout interval_ms steps s v h h' t t' f f' e =
    let armed = run-IsArmed interval_ms steps s v in
    ground (arith, armed.pending h t f, armed.pending h' t' f', e)
