-- ===== src/Services/Deadlines.antt =====
-- game-deadline.service.ts of src/modules/game, between two turns of the event loop. A call of
-- scheduleGame waits for findDeadline after it has taken its generation, and goes on in a later
-- step; so does a timer's call of adjudicateGame. The answers are arguments of those steps.
use clu_chess.Base.{
  ℕ, suc, ◌+◌, ◌==◌, Bool, true, false, Option, none, some, List, [], ◌∷◌, if◌then◌else◌,
}
use clu_chess.Base.Number.{ℤ, pos, ◌-ℤ◌, leb_ℤ, max_ℤ}
use clu_chess.Store.Rows.{Uuid}
use clu_chess.Matchmaking.Redis.{put}

-- A pending `setTimeout`, with the arguments of its `fire`.
pub record Timeout : Type 0 where
  pub delay : ℤ
  pub game_id : Uuid
  pub generation : ℕ

-- The maps of the service, the calls of scheduleGame that wait, with their minimum delay, by game
-- and generation, the runtime's pending timeouts by handle, and the games that a sweep has to come
-- to. A generation that is missing is 0.
pub record Deadlines : Type 0 where
  pub generations : Uuid → ℕ
  pub timers : Uuid → Option ℕ
  pub waiting : Uuid → ℕ → Option ℤ
  pub timeouts : ℕ → Option Timeout
  pub next_handle : ℕ
  pub running_sweep : Bool
  pub due : List Uuid

abbrev pub drop_timer : Uuid → Option ℕ → Deadlines → Deadlines
drop_timer id none s = s
drop_timer id (some handle) s = record s {
  timers = put id none s.timers;
  timeouts = put handle none s.timeouts;
}

unfoldable pub clear_timer : Uuid → Deadlines → Deadlines
clear_timer id s = drop_timer id (s.timers id) s

abbrev pub bump_generation : Uuid → Deadlines → Deadlines
bump_generation id s = record s { generations = put id (s.generations id + 1) s.generations }

unfoldable pub cancel : Uuid → Deadlines → Deadlines
cancel id s = clear_timer id (bump_generation id s)

abbrev pub put_waiting : Uuid → ℕ → Option ℤ → Deadlines → Deadlines
put_waiting id generation call s = record s {
  waiting = put id (put generation call (s.waiting id)) s.waiting;
}

-- `scheduleGame` up to the call of findDeadline.
unfoldable pub schedule_game : Uuid → ℤ → Deadlines → Deadlines
schedule_game id minimum_delay s =
    put_waiting id (s.generations id + 1) (some minimum_delay)
      (clear_timer id (bump_generation id s))

abbrev pub max_timer_delay : ℤ
max_timer_delay = pos 2147483647

abbrev pub min_ℤ : ℤ → ℤ → ℤ
min_ℤ a b = if leb_ℤ a b then a else b

unfoldable pub timer_delay : ℤ → ℤ → ℤ → ℤ
timer_delay minimum_delay deadline now =
    min_ℤ max_timer_delay (max_ℤ minimum_delay (deadline -ℤ now))

abbrev pub set_timer : Timeout → Deadlines → Deadlines
set_timer t s = record s {
  timers = put t.game_id (some s.next_handle) s.timers;
  timeouts = put s.next_handle (some t) s.timeouts;
  next_handle = suc s.next_handle;
}

-- What follows the answer of findDeadline; a failure is as no deadline.
abbrev pub arm : Uuid → ℕ → ℤ → Option ℤ → ℤ → Deadlines → Deadlines
arm id generation minimum_delay none now s = s
arm id generation minimum_delay (some deadline) now s =
    if s.generations id == generation
    then set_timer
        (record {
          delay = timer_delay minimum_delay deadline now;
          game_id = id;
          generation = generation;
        })
        s
    else s

abbrev pub resume_call : Uuid → ℕ → Option ℤ → Option ℤ → ℤ → Deadlines → Deadlines
resume_call id generation none answer now s = s
resume_call id generation (some minimum_delay) answer now s =
    arm id generation minimum_delay answer now (put_waiting id generation none s)

-- A waiting call of `scheduleGame` goes on.
unfoldable pub resume : Uuid → ℕ → Option ℤ → ℤ → Deadlines → Deadlines
resume id generation answer now s = resume_call id generation (s.waiting id generation) answer now s

-- `fire` up to the call of adjudicateGame.
abbrev pub fire : Timeout → Deadlines → Deadlines
fire t s =
    if s.generations t.game_id == t.generation
    then record s { timers = put t.game_id none s.timers }
    else s

abbrev pub elapse_timeout : ℕ → Option Timeout → Deadlines → Deadlines
elapse_timeout handle none s = s
elapse_timeout handle (some t) s = fire t (record s { timeouts = put handle none s.timeouts })

-- A pending timeout elapses.
unfoldable pub elapse : ℕ → Deadlines → Deadlines
elapse handle s = elapse_timeout handle (s.timeouts handle) s

-- The end of `adjudicateAndReschedule`, by whether a game has ended.
unfoldable pub conclude : ℤ → Uuid → Bool → Deadlines → Deadlines
conclude interval_ms id true s = cancel id s
conclude interval_ms id false s = schedule_game id interval_ms s

abbrev pub sweep_unless : Bool → Deadlines → Deadlines
sweep_unless true s = s
sweep_unless false s = record s { running_sweep = true }

-- `runSweep` up to the call of findDueGameIds.
unfoldable pub begin_sweep : Deadlines → Deadlines
begin_sweep s = sweep_unless s.running_sweep s

-- The answer of findDueGameIds, or its failure.
unfoldable pub found_due : Option (List Uuid) → Deadlines → Deadlines
found_due none s = record s { running_sweep = false }
found_due (some ids) s = record s { due = ids }

abbrev pub sweep_first : ℤ → List Uuid → Bool → Deadlines → Deadlines
sweep_first interval_ms [] ended s = record s { running_sweep = false }
sweep_first interval_ms (id ∷ ids) ended s = conclude interval_ms id ended (record s { due = ids })

-- The next game of the sweep, by whether it has ended; without one the sweep is over.
unfoldable pub sweep_next : ℤ → Bool → Deadlines → Deadlines
sweep_next interval_ms ended s = sweep_first interval_ms s.due ended s

-- `rebuild`, after the answer of findSchedulableGameIds.
unfoldable pub rebuild : List Uuid → Deadlines → Deadlines
rebuild [] s = s
rebuild (id ∷ ids) s = rebuild ids (schedule_game id (pos 0) s)

abbrev pub is_handle : ℕ → Option ℕ → Bool
is_handle handle none = false
is_handle handle (some other) = handle == other

-- A handle is stored under its own game only.
abbrev pub unless_stored : ℕ → Option Timeout → (Uuid → Option ℕ) → Option Timeout
unless_stored handle none timers = none
unless_stored handle (some t) timers = if is_handle handle (timers t.game_id) then none else some t

-- `onApplicationShutdown`.
unfoldable pub shutdown : Deadlines → Deadlines
shutdown s = record s {
  timers = λ id. none;
  timeouts = λ handle. unless_stored handle (s.timeouts handle) s.timers;
}

pub data Step : Type 0 where
  schedules : Uuid → ℤ → Step
  resumes : Uuid → ℕ → Option ℤ → ℤ → Step
  cancels : Uuid → Step
  elapses : ℕ → Step
  concludes : Uuid → Bool → Step
  begins_sweep : Step
  finds_due : Option (List Uuid) → Step
  sweeps : Bool → Step
  rebuilds : List Uuid → Step
  shuts_down : Step

unfoldable pub step : ℤ → Step → Deadlines → Deadlines
step interval_ms (schedules id minimum_delay) s = schedule_game id minimum_delay s
step interval_ms (resumes id generation answer now) s = resume id generation answer now s
step interval_ms (cancels id) s = cancel id s
step interval_ms (elapses handle) s = elapse handle s
step interval_ms (concludes id ended) s = conclude interval_ms id ended s
step interval_ms begins_sweep s = begin_sweep s
step interval_ms (finds_due ids) s = found_due ids s
step interval_ms (sweeps ended) s = sweep_next interval_ms ended s
step interval_ms (rebuilds ids) s = rebuild ids s
step interval_ms shuts_down s = shutdown s

unfoldable pub run : ℤ → List Step → Deadlines → Deadlines
run interval_ms [] s = s
run interval_ms (one ∷ later) s = run interval_ms later (step interval_ms one s)
