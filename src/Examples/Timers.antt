-- ===== src/Examples/Timers.antt =====
-- Two calls of scheduleGame for one game, the second before the first has its answer.
use clu_chess.Base.{ℕ, ◌≡◌, refl, false, none, some, List, [], ◌∷◌, arith}
use clu_chess.Base.Number.{pos, ◌-ℤ◌}
use clu_chess.Matchmaking.Redis.{put}
use clu_chess.Services.Armed.{IsArmed}
use clu_chess.Services.Deadlines.{
  Timeout, Deadlines, Step, schedules, resumes, clear_timer, schedule_game, timer_delay, resume,
  step, run,
}
use clu_chess.Services.Timers.{run-one_timeout}

abbrev idle : Deadlines
idle = record {
  generations = λ id. 0;
  timers = λ id. none;
  waiting = λ id generation. none;
  timeouts = λ handle. none;
  next_handle = 0;
  running_sweep = false;
  due = [];
}

abbrev overlap : List Step
overlap =
    schedules 1 (pos 0)
    ∷ schedules 1 (pos 50)
    ∷ resumes 1 1 (some (pos 900)) (pos 100)
    ∷ resumes 1 2 (some (pos 900)) (pos 200)
    ∷ []

abbrev alarm : Timeout
alarm = record { delay = pos 700; game_id = 1; generation = 2 }

idle-IsArmed : IsArmed idle
idle-IsArmed = record {
  pending = λ h t f. ground (arith, f);
  stored = λ id h f. ground (arith, f);
  called = λ id g d f. ground (arith, f);
  unarmed = λ id d f. refl;
}

overlap-alarm : (run (pos 1000) overlap idle).timeouts 0 ≡ some alarm
unfolding run step schedule_game clear_timer resume timer_delay put ◌-ℤ◌
overlap-alarm = refl

run-one_timeout_example :
    let after = run (pos 1000) overlap idle in
    ◌≡◌ {A = ℕ} 0 0 × (after.timers 1 ≡ some 0) × (alarm.generation ≡ after.generations 1)
run-one_timeout_example =
    run-one_timeout (pos 1000) overlap idle idle-IsArmed 0 0 alarm alarm overlap-alarm overlap-alarm
      refl
