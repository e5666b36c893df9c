-- ===== src/Game/Clock/Deadline.antt =====
-- Observing, pausing and resuming a clock: `checkFlagFall`, `clockViewAt`, `clockDeadline`,
-- `pauseClock` and `resumeClock` of game-clock.ts.
use clu_chess.Base.{◌≡◌, ◌↔◌, refl, some, Result, ok, err, Bool, true, false, arith, if◌then◌else◌}
use clu_chess.Base.Number.{ℤ, pos, ◌≤ℤ◌, ◌<ℤ◌, ◌+ℤ◌, ◌-ℤ◌, leb_ℤ, -ℤ_parts, +ℤ_parts, eq_of_parts}
use clu_chess.Game.{PlayerColor, b, w, GameDomainError, opposite_color}
use clu_chess.Game.Clock.{
  GameClock, PauseClockResult, ClockAdmission, accepted, flag_fall, paused, remaining_for, fallen,
  check_flag_fall, clock_deadline, clock_view_at, ClockView, pause_clock, resume_clock, new_date,
  stopped, with_remaining,
}
use clu_chess.Game.Clock.Admission.{elapsed}
use clu_chess.Game.Clock.WellFormed.{
  IsRunning, IsStopped, require_running_lem, assert_clock_running, assert_clock_stopped,
}

abbrev pub has_fallen : Result GameDomainError ClockAdmission → Bool
has_fallen (ok (flag_fall _ _ _)) = true
has_fallen _ = false

check_cases :
    (c : GameClock) (color : PlayerColor) (t o : ℤ)
    → IsRunning c color t
    → check_flag_fall c (some o) ≡ (
        if leb_ℤ (remaining_for c color) (elapsed t o)
        then ok (flag_fall (fallen c color) (elapsed t o) color)
        else ok (accepted c (elapsed t o)))
unfolding check_flag_fall
check_cases c color t o h = rw (require_running_lem c color t h, check_flag_fall) (ground arith)

deadline_lem :
    (c : GameClock) (color : PlayerColor) (t : ℤ)
    → IsRunning c color t
    → clock_deadline c ≡ ok (some (new_date (t +ℤ remaining_for c color)))
unfolding clock_deadline
deadline_lem c color t h = rw (assert_clock_running c color t h, clock_deadline)

-- For a clock that runs, with time left when the turn began and a deadline that is a valid
-- date, the flag has fallen at a moment exactly if the moment is not before the deadline.
pub check_flag_fall-clock_deadline :
    (c : GameClock) (color : PlayerColor) (t o d : ℤ)
    → IsRunning c color t
    → pos 0 <ℤ remaining_for c color
    → clock_deadline c ≡ ok (some (some d))
    → (has_fallen (check_flag_fall c (some o)) ≡ true) ↔ (d ≤ℤ o)
unfolding new_date
check_flag_fall-clock_deadline c color t o d h left due =
    rw (check_cases c color t o h)
      (ground (arith, deadline_lem c color t h, +ℤ_parts t (remaining_for c color), -ℤ_parts o t))

-- The view shows the times of a clock.
abbrev pub Shows : GameClock → Result GameDomainError ClockView → Type 0
Shows c (ok v) = (v.white_ms ≡ c.white_ms) × (v.black_ms ≡ c.black_ms)
Shows c (err _) = ⊥

abbrev pub clock_of : PauseClockResult → GameClock
clock_of (paused c _) = c
clock_of (PauseClockResult.flag_fall c _ _) = c

pause_cases :
    (c : GameClock) (color : PlayerColor) (t o : ℤ)
    → IsRunning c color t
    → pause_clock c (some o) ≡ (
        let e = elapsed t o in
        let left = remaining_for c color in
        if leb_ℤ left e
        then ok (PauseClockResult.flag_fall (fallen c color) e color)
        else ok (paused (stopped (with_remaining c color (left -ℤ e))) e))
unfolding pause_clock
pause_cases c color t o h = rw (require_running_lem c color t h, pause_clock) (ground arith)

-- What the view of a running clock shows for both players at a moment is what the clock holds
-- when it is paused at that moment.
pub clock_view_at-pause_clock :
    (c : GameClock) (color : PlayerColor) (t o : ℤ) (r : PauseClockResult)
    → IsRunning c color t
    → pause_clock c (some o) ≡ ok r
    → Shows (clock_of r) (clock_view_at c (some o))
unfolding clock_view_at fallen
clock_view_at-pause_clock c b t o r h p =
    rw (assert_clock_running c b t h, clock_view_at)
      (ground (arith, pause_cases c b t o h, -ℤ_parts c.black_ms (elapsed t o)))
clock_view_at-pause_clock c w t o r h p =
    rw (assert_clock_running c w t h, clock_view_at)
      (ground (arith, pause_cases c w t o h, -ℤ_parts c.white_ms (elapsed t o)))

paused_lem :
    (c : GameClock) (color : PlayerColor) (t o : ℤ) (c' : GameClock) (e : ℤ)
    → IsRunning c color t
    → pause_clock c (some o) ≡ ok (paused c' e)
    → IsStopped c'
      × (e ≡ elapsed t o)
      × (pos 0 <ℤ remaining_for c' color)
      × (remaining_for c' color +ℤ e ≡ remaining_for c color)
      × (remaining_for c' (opposite_color color) ≡ remaining_for c (opposite_color color))
unfolding remaining_for stopped with_remaining opposite_color
paused_lem c b t o c' e h p = ground (
  arith,
  pause_cases c b t o h,
  -ℤ_parts c.black_ms (elapsed t o),
  +ℤ_parts (c.black_ms -ℤ elapsed t o) (elapsed t o),
  eq_of_parts (c.black_ms -ℤ elapsed t o +ℤ elapsed t o) c.black_ms,
)
paused_lem c w t o c' e h p = ground (
  arith,
  pause_cases c w t o h,
  -ℤ_parts c.white_ms (elapsed t o),
  +ℤ_parts (c.white_ms -ℤ elapsed t o) (elapsed t o),
  eq_of_parts (c.white_ms -ℤ elapsed t o +ℤ elapsed t o) c.white_ms,
)

resume_lem :
    (c : GameClock) (color : PlayerColor) (o : ℤ)
    → IsStopped c
    → pos 0 <ℤ remaining_for c color
    → resume_clock c color (some o)
      ≡ ok (record c { running = some color; turn_started_at = some (some o) })
unfolding resume_clock
resume_lem c color o h left = rw (assert_clock_stopped c h, resume_clock) (ground arith)

-- A clock that is paused before its flag falls can be resumed at any time for the same player:
-- the time between the two is charged to nobody, and the player has the time before the pause
-- less the elapsed time.
pub resume_clock-pause_clock :
    (c : GameClock) (color : PlayerColor) (t o o' : ℤ) (c' : GameClock) (e : ℤ)
    → IsRunning c color t
    → pause_clock c (some o) ≡ ok (paused c' e)
    → (c'' : GameClock) × (resume_clock c' color (some o') ≡ ok c'')
      × IsRunning c'' color o'
      × (e ≡ elapsed t o)
      × (remaining_for c'' color +ℤ e ≡ remaining_for c color)
      × (remaining_for c'' (opposite_color color) ≡ remaining_for c (opposite_color color))
unfolding remaining_for opposite_color
resume_clock-pause_clock c color t o o' c' e h p =
    let (halted, spent, left, same, other) = paused_lem c color t o c' e h p in
    (
      record c' { running = some color; turn_started_at = some (some o') },
      resume_lem c' color o' halted left,
      record {
        durations = record {
          white = halted.durations.white;
          black = halted.durations.black;
          increment = halted.durations.increment;
        };
        running = refl;
        since = refl;
      },
      spent,
      same,
      other,
    )
