-- ===== src/Game/Clock/WellFormed.antt =====
-- What `assertClock` of game-clock.ts checks, as a predicate.
use clu_chess.Base.{◌≡◌, none, some, ok, arith}
use clu_chess.Base.Number.{ℤ, pos, ◌≤ℤ◌, max_safe_integer}
use clu_chess.Game.{PlayerColor}
use clu_chess.Game.Clock.{GameClock, assert_clock, require_running}

abbrev pub IsDuration : ℤ → Type 0
IsDuration n = (pos 0 ≤ℤ n) × (n ≤ℤ pos max_safe_integer)

pub record HasDurations (c : GameClock) : Type 0 where
  pub white : IsDuration c.white_ms
  pub black : IsDuration c.black_ms
  pub increment : IsDuration c.increment_ms

pub record IsRunning (c : GameClock) (color : PlayerColor) (started : ℤ) : Type 0 where
  pub durations : HasDurations c
  pub running : c.running ≡ some color
  pub since : c.turn_started_at ≡ some (some started)

pub record IsStopped (c : GameClock) : Type 0 where
  pub durations : HasDurations c
  pub halted : c.running ≡ none
  pub no_start : c.turn_started_at ≡ none

pub assert_clock_running :
    (c : GameClock) (color : PlayerColor) (t : ℤ)
    → IsRunning c color t
    → assert_clock c ≡ ok (some (color, t))
unfolding assert_clock
assert_clock_running c color t h = ground arith

pub assert_clock_stopped : (c : GameClock) → IsStopped c → assert_clock c ≡ ok none
unfolding assert_clock
assert_clock_stopped c h = ground arith

pub IsRunning-require_running :
    (c : GameClock) {color : PlayerColor} {t : ℤ}
    → require_running c ≡ ok (color, t)
    → IsRunning c color t
unfolding require_running
IsRunning-require_running c h = ground arith

pub require_running_lem :
    (c : GameClock) (color : PlayerColor) (t : ℤ)
    → IsRunning c color t
    → require_running c ≡ ok (color, t)
unfolding require_running
require_running_lem c color t h = ground arith
