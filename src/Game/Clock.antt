-- ===== src/Game/Clock.antt =====
-- src/modules/game/domain/game-clock.ts. A `Date` is its time value in milliseconds, or `none` for
-- an invalid date; a copy of a date is the date.
pub mod WellFormed
pub mod Admission
pub mod Deadline
use clu_chess.Base.{
  ℕ, Bool, true, false, not, ◌&&◌, ◌||◌, Option, none, some, Result, ok, err, ◌>>=◌, ◌>>◌, throw_if,
  leb, if◌then◌else◌,
}
use clu_chess.Base.Number.{
  ℤ, pos, pos_part, neg_part, ◌+ℤ◌, ◌-ℤ◌, ltb_ℤ, leb_ℤ, eqb_ℤ, max_ℤ, is_safe_integer,
}
use clu_chess.Game.{
  PlayerColor, b, w, GameDomainError, invalid_clock_state, opposite_color, eq_color,
}

abbrev pub Date : Type 0
Date = Option ℤ

-- The largest time value of a valid date, in milliseconds.
abbrev pub max_time : ℕ
max_time = 8640000000000000

-- `new Date(value)`.
unfoldable pub new_date : ℤ → Date
new_date t = if leb (pos_part t) max_time && leb (neg_part t) max_time then some t else none

pub record GameClock : Type 0 where
  pub black_ms : ℤ
  pub increment_ms : ℤ
  pub running : Option PlayerColor
  pub turn_started_at : Option Date
  pub white_ms : ℤ

pub record ClockView : Type 0 where
  pub black_ms : ℤ
  pub observed_at : Date
  pub running : Option PlayerColor
  pub white_ms : ℤ

pub data ClockAdmission : Type 0 where
  accepted : GameClock → ℤ → ClockAdmission
  flag_fall : GameClock → ℤ → PlayerColor → ClockAdmission

pub data PauseClockResult : Type 0 where
  paused : GameClock → ℤ → PauseClockResult
  flag_fall : GameClock → ℤ → PlayerColor → PauseClockResult

abbrev pub Checked : Type 0 → Type 0
Checked A = Result GameDomainError A

unfoldable pub assert_duration : ℤ → Checked (Unit {0})
assert_duration value =
    throw_if (not (is_safe_integer value) || ltb_ℤ value (pos 0)) invalid_clock_state

pub assert_positive_duration : ℤ → Checked (Unit {0})
unfolding assert_duration
assert_positive_duration value = do
  assert_duration value
  throw_if (eqb_ℤ value (pos 0)) invalid_clock_state

-- Returns the time value that the assertion has checked.
unfoldable pub assert_timestamp : Date → Checked ℤ
assert_timestamp none = err invalid_clock_state
assert_timestamp (some t) = ok t

-- The running color with its start, where both are there.
unfoldable pub assert_running_pair :
    Option PlayerColor → Option Date → Checked (Option (PlayerColor × ℤ))
unfolding assert_timestamp
assert_running_pair none none = ok none
assert_running_pair none (some _) = err invalid_clock_state
assert_running_pair (some _) none = err invalid_clock_state
assert_running_pair (some c) (some d) = do t ← assert_timestamp d; ok (some (c, t))

-- `assertClock`; it returns what the callers then read of the two nullable fields.
unfoldable pub assert_clock : GameClock → Checked (Option (PlayerColor × ℤ))
unfolding assert_duration assert_running_pair
assert_clock clock = do
  assert_duration clock.white_ms
  assert_duration clock.black_ms
  assert_duration clock.increment_ms
  assert_running_pair clock.running clock.turn_started_at

pub require_running : GameClock → Checked (PlayerColor × ℤ)
unfolding assert_clock
require_running clock = do
  running ← assert_clock clock
  elim running [ none ↦ err invalid_clock_state | some r ↦ ok r ]

unfoldable pub remaining_for : GameClock → PlayerColor → ℤ
unfolding eq_color
remaining_for clock color = if eq_color color w then clock.white_ms else clock.black_ms

pub with_remaining : GameClock → PlayerColor → ℤ → GameClock
unfolding eq_color
with_remaining clock color remaining =
    if eq_color color w
    then record clock { white_ms = remaining }
    else record clock { black_ms = remaining }

-- `elapsedAt`, on the start that `requireRunning` has found.
pub elapsed_at : ℤ → Date → Checked ℤ
unfolding assert_timestamp
elapsed_at started_at observed_at = do
  observed ← assert_timestamp observed_at
  ok (max_ℤ (pos 0) (observed -ℤ started_at))

pub stopped : GameClock → GameClock
stopped clock = record clock { running = none; turn_started_at = none }

pub checked_add : ℤ → ℤ → Checked ℤ
checked_add left right =
    let result = left +ℤ right in
    if is_safe_integer result then ok result else err invalid_clock_state

-- The clock of `flagFallClock`.
pub fallen : GameClock → PlayerColor → GameClock
unfolding with_remaining stopped
fallen clock flagged = stopped (with_remaining clock flagged (pos 0))

unfoldable pub create_game_clock : ℤ → ℤ → Result GameDomainError GameClock
unfolding assert_positive_duration assert_duration
create_game_clock initial_ms increment_ms = do
  assert_positive_duration initial_ms
  assert_duration increment_ms
  ok (record {
    black_ms = initial_ms;
    increment_ms = increment_ms;
    running = none;
    turn_started_at = none;
    white_ms = initial_ms;
  })

unfoldable pub resume_clock : GameClock → PlayerColor → Date → Result GameDomainError GameClock
unfolding assert_clock assert_timestamp remaining_for
resume_clock clock running started_at = do
  current ← assert_clock clock
  started ← assert_timestamp started_at
  throw_if (elim current [ none ↦ false | some _ ↦ true ]) invalid_clock_state
  throw_if (eqb_ℤ (remaining_for clock running) (pos 0)) invalid_clock_state
  ok (record clock { running = some running; turn_started_at = some (some started) })

unfoldable pub pause_clock : GameClock → Date → Result GameDomainError PauseClockResult
unfolding require_running elapsed_at remaining_for fallen with_remaining stopped
pause_clock clock observed_at = do
  (running, started) ← require_running clock
  elapsed ← elapsed_at started observed_at
  let remaining = remaining_for clock running
  if leb_ℤ remaining elapsed
      then ok (flag_fall (fallen clock running) elapsed running)
      else ok (paused (stopped (with_remaining clock running (remaining -ℤ elapsed))) elapsed)

-- The accepting half of `admitMoveOnClock`.
pub accept_on_clock : GameClock → PlayerColor → ℤ → ℤ → Date → Result GameDomainError ClockAdmission
unfolding with_remaining checked_add opposite_color
accept_on_clock clock mover remaining elapsed server_received_at = do
  after_increment ← checked_add (remaining -ℤ elapsed) clock.increment_ms
  let moved = with_remaining clock mover after_increment
  let next = record moved {
    running = some (opposite_color mover);
    turn_started_at = some server_received_at;
  }
  ok (accepted next elapsed)

unfoldable pub admit_move_on_clock :
    GameClock → PlayerColor → Date → Result GameDomainError ClockAdmission
unfolding require_running elapsed_at remaining_for fallen accept_on_clock eq_color
admit_move_on_clock clock mover server_received_at = do
  (running, started) ← require_running clock
  throw_if (not (eq_color running mover)) invalid_clock_state
  elapsed ← elapsed_at started server_received_at
  let remaining = remaining_for clock mover
  if leb_ℤ remaining elapsed
      then ok (flag_fall (fallen clock mover) elapsed mover)
      else accept_on_clock clock mover remaining elapsed server_received_at

unfoldable pub check_flag_fall : GameClock → Date → Result GameDomainError ClockAdmission
unfolding require_running elapsed_at remaining_for fallen
check_flag_fall clock observed_at = do
  (running, started) ← require_running clock
  elapsed ← elapsed_at started observed_at
  let remaining = remaining_for clock running
  if leb_ℤ remaining elapsed
      then ok (flag_fall (fallen clock running) elapsed running)
      else ok (accepted clock elapsed)

unfoldable pub clock_view_at : GameClock → Date → Result GameDomainError ClockView
unfolding assert_clock assert_timestamp elapsed_at remaining_for with_remaining
clock_view_at clock observed_at = do
  current ← assert_clock clock
  observed ← assert_timestamp observed_at
  elim current [
    | none ↦ ok (view clock none)
    | some (running, started) ↦ do
      elapsed ← elapsed_at started observed_at
      let remaining = max_ℤ (pos 0) (remaining_for clock running -ℤ elapsed)
      ok (view (with_remaining clock running remaining) (some running))
  ]
  where
    view : GameClock → Option PlayerColor → ClockView
    view c running = record {
      black_ms = c.black_ms;
      observed_at = observed_at;
      running = running;
      white_ms = c.white_ms;
    }

unfoldable pub clock_deadline : GameClock → Result GameDomainError (Option Date)
unfolding assert_clock remaining_for new_date
clock_deadline clock = do
  current ← assert_clock clock
  elim current [
    | none ↦ ok none
    | some (running, started) ↦ ok (some (new_date (started +ℤ remaining_for clock running)))
  ]
