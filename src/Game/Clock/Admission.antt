-- ===== src/Game/Clock/Admission.antt =====
-- What a move does to the clock: `admitMoveOnClock` of game-clock.ts.
use mathlib.Core.Path.{subst}
use clu_chess.Base.{
  ◌≡◌, refl, ◌>>=◌, ◌>>◌, throw_if, not, none, some, Result, ok, err, >>=-eq-ok, arith,
  if◌then◌else◌, Bool-cases, inl, inr,
}
use clu_chess.Base.Number.{
  ℤ, pos, ◌≤ℤ◌, ◌<ℤ◌, ◌+ℤ◌, ◌-ℤ◌, max_ℤ, max_safe_integer, leb_ℤ, -ℤ_parts, +ℤ_parts, eq_of_parts,
}
use clu_chess.Game.{
  PlayerColor, b, w, eq_color, GameDomainError, opposite_color, invalid_clock_state,
}
use clu_chess.Game.Clock.{
  Date, GameClock, ClockAdmission, accepted, flag_fall, require_running, remaining_for,
  admit_move_on_clock, accept_on_clock, fallen, elapsed_at,
}
use clu_chess.Game.Clock.WellFormed.{
  IsRunning, IsStopped, IsRunning-require_running, require_running_lem,
}

-- The milliseconds that have passed since the start, none before it.
abbrev pub elapsed : ℤ → ℤ → ℤ
elapsed started observed = max_ℤ (pos 0) (observed -ℤ started)

-- What the mover's clock owes at `o` after a turn of `e` milliseconds.
abbrev pub Charges :
    GameClock → PlayerColor → ℤ → ℤ → Result GameDomainError ClockAdmission → Type 0
Charges c mover e o (ok (accepted c' spent)) =
    (spent ≡ e)
    × (e <ℤ remaining_for c mover)
    × IsRunning c' (opposite_color mover) o
    × (remaining_for c' mover +ℤ e ≡ remaining_for c mover +ℤ c.increment_ms)
    × (remaining_for c' (opposite_color mover) ≡ remaining_for c (opposite_color mover))
    × (c'.increment_ms ≡ c.increment_ms)
Charges c mover e o (ok (flag_fall c' spent flagged)) =
    (spent ≡ e)
    × (remaining_for c mover ≤ℤ e)
    × (flagged ≡ mover)
    × IsStopped c'
    × (remaining_for c' mover ≡ pos 0)
    × (remaining_for c' (opposite_color mover) ≡ remaining_for c (opposite_color mover))
    × (c'.increment_ms ≡ c.increment_ms)
Charges c mover e o (err error) =
    (error ≡ invalid_clock_state)
    × (e <ℤ remaining_for c mover)
    × (pos max_safe_integer <ℤ remaining_for c mover -ℤ e +ℤ c.increment_ms)

admit_cases :
    (c : GameClock) (mover : PlayerColor) (t o : ℤ)
    → IsRunning c mover t
    → admit_move_on_clock c mover (some o) ≡ (
        if leb_ℤ (remaining_for c mover) (elapsed t o)
        then ok (flag_fall (fallen c mover) (elapsed t o) mover)
        else accept_on_clock c mover (remaining_for c mover) (elapsed t o) (some o))
unfolding admit_move_on_clock
admit_cases c mover t o h = rw (require_running_lem c mover t h, admit_move_on_clock) (ground arith)

fallen-Charges :
    (c : GameClock) (mover : PlayerColor) (t e o : ℤ)
    → IsRunning c mover t
    → remaining_for c mover ≤ℤ e
    → Charges c mover e o (ok (flag_fall (fallen c mover) e mover))
unfolding fallen remaining_for opposite_color
fallen-Charges c b t e o h late = ground arith
fallen-Charges c w t e o h late = ground arith

accept-Charges :
    (c : GameClock) (mover : PlayerColor) (t e o : ℤ)
    → IsRunning c mover t
    → pos 0 ≤ℤ e
    → e <ℤ remaining_for c mover
    → Charges c mover e o (accept_on_clock c mover (remaining_for c mover) e (some o))
unfolding accept_on_clock remaining_for opposite_color
accept-Charges c b t e o h started early = ground (
  arith,
  -ℤ_parts c.black_ms e,
  +ℤ_parts (c.black_ms -ℤ e) c.increment_ms,
  +ℤ_parts (c.black_ms -ℤ e +ℤ c.increment_ms) e,
  +ℤ_parts c.black_ms c.increment_ms,
  eq_of_parts (c.black_ms -ℤ e +ℤ c.increment_ms +ℤ e) (c.black_ms +ℤ c.increment_ms),
)
accept-Charges c w t e o h started early = ground (
  arith,
  -ℤ_parts c.white_ms e,
  +ℤ_parts (c.white_ms -ℤ e) c.increment_ms,
  +ℤ_parts (c.white_ms -ℤ e +ℤ c.increment_ms) e,
  +ℤ_parts c.white_ms c.increment_ms,
  eq_of_parts (c.white_ms -ℤ e +ℤ c.increment_ms +ℤ e) (c.white_ms +ℤ c.increment_ms),
)

-- On a clock that runs for the mover, a move is admitted exactly if less time has passed than
-- the mover has, and if the new time is a safe integer. It then charges the mover the elapsed
-- time, adds the increment, keeps the opponent's time, and the clock runs for the opponent. Too
-- late a move stops the clock with the mover at 0; too large a time is an error.
pub admit-Charges :
    (c : GameClock) (mover : PlayerColor) (t o : ℤ)
    → IsRunning c mover t
    → Charges c mover (elapsed t o) o (admit_move_on_clock c mover (some o))
admit-Charges c mover t o h = elim (Bool-cases (leb_ℤ (remaining_for c mover) (elapsed t o))) [
  | inl late ↦
      rw (admit_cases c mover t o h, late)
        (fallen-Charges c mover t (elapsed t o) o h (ground arith))
  | inr early ↦
      rw (admit_cases c mover t o h, early)
        (accept-Charges c mover t (elapsed t o) o h (ground arith) (ground arith))
]

color-eq :
    (color mover : PlayerColor) (rest : Result GameDomainError ClockAdmission) {a : ClockAdmission}
    → (throw_if (not (eq_color color mover)) invalid_clock_state >> rest) ≡ ok a
    → (color ≡ mover) × (rest ≡ ok a)
unfolding eq_color
color-eq color mover rest h = ground arith

observed-valid :
    (t : ℤ) (d : Date) (rest : ℤ → Result GameDomainError ClockAdmission) {a : ClockAdmission}
    → (elapsed_at t d >>= rest) ≡ ok a
    → (o : ℤ) × (d ≡ some o)
unfolding elapsed_at
observed-valid t none rest h = cc
observed-valid t (some o) rest h = (o, refl)

pub IsRunning-admit :
    (c : GameClock) (mover : PlayerColor) (d : Date) {a : ClockAdmission}
    → admit_move_on_clock c mover d ≡ ok a
    → (t : ℤ) × IsRunning c mover t × ((o : ℤ) × (d ≡ some o))
unfolding admit_move_on_clock
IsRunning-admit c mover d h =
    let ((color, t), found, rest) = >>=-eq-ok (require_running c) _ h in
    let (same, rest') = color-eq color mover _ rest in
    (
      t,
      subst (λ x. IsRunning c x t) same (IsRunning-require_running c found),
      observed-valid t d _ rest',
    )
