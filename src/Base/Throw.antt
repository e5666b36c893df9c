-- ===== src/Base/Throw.antt =====
-- TypeScript functions that may throw. What they throw is a value here, so that callers see it.
use mathlib.Core.Bool.{Bool, true, false}
use mathlib.Core.Path.{◌≡◌, refl}

pub data Result {ℓ κ} (E : Type ℓ) (A : Type κ) : Type (ℓ ⊔ κ) where
  err : E → Result E A
  ok : A → Result E A

-- `if (test) throw thrown;`
abbrev pub throw_if {ℓ} : {E : Type ℓ} → Bool → E → Result E (Unit {0})
throw_if false thrown = ok tt
throw_if true thrown = err thrown

-- The statements that follow a call.
infixl 5 ◌>>=◌
abbrev pub ◌>>=◌ {ℓ κ μ} :
    {E : Type ℓ} {A : Type κ} {B : Type μ} → Result E A → (A → Result E B) → Result E B
err thrown >>= rest = err thrown
ok value >>= rest = rest value

-- Those that follow a check.
infixl 5 ◌>>◌
abbrev pub ◌>>◌ {ℓ κ} : {E : Type ℓ} {B : Type κ} → Result E (Unit {0}) → Result E B → Result E B
check >> rest = check >>= λ done. rest

module _ {ℓ κ} {E : Type ℓ} {B : Type κ} {last : B} where
  -- Where a chain has returned, its first call has.
  pub >>=-eq-ok {μ} :
      {A : Type μ} (call : Result E A) (rest : A → Result E B)
      → (call >>= rest) ≡ ok last
      → (value : A) × (call ≡ ok value) × (rest value ≡ ok last)
  >>=-eq-ok (err thrown) rest returned = cc
  >>=-eq-ok (ok value) rest returned = (value, refl, returned)
