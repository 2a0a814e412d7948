-- ===== src/Base/Try.antt =====
-- A call that may return an error, and goes on only if it did not.
use mathlib.Core.Path.{◌≡◌, refl}
use mathlib.Core.Logic.{◌⊎◌, inl, inr}
use mathlib.Core.Bool.{Bool, true, false}
use crossvenue.Base.Tests.{if◌then◌else◌}

pub data Try {ℓ κ} (E : Type ℓ) (A : Type κ) : Type (ℓ ⊔ κ) where
  ok : A → Try E A
  fails : E → Try E A

infixl 5 ◌>>=◌
abbrev pub ◌>>=◌ {ℓ κ μ} :
    {E : Type ℓ} {A : Type κ} {B : Type μ} → Try E A → (A → Try E B) → Try E B
ok a >>= f = f a
fails e >>= f = fails e

-- What a call that succeeded went through.
pub >>=-ok {ℓ κ μ} :
    {E : Type ℓ} {A : Type κ} {B : Type μ} (call : Try E A) (next : A → Try E B) {done : B}
    → (call >>= next) ≡ ok done
    → (a : A) × (call ≡ ok a) × (next a ≡ ok done)
>>=-ok (ok a) next h = (a, refl, h)
>>=-ok (fails e) next h = cc

-- A success behind a test that fails the call.
pub guard-ok {ℓ κ} :
    {E : Type ℓ} {A : Type κ} (test : Bool) (e : E) (rest : Try E A) {done : A}
    → (if test then fails e else rest) ≡ ok done
    → (test ≡ false) × (rest ≡ ok done)
guard-ok true e rest h = cc
guard-ok false e rest h = (refl, h)

pub Try-cases {ℓ κ} :
    {E : Type ℓ} {A : Type κ} (t : Try E A) → ((a : A) × (t ≡ ok a)) ⊎ ((e : E) × (t ≡ fails e))
Try-cases (ok a) = inl (a, refl)
Try-cases (fails e) = inr (e, refl)
