-- ===== src/Base/Outcome.antt =====
-- A call that may panic. A panic ends the call; an `error` result is an ordinary value.
use mathlib.Core.Path.{◌≡◌, refl}
use mathlib.Core.Bool.{Bool, true, false}
use mathlib.Core.Logic.{◌⊎◌, inl, inr}
use crossvenue.Base.Tests.{if◌then◌else◌}

-- The errors that the program panics with.
pub data Panic : Type 0 where
  overflow div_by_zero : Panic

pub data Outcome {ℓ} (A : Type ℓ) : Type ℓ where
  returns : A → Outcome A
  panics : Panic → Outcome A

infixl 5 ◌>>=◌ ◌>>◌
abbrev pub ◌>>=◌ {ℓ κ} : {A : Type ℓ} {B : Type κ} → Outcome A → (A → Outcome B) → Outcome B
returns a >>= f = f a
panics p >>= f = panics p

abbrev pub ◌>>◌ {ℓ κ} : {A : Type ℓ} {B : Type κ} → Outcome A → Outcome B → Outcome B
m >> k = m >>= λ _. k

-- Inversion of a bind that returned.
pub >>=-returns {ℓ κ} :
    {A : Type ℓ} {B : Type κ} (m : Outcome A) (f : A → Outcome B) {b : B}
    → (m >>= f) ≡ returns b
    → (a : A) × (m ≡ returns a) × (f a ≡ returns b)
>>=-returns (returns a) f h = (a, refl, h)
>>=-returns (panics p) f h = cc

pub Outcome-cases {ℓ} :
    {A : Type ℓ} (m : Outcome A) → ((a : A) × (m ≡ returns a)) ⊎ ((p : Panic) × (m ≡ panics p))
Outcome-cases (returns a) = inl (a, refl)
Outcome-cases (panics p) = inr (p, refl)

-- A call that returned past a guard, or returned what the guard gives.
pub guard-returns {ℓ} :
    {A : Type ℓ} (p : Bool) (x : A) (k : Outcome A) {r : A}
    → (if p then returns x else k) ≡ returns r
    → ((p ≡ true) × (r ≡ x)) ⊎ ((p ≡ false) × (k ≡ returns r))
guard-returns true x k h = inl (refl, cc)
guard-returns false x k h = inr (refl, h)

pub returns_eq {ℓ} : {A : Type ℓ} {a b : A} → returns a ≡ returns b → a ≡ b
returns_eq e = cc
