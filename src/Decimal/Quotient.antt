-- ===== src/Decimal/Quotient.antt =====
-- `mulDiv` of pkg/decimal/decimal.go, with its 128-bit intermediate, against exact integers.
use crossvenue.Base.{
  ℕ, ◌+◌, ◌*◌, ◌/◌, ◌%◌, ◌^◌, ◌≤◌, ◌<◌, Bool, true, false, not, if◌then◌else◌, ◌≡◌, arith, ◌≢◌, inl,
  inr, ◌⊎◌, le_or_lt,
}
use crossvenue.Base.Int.{ℤ, pos, neg, ltb_ℤ, magnitude, sub_ℕ}
use crossvenue.Base.Outcome.{Outcome, returns, panics, overflow, ◌>>=◌}
use crossvenue.Decimal.{
  IsInt64, signed_quotient, xor_sign, negate, mul64, div64, mul_div, max_int64, wrap64,
}
use crossvenue.Decimal.Exact.{abs64-magnitude}

-- The integer with this sign and magnitude.
abbrev pub with_sign : Bool → ℕ → ℤ
with_sign minus q = if minus then sub_ℕ 0 q else pos q

-- Whether the signs of the two factors differ; the divisor's sign is not asked.
abbrev pub signs_differ : ℤ → ℤ → Bool
signs_differ a b = if ltb_ℤ a (pos 0) then not (ltb_ℤ b (pos 0)) else ltb_ℤ b (pos 0)

-- The exact quotient of magnitudes, with the sign that `mulDiv` gives it.
abbrev pub quotient : ℤ → ℤ → ℤ → ℤ
quotient a b c = with_sign (signs_differ a b) (magnitude a * magnitude b / magnitude c)

signed_quotient_fits :
    (minus : Bool) (q : ℕ) → q ≤ max_int64 → signed_quotient minus q ≡ returns (with_sign minus q)
unfolding signed_quotient negate wrap64 neg
signed_quotient_fits true q h = ground arith
signed_quotient_fits false q h = ground arith

signed_quotient_overflow :
    (minus : Bool) (q : ℕ) → max_int64 < q → signed_quotient minus q ≡ panics overflow
unfolding signed_quotient
signed_quotient_overflow minus q h = ground arith

-- The 128-bit product is split into two words, and joined again by the division.
joined : (n : ℕ) → n / 2 ^ 64 * 2 ^ 64 + n % 2 ^ 64 ≡ n
joined n = omega arith

high_word : (n y : ℕ) → 0 < y → y ≤ n / 2 ^ 64 → max_int64 < n / y
high_word n y p h = grind (arith)

div64_lem : (n y : ℕ) → n / 2 ^ 64 < y → div64 (n / 2 ^ 64) (n % 2 ^ 64) y ≡ returns (n / y, n % y)
unfolding div64
div64_lem n y h = rw (joined n) (ground arith)

div64_panics : (n y : ℕ) → y ≤ n / 2 ^ 64 → div64 (n / 2 ^ 64) (n % 2 ^ 64) y ≡ panics overflow
unfolding div64
div64_panics n y h = ground arith

mul_div_nonzero :
    (a b c : ℤ)
    → IsInt64 a
    → IsInt64 b
    → IsInt64 c
    → c ≢ pos 0
    → mul_div a b c ≡ (do
      qr ←
          div64
            (magnitude a * magnitude b / 2 ^ 64)
            (magnitude a * magnitude b % 2 ^ 64)
            (magnitude c)
      signed_quotient (signs_differ a b) qr.0)
unfolding mul_div mul64 xor_sign
mul_div_nonzero a b c ha hb hc nz =
    rw (abs64-magnitude a ha, abs64-magnitude b hb, abs64-magnitude c hc) (ground arith)

divisor_pos : (c : ℤ) → c ≢ pos 0 → 0 < magnitude c
divisor_pos c nz = ground arith

-- The three ways in which the two divisions end.
divided :
    (minus : Bool) (n y : ℕ)
    → 0 < y
    → let m : Outcome ℤ = (do qr ← div64 (n / 2 ^ 64) (n % 2 ^ 64) y; signed_quotient minus qr.0) in
      ((n / y ≤ max_int64) × (m ≡ returns (with_sign minus (n / y))))
      ⊎ ((max_int64 < n / y) × (m ≡ panics overflow))
divided minus n y p = elim (le_or_lt y (n / 2 ^ 64)) [
  | inl h ↦ inr (high_word n y p h, rw (div64_panics n y h))
  | inr h ↦ elim (le_or_lt (n / y) max_int64) [
    | inl k ↦ inl (k, rw (div64_lem n y h) (signed_quotient_fits minus (n / y) k))
    | inr k ↦ inr (k, rw (div64_lem n y h) (signed_quotient_overflow minus (n / y) k))
  ]
]

-- On int64 values, with a nonzero divisor, `mulDiv` returns the product of the magnitudes over
-- the divisor's, rounded down, with the sign of the two factors, when that quotient is at most
-- the largest int64; it panics with overflow otherwise.
pub mul_div_exact :
    (a b c : ℤ)
    → IsInt64 a
    → IsInt64 b
    → IsInt64 c
    → c ≢ pos 0
    → ((magnitude a * magnitude b / magnitude c ≤ max_int64)
        × (mul_div a b c ≡ returns (quotient a b c)))
      ⊎ ((max_int64 < magnitude a * magnitude b / magnitude c) × (mul_div a b c ≡ panics overflow))
mul_div_exact a b c ha hb hc nz =
    rw (mul_div_nonzero a b c ha hb hc nz)
      (divided (signs_differ a b) (magnitude a * magnitude b) (magnitude c) (divisor_pos c nz))
