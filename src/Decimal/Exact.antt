-- ===== src/Decimal/Exact.antt =====
-- The int64 arithmetic of pkg/decimal/decimal.go against exact integers.
use crossvenue.Base.{◌-◌, ◌^◌, ◌≤◌, ◌<◌, ◌≡◌, arith, inl, inr, ◌⊎◌}
use crossvenue.Base.Int.{
  ℤ, pos, negsuc, pos_part, neg_part, ◌+ℤ◌, ◌-ℤ◌, neg, eq_of_parts, ◌<ℤ◌, ◌≤ℤ◌, magnitude, +ℤ_parts,
  -ℤ_parts, neg_parts,
}
use crossvenue.Base.Outcome.{returns, panics, overflow}
use crossvenue.Decimal.{Fixed, IsInt64, wrap64, add, sub, negate, abs64}

pub wrap64_id : (a : ℤ) → IsInt64 a → wrap64 a ≡ a
unfolding wrap64
wrap64_id a h = ground arith

pub wrap64-IsInt64 : (a : ℤ) → IsInt64 (wrap64 a)
unfolding wrap64
wrap64-IsInt64 a = ground arith

-- A sum that is too large, or too small, by less than 2^64.
wrap64_above : (a : ℤ) → 2 ^ 63 ≤ pos_part a → pos_part a < 2 ^ 64 → wrap64 a ≡ a -ℤ pos (2 ^ 64)
unfolding wrap64 ◌-ℤ◌
wrap64_above a h k = ground arith

wrap64_below : (a : ℤ) → 2 ^ 63 < neg_part a → neg_part a ≤ 2 ^ 64 → wrap64 a ≡ a +ℤ pos (2 ^ 64)
unfolding wrap64 ◌+ℤ◌
wrap64_below a h k = ground arith

pub add_returns :
    (a b : Fixed) → IsInt64 a → IsInt64 b → IsInt64 (a +ℤ b) → add a b ≡ returns (a +ℤ b)
unfolding add
add_returns a b ha hb h = rw (wrap64_id (a +ℤ b) h) (ground (arith, +ℤ_parts a b))

pub add_panics :
    (a b : Fixed) → IsInt64 a → IsInt64 b → ¬ IsInt64 (a +ℤ b) → add a b ≡ panics overflow
unfolding add ◌+ℤ◌ wrap64
add_panics a b ha hb h = ground arith

IsInt64-cases : (a : ℤ) → IsInt64 a ⊎ (¬ IsInt64 a)
IsInt64-cases a = ground arith

-- On int64 values `Add` returns the exact sum when that is an int64, and panics with overflow
-- when it is not.
pub add_exact :
    (a b : Fixed)
    → IsInt64 a
    → IsInt64 b
    → (IsInt64 (a +ℤ b) × (add a b ≡ returns (a +ℤ b)))
      ⊎ ((¬ IsInt64 (a +ℤ b)) × (add a b ≡ panics overflow))
add_exact a b ha hb = elim (IsInt64-cases (a +ℤ b)) [
  | inl h ↦ inl (h, add_returns a b ha hb h)
  | inr h ↦ inr (h, add_panics a b ha hb h)
]

pub negate_exact : (a : Fixed) → IsInt64 a → neg_part a < 2 ^ 63 → negate a ≡ neg a
unfolding negate
negate_exact a h k = wrap64_id (neg a) (ground (arith, neg_parts a))

pub abs64-magnitude : (a : Fixed) → IsInt64 a → abs64 a ≡ magnitude a
unfolding abs64 wrap64 neg
abs64-magnitude a h = ground arith

diff_as_sum : (a b : ℤ) → a +ℤ neg b ≡ a -ℤ b
diff_as_sum a b = omega (arith, +ℤ_parts, -ℤ_parts, neg_parts, eq_of_parts)

pub sub_returns :
    (a b : Fixed)
    → IsInt64 a
    → IsInt64 b
    → neg_part b < 2 ^ 63
    → IsInt64 (a -ℤ b)
    → sub a b ≡ returns (a -ℤ b)
unfolding sub
sub_returns a b ha hb k h =
    rw (negate_exact b hb k, ← diff_as_sum a b)
      (add_returns a (neg b) ha (ground (arith, neg_parts b)) (rw (diff_as_sum a b) h))

sub_panics :
    (a b : Fixed)
    → IsInt64 a
    → IsInt64 b
    → neg_part b < 2 ^ 63
    → ¬ IsInt64 (a -ℤ b)
    → sub a b ≡ panics overflow
unfolding sub
sub_panics a b ha hb k h =
    rw (negate_exact b hb k)
      (add_panics a (neg b) ha (ground (arith, neg_parts b)) (rw (diff_as_sum a b) h))

-- `Sub` is exact on int64 values in the same way, with overflow exactly when the difference is no
-- int64, as long as the subtrahend is not the least int64.
pub sub_exact :
    (a b : Fixed)
    → IsInt64 a
    → IsInt64 b
    → neg_part b < 2 ^ 63
    → (IsInt64 (a -ℤ b) × (sub a b ≡ returns (a -ℤ b)))
      ⊎ ((¬ IsInt64 (a -ℤ b)) × (sub a b ≡ panics overflow))
sub_exact a b ha hb k = elim (IsInt64-cases (a -ℤ b)) [
  | inl h ↦ inl (h, sub_returns a b ha hb k h)
  | inr h ↦ inr (h, sub_panics a b ha hb k h)
]

-- For the least int64 as subtrahend `Sub` is never exact: it panics for every negative value,
-- although the difference is an int64, and for every other value it returns a number although
-- the difference is none.
pub sub_least :
    (a : Fixed)
    → IsInt64 a
    → let least = negsuc (2 ^ 63 - 1) in
      ((a <ℤ pos 0) × IsInt64 (a -ℤ least) × (sub a least ≡ panics overflow))
      ⊎ ((pos 0 ≤ℤ a) × (¬ IsInt64 (a -ℤ least)) × (sub a least ≡ returns (a +ℤ least)))
unfolding sub negate add wrap64 neg ◌+ℤ◌ ◌-ℤ◌
sub_least (pos n) h = inr (omega arith, ground arith, ground arith)
sub_least (negsuc n) h = inl (omega arith, ground arith, ground arith)
