-- ===== src/Decimal/Whole.antt =====
-- The checked arithmetic of pkg/decimal/decimal.go on values that are not negative.
use crossvenue.Base.{ap, ◌∙◌, ℕ, ◌+◌, ◌-◌, ◌*◌, ◌/◌, ◌≤◌, ◌<◌, ◌≡◌, arith}
use crossvenue.Base.Int.{pos, ◌+ℤ◌, ◌-ℤ◌}
use crossvenue.Base.Outcome.{returns, panics, overflow}
use crossvenue.Decimal.{add, sub, mul, div, max_int64, scale}
use crossvenue.Decimal.Exact.{add_returns, add_panics, sub_returns}
use crossvenue.Decimal.Quotient.{mul_div_exact}

pos-+ℤ : (a b : ℕ) → pos a +ℤ pos b ≡ pos (a + b)
unfolding ◌+ℤ◌
pos-+ℤ a b = ground arith

pos--ℤ : (a b : ℕ) → b ≤ a → pos a -ℤ pos b ≡ pos (a - b)
unfolding ◌-ℤ◌
pos--ℤ a b h = ground arith

pub add_pos : (a b : ℕ) → a + b ≤ max_int64 → add (pos a) (pos b) ≡ returns (pos (a + b))
add_pos a b h =
    add_returns (pos a) (pos b) (omega arith) (omega arith) (rw (pos-+ℤ a b) (omega arith))
    ∙ ap returns (pos-+ℤ a b)

pub add_pos_overflow :
    (a b : ℕ)
    → a ≤ max_int64
    → b ≤ max_int64
    → max_int64 < a + b
    → add (pos a) (pos b) ≡ panics overflow
add_pos_overflow a b ha hb h =
    add_panics (pos a) (pos b) (omega arith) (omega arith) (rw (pos-+ℤ a b) (λ k. omega arith))

pub sub_pos : (a b : ℕ) → b ≤ a → a ≤ max_int64 → sub (pos a) (pos b) ≡ returns (pos (a - b))
sub_pos a b h k =
    sub_returns (pos a) (pos b) (omega arith) (omega arith) (omega arith)
      (rw (pos--ℤ a b h) (omega arith))
    ∙ ap returns (pos--ℤ a b h)

pub mul_pos :
    (a b : ℕ)
    → a ≤ max_int64
    → b ≤ max_int64
    → a * b / scale ≤ max_int64
    → mul (pos a) (pos b) ≡ returns (pos (a * b / scale))
unfolding mul
mul_pos a b ha hb h = ground (
  arith,
  mul_div_exact (pos a) (pos b) (pos scale) (omega arith) (omega arith) (omega arith) (λ e. cc),
)

pub mul_pos_overflow :
    (a b : ℕ)
    → a ≤ max_int64
    → b ≤ max_int64
    → max_int64 < a * b / scale
    → mul (pos a) (pos b) ≡ panics overflow
unfolding mul
mul_pos_overflow a b ha hb h = ground (
  arith,
  mul_div_exact (pos a) (pos b) (pos scale) (omega arith) (omega arith) (omega arith) (λ e. cc),
)

pub div_pos :
    (a b : ℕ)
    → a ≤ max_int64
    → 0 < b
    → b ≤ max_int64
    → a * scale / b ≤ max_int64
    → div (pos a) (pos b) ≡ returns (pos (a * scale / b))
unfolding div
div_pos a b ha pb hb h = ground (
  arith,
  mul_div_exact (pos a) (pos scale) (pos b) (omega arith) (omega arith) (omega arith)
      (λ e. ground arith),
)
