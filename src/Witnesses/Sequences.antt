-- ===== src/Witnesses/Sequences.antt =====
-- The theorems on decimals and sequence trackers at concrete inputs.
use crossvenue.Base.{List, [], ◌∷◌, ◌≡◌, ◌⊎◌, refl, ◌≤◌, ◌<◌, ◌*◌, ◌/◌, arith}
use crossvenue.Base.Int.{pos, negsuc, magnitude, ◌+ℤ◌}
use crossvenue.Base.Outcome.{returns, panics, overflow}
use crossvenue.Decimal.{add, mul_div, IsInt64, max_int64, scale}
use crossvenue.Decimal.Exact.{add_exact}
use crossvenue.Decimal.Quotient.{mul_div_exact, quotient}
use crossvenue.Seq.{okx}
use crossvenue.Seq.Gaps.{IncreasingFrom, applied, feed, applied-increasing}
use crossvenue.Domain.{BookDelta}
use crossvenue.Witnesses.{delta_at, anchored}

-- A duplicate, the next delta, a gap and an older delta.
abbrev some_deltas : List BookDelta
some_deltas =
    delta_at (pos 10) (pos 9)
    ∷ delta_at (pos 11) (pos 10)
    ∷ delta_at (pos 15) (pos 14)
    ∷ delta_at (pos 9) (pos 8)
    ∷ delta_at (pos 12) (pos 11)
    ∷ []

applied-increasing_example :
    IncreasingFrom (pos 10) (applied some_deltas (feed some_deltas (anchored okx (pos 10))).1)
applied-increasing_example = applied-increasing some_deltas (anchored okx (pos 10)) refl

add_exact_example :
    (IsInt64 (pos max_int64 +ℤ pos 1)
      × (add (pos max_int64) (pos 1) ≡ returns (pos max_int64 +ℤ pos 1)))
    ⊎ ((¬ IsInt64 (pos max_int64 +ℤ pos 1)) × (add (pos max_int64) (pos 1) ≡ panics overflow))
add_exact_example = add_exact (pos max_int64) (pos 1) (omega arith) (omega arith)

mul_div_exact_example :
    ((magnitude (pos 7) * magnitude (pos scale) / magnitude (negsuc 1) ≤ max_int64)
      × (mul_div (pos 7) (pos scale) (negsuc 1)
          ≡ returns (quotient (pos 7) (pos scale) (negsuc 1))))
    ⊎ ((max_int64 < magnitude (pos 7) * magnitude (pos scale) / magnitude (negsuc 1))
        × (mul_div (pos 7) (pos scale) (negsuc 1) ≡ panics overflow))
mul_div_exact_example =
    mul_div_exact (pos 7) (pos scale) (negsuc 1) (omega arith) (omega arith) (omega arith) (λ e. cc)
