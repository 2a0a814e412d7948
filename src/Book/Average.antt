-- ===== src/Book/Average.antt =====
-- `VWAP` of internal/book/book.go against exact numbers.
use crossvenue.Base.{
  ℕ, ◌-◌, ◌*◌, ◌/◌, ◌≤◌, ◌<◌, min, true, List, [], ◌∷◌, ◌≡◌, ◌⊎◌, inl, inr, refl, ◌∙◌, arith,
  if◌then◌else◌, leb, le_or_lt, ◌^◌,
}
use crossvenue.Base.Int.{pos, pos_part, ltb_ℤ}
use crossvenue.Base.Lists.{All}
use crossvenue.Base.Outcome.{Outcome, returns, panics, overflow, ◌>>=◌}
use crossvenue.Decimal.{max_int64, scale}
use crossvenue.Decimal.Whole.{div_pos}
use crossvenue.Domain.{Level, Side}
use crossvenue.Book.{Average, no_average, average, vwap, depth, Book}
use crossvenue.Book.Walking.{walk}
use crossvenue.Book.Walking.Exact.{
  IsSane, offered, exact_cost, exact_cost-le, whole, walk_returns, walk_panics, same_walk,
}

-- The average that a quantity `q` gets from these levels, by exact numbers.
abbrev pub exact_average : List Level → ℕ → Average
exact_average ls q = if leb (offered ls) 0 then no_average else (
  pos (exact_cost ls q * scale / min (offered ls) q),
  pos (min (offered ls) q),
  pos (exact_cost ls q),
  leb q (offered ls),
)

-- How a walk for `q` and its average must end: with the exact average when the exact cost is an
-- int64, and with overflow otherwise.
abbrev pub IsExact : List Level → ℕ → Outcome Average → Type 0
IsExact ls q o =
    ((exact_cost ls q ≤ max_int64) × (o ≡ returns (exact_average ls q)))
    ⊎ ((max_int64 < exact_cost ls q) × (o ≡ panics overflow))

sane_prices : (ls : List Level) → All IsSane ls → All (λ l. pos_part l.price ≤ max_int64) ls
sane_prices [] h = tt
sane_prices (l ∷ ls) h = (h.0.3, sane_prices ls h.1)

-- The average is at most the highest price.
average_le :
    (p : ℕ) (ls : List Level) (q : ℕ)
    → All (λ l. pos_part l.price ≤ p) ls
    → 0 < min (offered ls) q
    → exact_cost ls q * scale / min (offered ls) q ≤ p
average_le p ls q s h = let c = exact_cost-le p ls q s in grind (arith, c)

pub average_of_walk :
    (ls : List Level) (q : ℕ)
    → All IsSane ls
    → 0 < q
    → q ≤ max_int64
    → exact_cost ls q ≤ max_int64
    → average (whole (q - offered ls) (exact_cost ls q) (min (offered ls) q))
      ≡ returns (exact_average ls q)
unfolding average
average_of_walk ls q s p h k = elim (le_or_lt (offered ls) 0) [
  | inl e ↦ ground arith
  | inr e ↦ ground (
    arith,
    div_pos (exact_cost ls q) (min (offered ls) q) k (omega arith) (omega arith)
        (average_le max_int64 ls q (sane_prices ls s) (omega arith)),
  )
]

walk_from_zero :
    (ls : List Level) (q : ℕ)
    → All IsSane ls
    → q ≤ max_int64
    → exact_cost ls q ≤ max_int64
    → walk ls (whole q 0 0)
      ≡ returns (whole (q - offered ls) (exact_cost ls q) (min (offered ls) q))
walk_from_zero ls q s h k =
    walk_returns ls q 0 0 s (omega arith) (omega arith) ∙ same_walk refl (omega arith) (omega arith)

pub walk-IsExact :
    (ls : List Level) (q : ℕ)
    → All IsSane ls
    → 0 < q
    → q ≤ max_int64
    → IsExact ls q (walk ls (whole q 0 0) >>= average)
walk-IsExact ls q s p h = elim (le_or_lt (exact_cost ls q) max_int64) [
  | inl k ↦ inl (k, rw (walk_from_zero ls q s h k) (average_of_walk ls q s p h k))
  | inr k ↦ inr (k, rw (walk_panics ls q 0 0 s (omega arith) (omega arith) (omega arith)))
]

-- `VWAP` for a positive int64 quantity, on a side whose levels have prices that are not negative
-- and positive quantities: when the exact cost fits an int64 it returns that cost, the quantity
-- filled, which is the smaller of the request and the depth, the cost per unit filled, and
-- whether the depth sufficed; when the cost does not fit, it panics with overflow.
pub vwap-IsExact :
    (side : Side) (q : ℕ) (b : Book)
    → All IsSane (depth side (2 ^ 30) b).1
    → 0 < q
    → q ≤ max_int64
    → IsExact (depth side (2 ^ 30) b).1 q (vwap side (pos q) b)
unfolding vwap
vwap-IsExact side q b s p h =
    let e : ltb_ℤ (pos 0) (pos q) ≡ true = ground arith in
    rw e (walk-IsExact (depth side (2 ^ 30) b).1 q s p h)

exact_average-le :
    (p q : ℕ) (ls : List Level)
    → 0 < q
    → All (λ l. pos_part l.price ≤ p) ls
    → pos_part (exact_average ls q).0 ≤ p
exact_average-le p q ls h s = elim (le_or_lt (offered ls) 0) [
  | inl e ↦ ground arith
  | inr e ↦ ground (arith, average_le p ls q s (omega arith))
]

-- For a positive int64 quantity on a side of sane levels whose exact cost fits an int64, `VWAP` returns an average price that is no higher than any
-- bound on the prices of the side's levels, and fills no more than was asked.
pub vwap_bounds :
    (p : ℕ) (side : Side) (q : ℕ) (b : Book)
    → All IsSane (depth side (2 ^ 30) b).1
    → All (λ l. pos_part l.price ≤ p) (depth side (2 ^ 30) b).1
    → 0 < q
    → q ≤ max_int64
    → exact_cost (depth side (2 ^ 30) b).1 q ≤ max_int64
    → (a : Average) × (vwap side (pos q) b ≡ returns a) × (pos_part a.0 ≤ p) × (pos_part a.1 ≤ q)
vwap_bounds p side q b s t h k fits =
    let ls = (depth side (2 ^ 30) b).1 in
    (
      exact_average ls q,
      elim (vwap-IsExact side q b s h k) [ inl e ↦ e.1 | inr e ↦ absurd (omega arith) ],
      exact_average-le p q ls h t,
      ground arith,
    )
