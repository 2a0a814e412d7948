-- ===== src/Book/Walking.antt =====
-- The walk over price levels, in `VWAP` (internal/book/book.go) and `vwapOf`
-- (internal/opportunity/engine.go).
pub mod Exact
use crossvenue.Base.{List, [], ◌∷◌, if◌then◌else◌}
use crossvenue.Base.Int.{ltb_ℤ}
use crossvenue.Base.Outcome.{Outcome, returns, ◌>>=◌}
use crossvenue.Decimal.{Fixed, is_zero, add, sub, mul}
use crossvenue.Domain.{Level}

-- The variables of the loop.
pub record Walk : Type 0 where
  pub remaining : Fixed
  pub cost : Fixed
  pub filled : Fixed

-- `take`: the level's quantity, or what remains where `take.Cmp(remaining) > 0`.
abbrev pub taken : Fixed → Fixed → Fixed
taken qty remaining = if ltb_ℤ remaining qty then remaining else qty

unfoldable pub walk_level : Level → Walk → Outcome Walk
walk_level l w = do
  let t = taken l.qty w.remaining
  c ← mul l.price t
  cost ← add w.cost c
  filled ← add w.filled t
  remaining ← sub w.remaining t
  returns (record { remaining = remaining; cost = cost; filled = filled })

unfoldable pub walk : List Level → Walk → Outcome Walk
unfolding walk_level
walk [] w = returns w
walk (l ∷ ls) w = do
  w' ← walk_level l w
  let rest = walk ls w'
  if is_zero w'.remaining then returns w' else rest
