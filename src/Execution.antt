-- ===== src/Execution.antt =====
-- internal/execution/execution.go: simulated orders, their state machine and a single fill; the fill
-- loop is Execution/Filling, the simulator and the two legs of an arbitrage Execution/Simulating. An
-- order changes in place in the source; here each step returns it. The number of an order's
-- identifier "ord-N" stands for the identifier.
use crossvenue.Base.{
  ℕ, ◌+◌, Bool, true, false, not, ◌&&◌, ◌||◌, Option, none, some, String, List, [], ◌∷◌, ◌++◌,
  if◌then◌else◌, string_eq, nat_eq,
}
use crossvenue.Base.Int.{ℤ, pos, ltb_ℤ, eqb_ℤ}
use crossvenue.Base.Dict.{Dict, lookup, insert}
use crossvenue.Base.Outcome.{Outcome, returns, ◌>>=◌}
use crossvenue.Decimal.{Fixed, add, sub, mul, div, mul_bps, is_zero, is_negative, is_positive}
use crossvenue.Domain.{Venue, Price, Quantity, Money, Time, Side, buy, sell, Level}
use crossvenue.Book.{SnapshotView}
use crossvenue.Book.Walking.{taken}
pub mod Filling
pub mod Simulating
pub mod States
pub mod Fills
pub mod Legs
pub mod Arbitrage
pub mod Orders

pub data OrderType : Type 0 where
  market ioc_limit : OrderType

pub data OrderState : Type 0 where
  pending accepted partially_filled filled cancel_pending cancelled rejected expired : OrderState

-- `validTransitions` with `CanTransition`.
unfoldable pub can_transition : OrderState → OrderState → Bool
can_transition pending accepted = true
can_transition pending rejected = true
can_transition pending cancelled = true
can_transition pending expired = true
can_transition accepted partially_filled = true
can_transition accepted filled = true
can_transition accepted cancel_pending = true
can_transition accepted cancelled = true
can_transition accepted expired = true
can_transition partially_filled partially_filled = true
can_transition partially_filled filled = true
can_transition partially_filled cancel_pending = true
can_transition partially_filled cancelled = true
can_transition partially_filled expired = true
can_transition cancel_pending cancelled = true
can_transition cancel_pending partially_filled = true
can_transition cancel_pending filled = true
can_transition _ _ = false

pub record Order : Type 0 where
  pub id : ℕ
  pub client_order_id : String
  pub venue : Venue
  pub symbol : String
  pub side : Side
  pub type : OrderType
  pub price : Price
  pub quantity : Quantity
  pub filled_quantity : Quantity
  pub avg_fill_price : Price
  pub state : OrderState
  pub created_at : Time
  pub updated_at : Time

pub data OrderError : Type 0 where
  illegal_transition : OrderState → OrderState → OrderError
  fill_not_positive overfill book_not_ready : OrderError

unfoldable pub transition : OrderState → Time → Order → Order × Option OrderError
transition to at o =
    if not (can_transition o.state to)
    then (o, some (illegal_transition o.state to))
    else (record o { state = to; updated_at = at }, none)

abbrev pub is_pending : OrderState → Bool
is_pending pending = true
is_pending _ = false

abbrev pub is_partial : OrderState → Bool
is_partial partially_filled = true
is_partial _ = false

-- The last step of `Fill`, once the order is no longer pending.
settle : Bool → Time → Order × Option OrderError → Order × Option OrderError
unfolding transition
settle complete at (o, some e) = (o, some e)
settle complete at (o, none) = transition (if complete then filled else partially_filled) at o

-- The end of `Fill`, once the new filled quantity is known to fit.
enter : Price → Fixed → Time → Order → Fixed → Outcome (Order × Option OrderError)
unfolding transition settle
enter price qty at o new_filled = do
  before ← mul o.avg_fill_price o.filled_quantity
  now ← mul price qty
  new_cost ← add before now
  average ← div new_cost new_filled
  let o' = record o { filled_quantity = new_filled; avg_fill_price = average }
  let ready = if is_pending o'.state then transition accepted at o' else (o', none)
  returns (settle (eqb_ℤ new_filled o.quantity) at ready)

unfoldable pub fill : Price → Fixed → Time → Order → Outcome (Order × Option OrderError)
unfolding enter
fill price qty at o =
    if is_zero qty || is_negative qty then returns (o, some fill_not_positive) else do
      new_filled ← add o.filled_quantity qty
      if ltb_ℤ o.quantity new_filled
          then returns (o, some overfill)
          else enter price qty at o new_filled
