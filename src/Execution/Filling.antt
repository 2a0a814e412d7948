-- ===== src/Execution/Filling.antt =====
-- The fills of an order against a published view (internal/execution/execution.go).
use crossvenue.Base.{
  ℕ, Bool, true, false, not, ◌&&◌, ◌||◌, Option, none, some, String, List, [], ◌∷◌, ◌++◌,
  if◌then◌else◌, string_eq, nat_eq,
}
use crossvenue.Base.Int.{ℤ, pos, ltb_ℤ}
use crossvenue.Base.Outcome.{Outcome, returns, ◌>>=◌}
use crossvenue.Decimal.{Fixed, add, sub, mul, mul_bps, is_zero}
use crossvenue.Domain.{Venue, Price, Quantity, Money, Time, Side, buy, sell, Level}
use crossvenue.Book.{SnapshotView}
use crossvenue.Book.Walking.{taken}
use crossvenue.Execution.{
  OrderType, market, ioc_limit, cancelled, rejected, Order, OrderError, book_not_ready, transition,
  is_partial, fill,
}

pub record FillEvent : Type 0 where
  pub order_id : ℕ
  pub venue : Venue
  pub symbol : String
  pub side : Side
  pub price : Price
  pub qty : Quantity
  pub fee : Money
  pub at : Time

pub record LegResult : Type 0 where
  pub filled_qty : Fixed
  pub vwap : Price
  pub notional : Money
  pub fee : Money
  pub rejected_not_ready : Bool  -- `RejectCause`

abbrev pub no_leg : LegResult
no_leg = record {
  filled_qty = pos 0;
  vwap = pos 0;
  notional = pos 0;
  fee = pos 0;
  rejected_not_ready = false;
}

-- The variables of the fill loop, the order and the sink among them.
pub record Filling : Type 0 where
  pub order : Order
  pub remaining : Fixed
  pub total_cost : Fixed
  pub total_filled : Fixed
  pub total_fee : Fixed
  pub sunk : List FillEvent

-- Whether a level is beyond the limit price of an IOC order.
abbrev pub beyond_side : Side → Fixed → Fixed → Bool
beyond_side buy level limit = ltb_ℤ limit level
beyond_side sell level limit = ltb_ℤ level limit

abbrev pub beyond_limit : OrderType → Side → Fixed → Fixed → Bool
beyond_limit market side level limit = false
beyond_limit ioc_limit side level limit = beyond_side side level limit

-- The end of a round: an error of `Fill` ends the loop before the sink hears of the fill.
unfoldable pub sink_fill :
    FillEvent → Filling → Order × Option OrderError → Filling × Option OrderError
sink_fill ev f (o, some e) = (record f { order = o }, some e)
sink_fill ev f (o, none) = (record f { order = o; sunk = f.sunk ++ (ev ∷ []) }, none)

-- A round of the loop, after its two breaks.
unfoldable pub fill_level : ℤ → Time → Level → Filling → Outcome (Filling × Option OrderError)
unfolding sink_fill fill
fill_level fee_bps at l f = do
  let take = taken l.qty f.remaining
  gross ← mul l.price take
  fee ← mul_bps gross fee_bps
  gross2 ← mul l.price take
  cost ← add f.total_cost gross2
  fees ← add f.total_fee fee
  total ← add f.total_filled take
  remaining ← sub f.remaining take
  r ← fill l.price take at f.order
  returns (
      sink_fill
        (record {
          order_id = f.order.id;
          venue = f.order.venue;
          symbol = f.order.symbol;
          side = f.order.side;
          price = l.price;
          qty = take;
          fee = fee;
          at = at;
        })
        (record f {
          remaining = remaining;
          total_cost = cost;
          total_filled = total;
          total_fee = fees;
        })
        r)

-- What follows a round: the rest of the loop, unless there was an error.
abbrev pub unless_error :
    (Filling → Outcome (Filling × Option OrderError))
    → Filling × Option OrderError
    → Outcome (Filling × Option OrderError)
unless_error k (f, some e) = returns (f, some e)
unless_error k (f, none) = k f

unfoldable pub fill_levels : ℤ → Time → List Level → Filling → Outcome (Filling × Option OrderError)
unfolding fill_level
fill_levels fee_bps at [] f = returns (f, none)
fill_levels fee_bps at (l ∷ ls) f =
    if is_zero f.remaining || beyond_limit f.order.type f.order.side l.price f.order.price
    then returns (f, none)
    else (fill_level fee_bps at l f >>= unless_error (λ f'. fill_levels fee_bps at ls f'))

-- The outcome of `FillAgainstBook`: the order, the leg, the error and what the sink was sent.
pub record LegOutcome : Type 0 where
  pub order : Order
  pub leg : LegResult
  pub error : Option OrderError
  pub fills : List FillEvent

abbrev pub leg_of : Filling → LegResult
leg_of f = record {
  filled_qty = f.total_filled;
  vwap = f.order.avg_fill_price;
  notional = f.total_cost;
  fee = f.total_fee;
  rejected_not_ready = false;
}

unfoldable pub is_ioc : OrderType → Bool
is_ioc market = false
is_ioc ioc_limit = true

unfoldable pub finish_cancel : Filling → Order × Option OrderError → LegOutcome
finish_cancel f (o, some e) = record { order = o; leg = no_leg; error = some e; fills = f.sunk }
finish_cancel f (o, none) = record { order = o; leg = leg_of f; error = none; fills = f.sunk }

-- After the loop: an IOC order that is partially filled is cancelled.
unfoldable pub finish : Time → Filling × Option OrderError → LegOutcome
unfolding finish_cancel is_ioc transition
finish at (f, some e) = record { order = f.order; leg = no_leg; error = some e; fills = f.sunk }
finish at (f, none) =
    if is_ioc f.order.type && is_partial f.order.state
    then finish_cancel f (transition cancelled at f.order)
    else record { order = f.order; leg = leg_of f; error = none; fills = f.sunk }

unfoldable pub reject_result : Order × Option OrderError → LegOutcome
reject_result (o, some e) = record { order = o; leg = no_leg; error = some e; fills = [] }
reject_result (o, none) = record {
  order = o;
  leg = record no_leg { rejected_not_ready = true };
  error = some book_not_ready;
  fills = [];
}

abbrev pub side_levels : Side → SnapshotView → List Level
side_levels buy v = v.asks
side_levels sell v = v.bids

unfoldable pub start_filling : Order → Fixed → Filling
start_filling o remaining = record {
  order = o;
  remaining = remaining;
  total_cost = pos 0;
  total_filled = pos 0;
  total_fee = pos 0;
  sunk = [];
}

unfoldable pub fill_ready : SnapshotView → ℤ → Time → Order → Outcome LegOutcome
unfolding fill_levels finish start_filling
fill_ready v fee_bps at o = do
  remaining ← sub o.quantity o.filled_quantity
  r ← fill_levels fee_bps at (side_levels o.side v) (start_filling o remaining)
  returns (finish at r)

-- `FillAgainstBook`, on the view that the manager gives for the order's venue and symbol, and the
-- venue's taker fee.
unfoldable pub fill_against_book : Option SnapshotView → ℤ → Time → Order → Outcome LegOutcome
unfolding fill_ready reject_result transition
fill_against_book none fee_bps at o = returns (reject_result (transition rejected at o))
fill_against_book (some v) fee_bps at o =
    if not v.state.ready
    then returns (reject_result (transition rejected at o))
    else fill_ready v fee_bps at o
