-- ===== src/Execution/Simulating.antt =====
-- The simulator's orders, and the two legs of an arbitrage (internal/execution/execution.go).
use crossvenue.Base.{
  ℕ, ◌+◌, Option, none, some, String, List, [], ◌++◌, map, if◌then◌else◌, string_eq, nat_eq,
}
use crossvenue.Base.Int.{ℤ, pos, ltb_ℤ}
use crossvenue.Base.Dict.{Dict, lookup, insert}
use crossvenue.Base.Outcome.{Outcome, returns, ◌>>=◌}
use crossvenue.Decimal.{add, sub, mul, is_positive}
use crossvenue.Domain.{Quantity, Money, Time}
use crossvenue.Book.{SnapshotView}
use crossvenue.Execution.{pending, Order, OrderError, book_not_ready}
use crossvenue.Execution.Filling.{FillEvent, LegResult, LegOutcome, fill_against_book}

-- `Simulator`: the orders by number, and the numbers by client order identifier, which stand for
-- the two maps of pointers; and the counter.
pub record Simulator : Type 0 where
  pub by_id : Dict ℕ Order
  pub by_clo_id : Dict String ℕ
  pub ctr : ℕ

abbrev pub new_simulator : Simulator
new_simulator = record { by_id = []; by_clo_id = []; ctr = 0 }

unfoldable pub submit_found : Order → Time → Simulator → Option ℕ → Simulator × ℕ
submit_found o at s (some n) = (s, n)
submit_found o at s none =
    let n = s.ctr + 1 in
    (
      record {
        by_id =
            insert n (record o { id = n; state = pending; created_at = at; updated_at = at })
              s.by_id;
        by_clo_id = insert o.client_order_id n s.by_clo_id;
        ctr = n;
      },
      n,
    )

-- `Submit`, which never fails; the number returned stands for the pointer to the order.
unfoldable pub submit : Order → Time → Simulator → Simulator × ℕ
unfolding submit_found
submit o at s = submit_found o at s (lookup o.client_order_id s.by_clo_id)

-- `Get`
abbrev pub get_order : ℕ → Simulator → Option Order
get_order n s = lookup n s.by_id

-- `Orders`, in the order of the association list; Go's map iteration has no order.
unfoldable pub orders : Simulator → List Order
orders s = map (λ e. e.1) s.by_id

pub data Policy : Type 0 where
  parallel buy_first sell_first : Policy

pub record Result : Type 0 where
  pub buy_leg : LegResult
  pub sell_leg : LegResult
  pub residual_qty : Quantity
  pub realized_pnl : Money

-- Both orders after an execution, the result, the error, and the fills in the sink's order.
pub record Executed : Type 0 where
  pub buy_order : Order
  pub sell_order : Order
  pub result : Result
  pub error : Option OrderError
  pub fills : List FillEvent

-- The closure `run` keeps the last error that is not about the book.
abbrev pub kept_error : Option OrderError → Option OrderError → Option OrderError
kept_error err none = err
kept_error err (some book_not_ready) = err
kept_error err (some e) = some e

-- What the two legs leave, bought first or sold first.
merge_legs : Policy → LegOutcome → LegOutcome → Option OrderError × List FillEvent
merge_legs sell_first b s = (kept_error (kept_error none s.error) b.error, s.fills ++ b.fills)
merge_legs _ b s = (kept_error (kept_error none b.error) s.error, b.fills ++ s.fills)

-- The end of `ExecuteArbitrage`: the residual, and the profit on the matched quantity.
unfoldable pub combine_legs : LegResult → LegResult → Outcome Result
combine_legs b s = do
  residual ← sub b.filled_qty s.filled_qty
  let matched = if ltb_ℤ s.filled_qty b.filled_qty then s.filled_qty else b.filled_qty
  if is_positive matched
      then (do
        buy_cost ← mul b.vwap matched
        sell_proceeds ← mul s.vwap matched
        fees ← add b.fee s.fee
        gross ← sub sell_proceeds buy_cost
        pnl ← sub gross fees
        returns (record { buy_leg = b; sell_leg = s; residual_qty = residual; realized_pnl = pnl }))
      else returns
          (record { buy_leg = b; sell_leg = s; residual_qty = residual; realized_pnl = pos 0 })

-- A leg's view and fee, as the simulator looks them up for the order's venue.
abbrev pub Market : Type 0
Market = Option SnapshotView × ℤ

abbrev pub run_leg : Market → Time → Order → Outcome LegOutcome
run_leg m at o = fill_against_book m.0 m.1 at o

unfoldable pub run_legs :
    Policy → Market → Market → Time → Order → Order → Outcome (LegOutcome × LegOutcome)
unfolding fill_against_book
run_legs sell_first mb ms at bo so = do s ← run_leg ms at so; b ← run_leg mb at bo; returns (b, s)
run_legs _ mb ms at bo so = do b ← run_leg mb at bo; s ← run_leg ms at so; returns (b, s)

-- `ExecuteArbitrage`, on two orders that are not one.
unfoldable pub execute_arbitrage :
    Policy → Market → Market → Time → Order → Order → Outcome Executed
unfolding run_legs merge_legs combine_legs
execute_arbitrage pol mb ms at bo so = do
  legs ← run_legs pol mb ms at bo so
  r ← combine_legs legs.0.leg legs.1.leg
  let m = merge_legs pol legs.0 legs.1
  returns (record {
    buy_order = legs.0.order;
    sell_order = legs.1.order;
    result = r;
    error = m.0;
    fills = m.1;
  })
