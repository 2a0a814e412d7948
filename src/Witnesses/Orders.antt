-- ===== src/Witnesses/Orders.antt =====
-- The theorems on orders at concrete inputs.
use crossvenue.Base.{none, some, [], ◌∷◌, ◌≡◌, refl, true, false, arith}
use crossvenue.Base.Int.{pos, neg, ◌+ℤ◌}
use crossvenue.Domain.{buy, sell}
use crossvenue.Decimal.{add, sub, mul, div, mul_bps, mul_div, wrap64, negate}
use crossvenue.Book.{SnapshotView}
use crossvenue.Execution.{
  Order, pending, partially_filled, filled, cancelled, rejected, ioc_limit, can_transition, fill,
}
use crossvenue.Execution.Filling.{LegOutcome, fill_against_book, no_leg}
use crossvenue.Execution.Simulating.{new_simulator, submit, Executed}
use crossvenue.Execution.Fills.{FillDone, fill-done}
use crossvenue.Execution.Legs.{Fits, fill_against_book-Fits}
use crossvenue.Execution.Orders.{submit_once}

-- An order for 2 at 101.
abbrev order : Order
order = record {
  id = 1;
  client_order_id = "c1";
  venue = "a";
  symbol = "BTC";
  side = buy;
  type = ioc_limit;
  price = pos 10100000000;
  quantity = pos 200000000;
  filled_quantity = pos 0;
  avg_fill_price = pos 0;
  state = pending;
  created_at = pos 0;
  updated_at = pos 0;
}

abbrev done : Order
done = record order { state = filled; filled_quantity = pos 200000000 }

abbrev half_filled : Order
half_filled = record order {
  filled_quantity = pos 100000000;
  avg_fill_price = pos 10000000000;
  state = partially_filled;
  updated_at = pos 1;
}

fill-done_example : FillDone order (pos 100000000) half_filled
unfolding fill add mul div wrap64 ◌+ℤ◌ mul_div can_transition
fill-done_example =
    fill-done (pos 10000000000) (pos 100000000) (pos 1) order {o' = half_filled} refl

-- A view with one ask of 1 at 100.
abbrev shallow : SnapshotView
shallow = record {
  venue = "a";
  symbol = "BTC";
  bids = [];
  asks = record { price = pos 10000000000; qty = pos 100000000 } ∷ [];
  state = record {
    ready = true;
    stale = false;
    sequence = pos 1;
    last_updated_at = pos 0;
    version = 1;
  };
}

abbrev one_leg : LegOutcome
one_leg = record {
  order = record half_filled { state = cancelled };
  leg = record {
    filled_qty = pos 100000000;
    vwap = pos 10000000000;
    notional = pos 10000000000;
    fee = pos 10000000;
    rejected_not_ready = false;
  };
  error = none;
  fills =
      record {
        order_id = 1;
        venue = "a";
        symbol = "BTC";
        side = buy;
        price = pos 10000000000;
        qty = pos 100000000;
        fee = pos 10000000;
        at = pos 1;
      }
      ∷ [];
}

fill_against_book-Fits_example : Fits order one_leg.order
unfolding fill_against_book sub add negate wrap64 neg ◌+ℤ◌ mul mul_bps div can_transition
fill_against_book-Fits_example =
    fill_against_book-Fits (some shallow) (pos 10) (pos 1) order {out = one_leg} (omega arith) refl

submit_once_example :
    submit (record order { quantity = pos 5 }) (pos 9) (submit order (pos 1) new_simulator).0
    ≡ submit order (pos 1) new_simulator
submit_once_example =
    submit_once order (record order { quantity = pos 5 }) (pos 1) (pos 9) new_simulator refl

abbrev sell_order : Order
sell_order = record order { id = 2; client_order_id = "c2"; side = sell }

-- What is left when the buy leg fills 1 and the sell leg finds no book.
abbrev executed : Executed
executed = record {
  buy_order = one_leg.order;
  sell_order = record sell_order { state = rejected; updated_at = pos 1 };
  result = record {
    buy_leg = one_leg.leg;
    sell_leg = record no_leg { rejected_not_ready = true };
    residual_qty = pos 100000000;
    realized_pnl = pos 0;
  };
  error = none;
  fills = one_leg.fills;
}
