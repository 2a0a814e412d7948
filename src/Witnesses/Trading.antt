-- ===== src/Witnesses/Trading.antt =====
-- The theorems on opportunities, risk, balances and orders at concrete inputs.
use crossvenue.Base.{Option, some, [], ◌∷◌, refl, true, false}
use crossvenue.Base.Int.{pos, negsuc, int_eq, ◌-ℤ◌, ◌+ℤ◌, ◌*ℤ◌, neg}
use crossvenue.Base.Dict.{insert, lookup}
use crossvenue.Base.Outcome.{Outcome, returns}
use crossvenue.Domain.{Venue}
use crossvenue.Decimal.{
  Fixed, add, sub, mul, div, mul_div, mul_int, mul_bps, wrap64, negate, abs64, mul64, div64,
}
use crossvenue.Book.{Book, load_snapshot, load_side, emit, snapshot as view, depth, resort, average}
use crossvenue.Book.Walking.{walk, walk_level}
use crossvenue.Book.Sort.{sort_levels, insert_level}
use crossvenue.Manager.{Manager, fresh, since, overlay_stale, snapshot}
use crossvenue.Opportunity.{
  Engine, Opportunity, evaluate_pair, penalty, total_us, costs_of, edge_of, vwap_of,
}
use crossvenue.Opportunity.Gates.{IsTradable, evaluate_pair-emits}
use crossvenue.Risk.{Limits, State, Exposure, Request, check_opportunity}
use crossvenue.Risk.Gates.{AllPass, allowed_passes}
use crossvenue.Witnesses.{level, full_snapshot}

-- A book with one level a side.
abbrev thin_book : Venue → Fixed → Fixed → Book
thin_book v bid ask =
    load_snapshot
      (record (full_snapshot v (pos 10)) {
        bids = level bid (pos 200000000) ∷ [];
        asks = level ask (pos 200000000) ∷ [];
      })
      (fresh (pos 0) v "BTC")

-- Venue "a" asks 100, venue "b" bids 110.
abbrev pub two_books : Manager
two_books = record {
  books =
      ("a|BTC", thin_book "a" (pos 9900000000) (pos 10000000000))
      ∷ ("b|BTC", thin_book "b" (pos 11000000000) (pos 11100000000))
      ∷ [];
  max_age = pos 0;
}

abbrev pub engine : Engine
engine = record {
  fees = λ v. record { taker_bps = pos 10; maker_bps = pos 0 };
  latency = record { penalty_bps_per_ms = pos 1; outbound_us = λ v. pos 1500; decision_us = pos 0 };
  cfg = record {
    min_profit = pos 0;
    min_edge_bps = pos 5;
    max_quote_age = pos 1000;
    trade_quantity = pos 100000000;
    slippage_bps = pos 2;
  };
}

-- What the engine finds between them: it buys 1 at 100 and sells it at 110.
abbrev pub found : Opportunity
found = record {
  id = 1;
  symbol = "BTC";
  buy_venue = "a";
  sell_venue = "b";
  quantity = pos 100000000;
  buy_vwap = pos 10000000000;
  sell_vwap = pos 11000000000;
  gross_pnl = pos 1000000000;
  fees = pos 21000000;
  slippage_penalty = pos 2000000;
  latency_penalty = pos 3000000;
  expected_net_pnl = pos 974000000;
  edge_bps = pos 974;
  buy_quote_age = pos 1;
  sell_quote_age = pos 1;
  detected_at = pos 3;
}

evaluate_pair-emits_example :
    IsTradable engine
      (pos 3)
      found
      (snapshot (pos 3) "a" "BTC" 256 two_books)
      (snapshot (pos 3) "b" "BTC" 256 two_books)
unfolding evaluate_pair load_snapshot emit snapshot lookup ◌-ℤ◌ walk sort_levels load_side insert
    mul add wrap64 ◌+ℤ◌ sub neg average div mul_bps mul_int ◌*ℤ◌ insert_level walk_level depth
    resort view abs64 div64 mul64 mul_div negate overlay_stale since costs_of edge_of penalty
    total_us vwap_of
evaluate_pair-emits_example =
    evaluate_pair-emits engine two_books (pos 3) (pos 3) "BTC" "a" "b" 0 {n = 1} {o = found} refl

abbrev pub limits : Limits
limits = record {
  max_trade_notional = pos 100000000000;
  max_symbol_exposure = pos 0;
  max_venue_exposure = pos 100000000000;
  max_total_exposure = pos 0;
  min_expected_edge = pos 1;
  max_quote_age = pos 1000;
  max_book_age = pos 1000;
  max_outstanding = pos 4;
  max_consecutive_fails = pos 3;
  daily_loss_limit = pos 1000;
  kill_switch = false;
}

abbrev pub calm : State
calm = record { kill = false; kill_reason = ""; consecutive_fails = 0; outstanding = 0 }

abbrev exposed : Exposure
exposed = record {
  venue_exposure = λ v. returns (pos 100000000);
  total_exposure = returns (pos 100000000);
  realized = negsuc 9;
}

abbrev mids : Venue → Outcome (Option Fixed)
mids v = returns (some (pos 10000000000))

abbrev request : Request
request = record {
  now = pos 3;
  symbol = "BTC";
  buy_venue = "a";
  sell_venue = "b";
  qty = pos 100000000;
  buy_vwap = pos 10000000000;
  expected_net = pos 974000000;
}

allowed_passes_example : AllPass limits calm exposed two_books (pos 3) mids request
unfolding check_opportunity load_snapshot emit mul snapshot lookup ◌-ℤ◌ wrap64 neg
allowed_passes_example =
    allowed_passes limits calm exposed two_books (pos 3) mids request
      (record { allowed = true; reasons = [] }) refl refl
