-- ===== src/Opportunity.antt =====
-- internal/opportunity/engine.go: opportunities between two venues, priced by depth and costs.
-- The rejection channel takes each rejection or drops it; here it is part of the result.
pub mod Gates
use crossvenue.Base.{
  ℕ, ◌+◌, ◌%◌, ◌^◌, Bool, true, false, not, ◌&&◌, ◌||◌, Option, none, some, String, List, [], ◌∷◌,
  ◌++◌, if◌then◌else◌, ◌==◌, string_eq, ◌/◌,
}
use crossvenue.Base.Int.{ℤ, pos, negsuc, pos_part, sub_ℕ, ◌+ℤ◌, ltb_ℤ, leb_ℤ}
use crossvenue.Base.Outcome.{Outcome, returns, panics, ◌>>=◌}
use crossvenue.Decimal.{Fixed, wrap64, scale, add, sub, mul_int, mul_bps, div}
use crossvenue.Domain.{Venue, Time, Price, Quantity, Money, Level}
use crossvenue.Book.{SnapshotView, Average, average}
use crossvenue.Book.Walking.{walk}
use crossvenue.Manager.{Manager, Duration, since, snapshot}

-- `FeeSchedule`, in basis points; a venue that is missing has the zero fees.
pub record Fees : Type 0 where
  pub taker_bps : ℤ
  pub maker_bps : ℤ

pub record LatencyModel : Type 0 where
  pub penalty_bps_per_ms : ℤ
  pub outbound_us : Venue → ℤ
  pub decision_us : ℤ

-- int64 division by a positive number rounds toward zero.
abbrev pub quot : ℤ → ℕ → ℤ
quot (pos n) k = pos (n / k)
quot (negsuc n) k = sub_ℕ 0 ((n + 1) / k)

-- `TotalUS`
unfoldable pub total_us : LatencyModel → Venue → Venue → ℤ
total_us m b s = wrap64 (wrap64 (m.decision_us +ℤ m.outbound_us b) +ℤ m.outbound_us s)

unfoldable pub penalty : LatencyModel → Fixed → Venue → Venue → Outcome Fixed
unfolding total_us
penalty m notional b s =
    if leb_ℤ m.penalty_bps_per_ms (pos 0)
    then returns (pos 0)
    else (let ms = quot (total_us m b s) 1000 in
        if leb_ℤ ms (pos 0)
        then returns (pos 0)
        else do p ← mul_bps notional m.penalty_bps_per_ms; mul_int p ms)

pub record Config : Type 0 where
  pub min_profit : Fixed
  pub min_edge_bps : ℤ
  pub max_quote_age : Duration
  pub trade_quantity : Fixed
  pub slippage_bps : ℤ

pub record Opportunity : Type 0 where
  pub id : ℕ
  pub symbol : String
  pub buy_venue : Venue
  pub sell_venue : Venue
  pub quantity : Quantity
  pub buy_vwap : Price
  pub sell_vwap : Price
  pub gross_pnl : Money
  pub fees : Money
  pub slippage_penalty : Money
  pub latency_penalty : Money
  pub expected_net_pnl : Money
  pub edge_bps : ℤ
  pub buy_quote_age : Duration
  pub sell_quote_age : Duration
  pub detected_at : Time

pub data Reason : Type 0 where
  book_not_ready book_stale quote_too_old insufficient_depth : Reason
  below_min_profit below_min_edge_bps non_positive_vwap_spread : Reason

-- The configuration of the engine; its counter is passed along.
pub record Engine : Type 0 where
  pub fees : Venue → Fees
  pub latency : LatencyModel
  pub cfg : Config

-- The result of a pair: nothing when a view is missing, a rejection, or an opportunity.
pub data Verdict : Type 0 where
  no_view : Verdict
  rejects : Reason → Verdict
  emits : Opportunity → Verdict

-- `vwapOf`, whose loop and end are those of `VWAP`.
unfoldable pub vwap_of : List Level → Fixed → Outcome Average
vwap_of levels qty = do
  w ← walk levels (record { remaining = qty; cost = pos 0; filled = pos 0 })
  average w

-- The costs of a candidate, each a quote-currency amount.
pub record Costs : Type 0 where
  pub gross : Money
  pub fees : Money
  pub slippage : Money
  pub latency : Money
  pub net : Money

unfoldable pub costs_of : Engine → Venue → Venue → Fixed → Fixed → Outcome Costs
unfolding penalty
costs_of e bv sv cost proceeds = do
  gross ← sub proceeds cost
  buy_fee ← mul_bps cost (e.fees bv).taker_bps
  sell_fee ← mul_bps proceeds (e.fees sv).taker_bps
  fees ← add buy_fee sell_fee
  slippage ← mul_bps cost e.cfg.slippage_bps
  latency ← penalty e.latency cost bv sv
  n1 ← sub gross fees
  n2 ← sub n1 slippage
  net ← sub n2 latency
  returns (record { gross = gross; fees = fees; slippage = slippage; latency = latency; net = net })

-- `net.MulInt(10_000).Div(buyCost).Raw() / decimal.Scale`
unfoldable pub edge_of : Fixed → Fixed → Outcome ℤ
edge_of net cost = do n ← mul_int net (pos 10000); d ← div n cost; returns (quot d scale)

-- The part of a pair that the later checks read.
pub record Candidate : Type 0 where
  pub symbol : String
  pub buy_venue : Venue
  pub sell_venue : Venue
  pub buy_age : Duration
  pub sell_age : Duration
  pub now : Time
  pub ctr : ℕ

-- The checks on profit, edge and spread. The counter is a uint64.
price_pair : Engine → Candidate → Fixed → Average → Average → Outcome (ℕ × Verdict)
unfolding costs_of edge_of
price_pair e c qty b s = do
  costs ← costs_of e c.buy_venue c.sell_venue b.2 s.2
  if leb_ℤ costs.net e.cfg.min_profit then returns (c.ctr, rejects below_min_profit) else do
    edge ← edge_of costs.net b.2
    if ltb_ℤ edge e.cfg.min_edge_bps
        then returns (c.ctr, rejects below_min_edge_bps)
        else if leb_ℤ s.0 b.0
        then returns (c.ctr, rejects non_positive_vwap_spread)
        else returns (
          (c.ctr + 1) % 2 ^ 64,
          emits (record {
            id = (c.ctr + 1) % 2 ^ 64;
            symbol = c.symbol;
            buy_venue = c.buy_venue;
            sell_venue = c.sell_venue;
            quantity = qty;
            buy_vwap = b.0;
            sell_vwap = s.0;
            gross_pnl = costs.gross;
            fees = costs.fees;
            slippage_penalty = costs.slippage;
            latency_penalty = costs.latency;
            expected_net_pnl = costs.net;
            edge_bps = edge;
            buy_quote_age = c.buy_age;
            sell_quote_age = c.sell_age;
            detected_at = c.now;
          }),
        )

smaller_fill : Fixed → Fixed → Fixed
smaller_fill b s = if ltb_ℤ s b then s else b

-- The checks on depth.
size_pair : Engine → Candidate → Average → Average → Outcome (ℕ × Verdict)
unfolding price_pair smaller_fill
size_pair e c b s =
    if not b.3 || not s.3
    then returns (c.ctr, rejects insufficient_depth)
    else if ltb_ℤ (smaller_fill b.1 s.1) e.cfg.trade_quantity
    then returns (c.ctr, rejects insufficient_depth)
    else price_pair e c (smaller_fill b.1 s.1) b s

-- The checks on the two views.
check_views : Engine → Candidate → SnapshotView → SnapshotView → Outcome (ℕ × Verdict)
unfolding vwap_of size_pair
check_views e c b s =
    if not b.state.ready || not s.state.ready
    then returns (c.ctr, rejects book_not_ready)
    else if b.state.stale || s.state.stale
    then returns (c.ctr, rejects book_stale)
    else if ltb_ℤ e.cfg.max_quote_age c.buy_age || ltb_ℤ e.cfg.max_quote_age c.sell_age
    then returns (c.ctr, rejects quote_too_old)
    else do
      buys ← vwap_of b.asks e.cfg.trade_quantity
      sells ← vwap_of s.bids e.cfg.trade_quantity
      size_pair e c buys sells

found_views :
    Engine
    → String
    → Venue
    → Venue
    → Time
    → ℕ
    → Option SnapshotView
    → Option SnapshotView
    → Outcome (ℕ × Verdict)
unfolding check_views since
found_views e symbol bv sv now ctr (some b) (some s) =
    check_views e
      (record {
        symbol = symbol;
        buy_venue = bv;
        sell_venue = sv;
        buy_age = since now b.state.last_updated_at;
        sell_age = since now s.state.last_updated_at;
        now = now;
        ctr = ctr;
      })
      b s
found_views e symbol bv sv now ctr _ _ = returns (ctr, no_view)

-- `evaluatePair`, on the engine's time and the time of the manager's overlay.
unfoldable pub evaluate_pair :
    Engine → Manager → Time → Time → String → Venue → Venue → ℕ → Outcome (ℕ × Verdict)
unfolding found_views
evaluate_pair e m read now symbol bv sv ctr =
    found_views e symbol bv sv now ctr (snapshot read bv symbol 256 m)
      (snapshot read sv symbol 256 m)

abbrev keep_emitted : Verdict → List Opportunity → List Opportunity
keep_emitted (emits o) os = o ∷ os
keep_emitted _ os = os

-- The inner loop of `Evaluate`.
evaluate_sells :
    Engine
    → Manager
    → Time
    → Time
    → String
    → Venue
    → List Venue
    → ℕ
    → Outcome (ℕ × List Opportunity)
unfolding evaluate_pair
evaluate_sells e m read now symbol bv [] ctr = returns (ctr, [])
evaluate_sells e m read now symbol bv (sv ∷ svs) ctr = do
  r ← if bv == sv then returns (ctr, no_view) else evaluate_pair e m read now symbol bv sv ctr
  rest ← evaluate_sells e m read now symbol bv svs r.0
  returns (rest.0, keep_emitted r.1 rest.1)

evaluate_buys :
    Engine
    → Manager
    → Time
    → Time
    → String
    → List Venue
    → List Venue
    → ℕ
    → Outcome (ℕ × List Opportunity)
unfolding evaluate_sells
evaluate_buys e m read now symbol venues [] ctr = returns (ctr, [])
evaluate_buys e m read now symbol venues (bv ∷ bvs) ctr = do
  r ← evaluate_sells e m read now symbol bv venues ctr
  rest ← evaluate_buys e m read now symbol venues bvs r.0
  returns (rest.0, r.1 ++ rest.1)

unfoldable pub evaluate :
    Engine → Manager → Time → Time → String → List Venue → ℕ → Outcome (ℕ × List Opportunity)
unfolding evaluate_buys
evaluate e m read now symbol venues ctr = evaluate_buys e m read now symbol venues venues ctr
