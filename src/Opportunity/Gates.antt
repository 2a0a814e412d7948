-- ===== src/Opportunity/Gates.antt =====
-- What an opportunity that internal/opportunity/engine.go emits has passed.
use crossvenue.Base.{
  ℕ, Bool, true, false, not, ◌||◌, Option, none, some, String, ◌≡◌, refl, arith, if◌then◌else◌,
}
use crossvenue.Base.Int.{ltb_ℤ, ◌≤ℤ◌, ◌<ℤ◌}
use crossvenue.Base.Outcome.{Outcome, returns, panics, ◌>>=◌}
use crossvenue.Decimal.{Fixed}
use crossvenue.Domain.{Venue, Time}
use crossvenue.Book.{SnapshotView, Average}
use crossvenue.Manager.{Manager, since, snapshot}
use crossvenue.Opportunity.{
  Reason, book_not_ready, book_stale, quote_too_old, Engine, Opportunity, Verdict, rejects, emits,
  Candidate, vwap_of, price_pair, size_pair, check_views, found_views, evaluate_pair, smaller_fill,
}

-- What the views of an emitted opportunity must be, and what it is worth.
abbrev pub ViewsPass : Engine → Time → SnapshotView → SnapshotView → Type 0
ViewsPass e now b s =
    (b.state.ready ≡ true)
    × (s.state.ready ≡ true)
    × (b.state.stale ≡ false)
    × (s.state.stale ≡ false)
    × (since now b.state.last_updated_at ≤ℤ e.cfg.max_quote_age)
    × (since now s.state.last_updated_at ≤ℤ e.cfg.max_quote_age)

abbrev pub PricePasses : Engine → Opportunity → Type 0
PricePasses e o =
    (e.cfg.min_profit <ℤ o.expected_net_pnl)
    × (e.cfg.min_edge_bps ≤ℤ o.edge_bps)
    × (o.buy_vwap <ℤ o.sell_vwap)

price_pair-emits :
    (e : Engine) (c : Candidate) (q : Fixed) (b s : Average) {n : ℕ} {o : Opportunity}
    → price_pair e c q b s ≡ returns (n, emits o)
    → PricePasses e o × (o.quantity ≡ q)
unfolding price_pair
price_pair-emits e c q b s h = ground arith

size_pair-emits :
    (e : Engine) (c : Candidate) (b s : Average) {n : ℕ} {o : Opportunity}
    → size_pair e c b s ≡ returns (n, emits o)
    → PricePasses e o
      × (e.cfg.trade_quantity ≤ℤ o.quantity)
      × (o.quantity ≤ℤ b.1)
      × (o.quantity ≤ℤ s.1)
unfolding size_pair smaller_fill
size_pair-emits e c b s h = ground (arith, price_pair-emits e c (smaller_fill b.1 s.1) b s)

-- What was filled on both sides covers the quantity, which covers the size asked for.
abbrev pub DepthPasses : Engine → Opportunity → SnapshotView → SnapshotView → Type 0
DepthPasses e o b s =
    (buys : Average) × (sells : Average) × (vwap_of b.asks e.cfg.trade_quantity ≡ returns buys)
    × (vwap_of s.bids e.cfg.trade_quantity ≡ returns sells)
    × (e.cfg.trade_quantity ≤ℤ o.quantity)
    × (o.quantity ≤ℤ buys.1)
    × (o.quantity ≤ℤ sells.1)

depth_pair :
    (e : Engine) (c : Candidate) (b s : SnapshotView) (x y : Outcome Average) {n : ℕ}
    {o : Opportunity}
    → (do buys ← x; sells ← y; size_pair e c buys sells) ≡ returns (n, emits o)
    → PricePasses e o
      × ((buys : Average) × (sells : Average) × (x ≡ returns buys)
          × (y ≡ returns sells)
          × (e.cfg.trade_quantity ≤ℤ o.quantity)
          × (o.quantity ≤ℤ buys.1)
          × (o.quantity ≤ℤ sells.1))
depth_pair e c b s (returns u) (returns w) h =
    let r = size_pair-emits e c u w h in (r.0, (u, w, refl, refl, r.1, r.2, r.3))
depth_pair e c b s (returns u) (panics p) h = cc
depth_pair e c b s (panics p) y h = cc

-- An emission behind three tests has failed them all.
three_tests :
    (p q r : Bool) (c n : ℕ) {o : Opportunity} (a b d : Reason) (k : Outcome (ℕ × Verdict))
    → (if p
        then returns (c, rejects a)
        else if q
        then returns (c, rejects b)
        else if r
        then returns (c, rejects d)
        else k)
      ≡ returns (n, emits o)
    → (p ≡ false) × (q ≡ false) × (r ≡ false) × (k ≡ returns (n, emits o))
three_tests p q r c n a b d k h = ground arith

check_views-emits :
    (e : Engine) (c : Candidate) (b s : SnapshotView) {n : ℕ} {o : Opportunity}
    → check_views e c b s ≡ returns (n, emits o)
    → ((b.state.ready ≡ true)
        × (s.state.ready ≡ true)
        × (b.state.stale ≡ false)
        × (s.state.stale ≡ false)
        × (c.buy_age ≤ℤ e.cfg.max_quote_age)
        × (c.sell_age ≤ℤ e.cfg.max_quote_age))
      × PricePasses e o
      × DepthPasses e o b s
unfolding check_views
check_views-emits e c b s {n} h =
    let (p, q, r, k) =
      three_tests (not b.state.ready || not s.state.ready) (b.state.stale || s.state.stale)
        (ltb_ℤ e.cfg.max_quote_age c.buy_age || ltb_ℤ e.cfg.max_quote_age c.sell_age) c.ctr n
        book_not_ready book_stale quote_too_old _ h in
    let d = depth_pair e c b s _ _ k in (ground arith, d.0, d.1)

-- What an emitted opportunity must have passed: both venues have a view that is ready, not stale
-- and young enough, whose depth fills the size asked for, and it is worth more than the limits.
abbrev pub IsTradable :
    Engine → Time → Opportunity → Option SnapshotView → Option SnapshotView → Type 0
IsTradable e now o (some b) (some s) = ViewsPass e now b s × PricePasses e o × DepthPasses e o b s
IsTradable e now o _ _ = ⊥

found_views-emits :
    (e : Engine) (symbol : String) (bv sv : Venue) (now : Time) (ctr : ℕ)
    (b s : Option SnapshotView) {n : ℕ} {o : Opportunity}
    → found_views e symbol bv sv now ctr b s ≡ returns (n, emits o)
    → IsTradable e now o b s
unfolding found_views
found_views-emits e symbol bv sv now ctr none s h = cc
found_views-emits e symbol bv sv now ctr (some b) none h = cc
found_views-emits e symbol bv sv now ctr (some b) (some s) h = check_views-emits e _ b s h

-- Every opportunity that a pair emits is tradable: both books are ready, not stale and no older
-- than the limit, their depth fills the requested size on both sides, the expected net profit is
-- above the minimum, the edge is at least the minimum, and it buys below where it sells.
pub evaluate_pair-emits :
    (e : Engine) (m : Manager) (read now : Time) (symbol : String) (bv sv : Venue) (ctr : ℕ) {n : ℕ}
    {o : Opportunity}
    → evaluate_pair e m read now symbol bv sv ctr ≡ returns (n, emits o)
    → IsTradable e now o (snapshot read bv symbol 256 m) (snapshot read sv symbol 256 m)
unfolding evaluate_pair
evaluate_pair-emits e m read now symbol bv sv ctr h = found_views-emits e symbol bv sv now ctr _ _ h
