-- ===== src/Engine/Decide.antt =====
-- The risk engine's decision in `maybeExecute` of internal/engine/engine.go, with what it reads.
use crossvenue.Base.{Option, none, some, List, ◌∷◌, ◌++◌, String, string_eq, nat_eq}
use crossvenue.Base.Int.{pos}
use crossvenue.Base.Outcome.{Outcome, returns, ◌>>=◌}
use crossvenue.Decimal.{Fixed, add, div, from_int}
use crossvenue.Domain.{Venue, Level}
use crossvenue.Book.{SnapshotView}
use crossvenue.Manager.{Manager, snapshot}
use crossvenue.Opportunity.{Opportunity}
use crossvenue.Risk.{Exposure, Request, Decision, check_opportunity}
use crossvenue.Portfolio.{Ledger, venue_exposure, total_exposure}
use crossvenue.Journal.{opportunity_id}
use crossvenue.Engine.State.{Times, Supervisor, reasons, note}

-- `midLookup`
mid_of : List Level → List Level → Outcome (Option Fixed)
mid_of (b ∷ _) (a ∷ _) = do
  sum ← add b.price a.price
  mid ← div sum (from_int (pos 2))
  returns (some mid)
mid_of _ _ = returns none

mid_found : Option SnapshotView → Outcome (Option Fixed)
unfolding mid_of
mid_found none = returns none
mid_found (some w) = mid_of w.bids w.asks

unfoldable pub mid_lookup : Times → String → Manager → Venue → Outcome (Option Fixed)
unfolding mid_found
mid_lookup t symbol m v = mid_found (snapshot t.read v symbol 1 m)

-- The ledger as the risk engine reads it.
abbrev pub exposure_of : Ledger → Exposure
exposure_of l = record {
  venue_exposure = λ v. venue_exposure v l;
  total_exposure = total_exposure l;
  realized = l.realized;
}

abbrev pub request_of : Times → Opportunity → Request
request_of t o = record {
  now = t.now;
  symbol = o.symbol;
  buy_venue = o.buy_venue;
  sell_venue = o.sell_venue;
  qty = o.quantity;
  buy_vwap = o.buy_vwap;
  expected_net = o.expected_net_pnl;
}

-- The risk engine's decision.
unfoldable pub decide : Times → Opportunity → Supervisor → Outcome Decision
unfolding mid_lookup check_opportunity
decide t o s =
    check_opportunity s.limits s.risk (exposure_of s.ledger) s.pipe.mgr t.read
      (mid_lookup t o.symbol s.pipe.mgr) (request_of t o)

-- An opportunity that the risk engine denies.
unfoldable pub denied : Times → Opportunity → Decision → Supervisor → Supervisor
unfolding note
denied t o d s =
    let s' =
      note t "RiskRejected" o.buy_venue o.symbol (opportunity_id o.id) (reasons d.reasons) s in
    record s' { rejections = s'.rejections ++ d.reasons }
