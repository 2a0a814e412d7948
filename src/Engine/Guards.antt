-- ===== src/Engine/Guards.antt =====
-- When `maybeExecute` of internal/engine/engine.go trades.
use crossvenue.Base.{true, false, String, ◌≡◌, sym, ◌⊎◌, inl, inr, Bool-cases, arith, nat_eq}
use crossvenue.Base.Int.{ltb_ℤ}
use crossvenue.Base.Outcome.{returns, >>=-returns, guard-returns}
use crossvenue.Decimal.{Fixed, mul}
use crossvenue.Domain.{Venue}
use crossvenue.Opportunity.{Opportunity}
use crossvenue.Risk.{Decision}
use crossvenue.Portfolio.{balance}
use crossvenue.Execution.Orders.{Holds}
use crossvenue.Journal.{Aggregate}
use crossvenue.Engine.State.{Times, Supervisor, Payload, base_quote, note}
use crossvenue.Engine.Decide.{decide, denied}
use crossvenue.Engine.Trade.{check_inventory, maybe_execute}
use crossvenue.Engine.Executing.{Traded, execute-Traded}
use crossvenue.Engine.Halted.{Untouched, note-Untouched, denied-Untouched}

-- The checks that stand before an execution.
pub record Cleared (t : Times) (o : Opportunity) (s : Supervisor) : Type 0 where
  pub decision : Decision
  pub decided : decide t o s ≡ returns decision
  pub allowed : decision.allowed ≡ true
  pub notional : Fixed
  pub notional_of : mul o.buy_vwap o.quantity ≡ returns notional
  pub quote_covers :
      ltb_ℤ (balance o.buy_venue (base_quote o.symbol).1 s.ledger).available notional ≡ false
  pub base_covers :
      ltb_ℤ (balance o.sell_venue (base_quote o.symbol).0 s.ledger).available o.quantity ≡ false

noted-Untouched :
    (t : Times) (type : String) (v : Venue) (symbol : String) (a : Aggregate) (p : Payload)
    (s s' : Supervisor)
    → Holds s.exec
    → s' ≡ note t type v symbol a p s
    → Holds s'.exec × Untouched s s'
noted-Untouched t type v symbol a p s s' h e =
    let kept = note-Untouched t type v symbol a p s in rw e (rw kept.exec h, kept)

pub check_inventory-Traded :
    (t : Times) (o : Opportunity) (s s' : Supervisor)
    → Holds s.exec
    → check_inventory t o s ≡ returns s'
    → Holds s'.exec
      × (Untouched s s'
          ⊎ ((n : Fixed) × (mul o.buy_vwap o.quantity ≡ returns n)
              × (ltb_ℤ (balance o.buy_venue (base_quote o.symbol).1 s.ledger).available n ≡ false)
              × (ltb_ℤ (balance o.sell_venue (base_quote o.symbol).0 s.ledger).available o.quantity
                  ≡ false)
              × Traded s s'))
unfolding check_inventory
check_inventory-Traded t o s s' h e =
    let (n, mn, k) = >>=-returns (mul o.buy_vwap o.quantity) _ e in
    elim (guard-returns (ltb_ℤ (balance o.buy_venue (base_quote o.symbol).1 s.ledger).available n) _
      _ k) [
        | inl (_, same) ↦
            let (held, kept) = noted-Untouched t _ _ _ _ _ s s' h same in (held, inl kept)
        | inr (quote, k2) ↦
            elim (guard-returns
              (ltb_ℤ (balance o.sell_venue (base_quote o.symbol).0 s.ledger).available o.quantity) _
              _ k2) [
                | inl (_, same) ↦
                    let (held, kept) = noted-Untouched t _ _ _ _ _ s s' h same in (held, inl kept)
                | inr (base, go) ↦
                    let (held, traded) = execute-Traded t o s s' h go in
                    (held, inr (n, mn, quote, base, traded))
              ]
      ]

-- `maybeExecute` trades only what the risk engine allowed and what both inventories cover, and
-- else touches neither the orders, the ledger nor the risk engine's counters. Where it returns, an
-- execution is counted, the outstanding orders are back where they were, the failures in a row are
-- reset or one more, and the kill switch is on if it was on or the failures have reached their
-- limit; and every client order identifier still leads to an order.
pub maybe_execute-guarded :
    (t : Times) (o : Opportunity) (s s' : Supervisor)
    → Holds s.exec
    → maybe_execute t o s ≡ returns s'
    → Holds s'.exec × (Untouched s s' ⊎ (Cleared t o s × Traded s s'))
unfolding maybe_execute check_inventory
maybe_execute-guarded t o s s' h e =
    let (d, e1, k) = >>=-returns (decide t o s) _ e in
    elim (Bool-cases d.allowed) [
      | inr refused ↦
          let u : denied t o d s ≡ s' = ground arith in
          let kept : Untouched s s' = rw (sym u) (denied-Untouched t o d s) in
          (rw kept.exec h, inl kept)
      | inl allowed ↦
          let go : check_inventory t o s ≡ returns s' = ground arith in
          let (held, how) = check_inventory-Traded t o s s' h go in
          (
            held,
            elim how [
              | inl kept ↦ inl kept
              | inr (n, mn, q, b, traded) ↦ inr (
                record {
                  decision = d;
                  decided = e1;
                  allowed = allowed;
                  notional = n;
                  notional_of = mn;
                  quote_covers = q;
                  base_covers = b;
                },
                traded,
              )
            ],
          )
    ]
