-- ===== src/Execution/Arbitrage.antt =====
-- Both legs of an arbitrage of internal/execution/execution.go, under each policy.
use crossvenue.Base.{◌≡◌, arith, string_eq, nat_eq}
use crossvenue.Base.Outcome.{returns, >>=-returns}
use crossvenue.Domain.{Time}
use crossvenue.Execution.{Order}
use crossvenue.Execution.Filling.{LegOutcome}
use crossvenue.Execution.Simulating.{
  Policy, buy_first, sell_first, parallel, execute_arbitrage, run_legs, run_leg, combine_legs,
  Market, Executed,
}

run_legs-each :
    (p : Policy) (mb ms : Market) (at : Time) (bo so : Order) {x : LegOutcome × LegOutcome}
    → run_legs p mb ms at bo so ≡ returns x
    → (run_leg mb at bo ≡ returns x.0) × (run_leg ms at so ≡ returns x.1)
unfolding run_legs
run_legs-each sell_first mb ms at bo so h =
    let (s, e, h1) = >>=-returns (run_leg ms at so) _ h in
    let (b, f, h2) = >>=-returns (run_leg mb at bo) _ h1 in (ground arith, ground arith)
run_legs-each buy_first mb ms at bo so h =
    let (b, f, h2) = >>=-returns (run_leg mb at bo) _ h in
    let (s, e, h1) = >>=-returns (run_leg ms at so) _ h2 in (ground arith, ground arith)
run_legs-each parallel mb ms at bo so h =
    let (b, f, h2) = >>=-returns (run_leg mb at bo) _ h in
    let (s, e, h1) = >>=-returns (run_leg ms at so) _ h2 in (ground arith, ground arith)

-- What an execution is made of: each leg alone, and the two combined.
execute-parts :
    (p : Policy) (mb ms : Market) (at : Time) (bo so : Order) {x : Executed}
    → execute_arbitrage p mb ms at bo so ≡ returns x
    → (b s : LegOutcome) × (run_leg mb at bo ≡ returns b)
      × (run_leg ms at so ≡ returns s)
      × (combine_legs b.leg s.leg ≡ returns x.result)
      × (x.buy_order ≡ b.order)
      × (x.sell_order ≡ s.order)
unfolding execute_arbitrage
execute-parts p mb ms at bo so h =
    let (l, e, h1) = >>=-returns (run_legs p mb ms at bo so) _ h in
    let (r, f, h2) = >>=-returns (combine_legs l.0.leg l.1.leg) _ h1 in
    let (eb, es) = run_legs-each p mb ms at bo so e in (l.0, l.1, eb, es, cc, cc, cc)

-- Where an arbitrage returns under two policies, its result with both legs, and the two orders
-- that it leaves, are the same.
pub policies_agree :
    (p q : Policy) (mb ms : Market) (at : Time) (bo so : Order) {x y : Executed}
    → execute_arbitrage p mb ms at bo so ≡ returns x
    → execute_arbitrage q mb ms at bo so ≡ returns y
    → (x.result ≡ y.result) × (x.buy_order ≡ y.buy_order) × (x.sell_order ≡ y.sell_order)
policies_agree p q mb ms at bo so h k =
    let (b, s, e, f, c, u, v) = execute-parts p mb ms at bo so h in
    let (b', s', e', f', c', u', v') = execute-parts q mb ms at bo so k in (cc, cc, cc)
