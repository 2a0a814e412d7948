-- ===== src/Engine/Trade.antt =====
-- `maybeExecute` of internal/engine/engine.go: from an opportunity to the ledger.
use crossvenue.Base.{
  ℕ, ◌+◌, Bool, not, ◌&&◌, ◌||◌, Option, some, List, [], ◌∷◌, String, if◌then◌else◌, ◌==◌,
  string_eq, nat_eq,
}
use crossvenue.Base.Int.{ℤ, pos, ltb_ℤ, leb_ℤ}
use crossvenue.Base.Dict.{insert}
use crossvenue.Base.Outcome.{Outcome, returns, ◌>>=◌}
use crossvenue.Decimal.{mul, is_positive, is_negative}
use crossvenue.Domain.{Venue, Side, buy, sell}
use crossvenue.Manager.{snapshot}
use crossvenue.Opportunity.{Opportunity}
use crossvenue.Risk.{
  State as RiskState, note_order_opened, note_order_closed, note_execution_result,
  activate_kill_switch,
}
use crossvenue.Portfolio.{Ledger, balance, apply_buy, apply_sell, add_realized}
use crossvenue.Execution.{Order, market, pending}
use crossvenue.Execution.Filling.{FillEvent, LegResult}
use crossvenue.Execution.Simulating.{
  Result, Executed, Policy, parallel, buy_first, sell_first, Market, Simulator, submit, get_order,
  execute_arbitrage,
}
use crossvenue.Journal.{no_aggregate, opportunity_id, order_id}
use crossvenue.Engine.Decide.{decide, denied}
use crossvenue.Engine.State.{
  Times, Supervisor, missing_inventory, side_of, filled, halted, residual, note, base_quote,
  leg_text,
}

-- A leg's order; `Submit` writes the fields that are left at a zero value here.
abbrev pub leg_order : Opportunity → Side → Venue → String → Order
leg_order o side v suffix = record {
  id = 0;
  client_order_id = leg_text o.id suffix;
  venue = v;
  symbol = o.symbol;
  side = side;
  type = market;
  price = pos 0;
  quantity = o.quantity;
  filled_quantity = pos 0;
  avg_fill_price = pos 0;
  state = pending;
  created_at = pos 0;
  updated_at = pos 0;
}

abbrev pub policy_of : String → Policy
policy_of p =
    if p == "buy-first" then buy_first else if p == "sell-first" then sell_first else parallel

-- What the simulator reads for a leg.
abbrev pub market_of : Times → String → Venue → Supervisor → Market
market_of t symbol v s = (snapshot t.read v symbol 256 s.pipe.mgr, s.fee_bps v)

-- `OnFill`, for each fill of an execution.
unfoldable pub note_fills : Times → List FillEvent → Supervisor → Supervisor
unfolding note
note_fills t [] s = s
note_fills t (f ∷ fs) s =
    note_fills t fs
      (note t "OrderFilled" f.venue f.symbol (order_id f.order_id) (filled f.price f.qty f.fee) s)

-- Settling a leg that filled; an error of the ledger is logged.
unfoldable pub settle_buy : Opportunity → LegResult → Ledger → Outcome Ledger
unfolding base_quote apply_buy
settle_buy o leg l =
    if is_positive leg.filled_qty
    then (do
      let (base, quote) = base_quote o.symbol
      r ← apply_buy o.buy_venue o.symbol base quote leg.vwap leg.filled_qty leg.fee l
      returns r.0)
    else returns l

unfoldable pub settle_sell : Opportunity → LegResult → Ledger → Outcome Ledger
unfolding base_quote apply_sell
settle_sell o leg l =
    if is_positive leg.filled_qty
    then (do
      let (base, quote) = base_quote o.symbol
      r ← apply_sell o.sell_venue o.symbol base quote leg.vwap leg.filled_qty leg.fee l
      returns r.0)
    else returns l

unfoldable pub settle : Opportunity → Result → Ledger → Outcome Ledger
unfolding settle_buy settle_sell add_realized
settle o r l = do
  l1 ← settle_buy o r.buy_leg l
  l2 ← settle_sell o r.sell_leg l1
  add_realized r.realized_pnl l2

-- The counters of the risk engine around an execution, and the kill switch behind it.
abbrev pub opened_twice : RiskState → RiskState
opened_twice r = note_order_opened (note_order_opened r)

abbrev pub is_success : Result → Bool
is_success r = is_positive r.buy_leg.filled_qty && is_positive r.sell_leg.filled_qty

unfoldable pub closed_twice : Bool → RiskState → RiskState
unfolding note_order_closed note_execution_result
closed_twice success r = note_execution_result success (note_order_closed (note_order_closed r))

abbrev pub is_over_limit : ℤ → ℕ → Bool
is_over_limit limit fails = leb_ℤ limit (pos fails) && ltb_ℤ (pos 0) limit

unfoldable pub halt : Times → Opportunity → Supervisor → Supervisor
unfolding note activate_kill_switch
halt t o s =
    if is_over_limit s.cfg.risk.max_consecutive_fails s.risk.consecutive_fails
    then note t "KillSwitchActivated" "" o.symbol no_aggregate (halted "max_consecutive_failures")
        (record s { risk = activate_kill_switch "max_consecutive_failures" s.risk })
    else s

unfoldable pub note_residual : Times → Opportunity → Result → Supervisor → Supervisor
unfolding note
note_residual t o r s =
    if is_positive r.residual_qty || is_negative r.residual_qty
    then note t "PositionChanged" o.buy_venue o.symbol (opportunity_id o.id)
        (residual r.residual_qty) s
    else s

-- The orders that an execution changed through their pointers.
abbrev pub put_orders : Executed → Simulator → Simulator
put_orders x e = record e {
  by_id = insert x.sell_order.id x.sell_order (insert x.buy_order.id x.buy_order e.by_id);
}

-- From the return of `ExecuteArbitrage` to the ledger, and from there to the end.
unfoldable pub before_settling : Times → Opportunity → Executed → Supervisor → Supervisor
unfolding note_fills closed_twice halt
before_settling t o x s =
    let s1 = note_fills t x.fills (record s { exec = put_orders x s.exec }) in
    halt t o (record s1 { risk = closed_twice (is_success x.result) s1.risk })

unfoldable pub after_settling : Times → Opportunity → Result → Supervisor → Supervisor
unfolding note_residual
after_settling t o r s =
    let s1 = note_residual t o r s in record s1 { executed_count = s1.executed_count + 1 }

unfoldable pub finish : Times → Opportunity → Executed → Supervisor → Outcome Supervisor
unfolding before_settling settle after_settling
finish t o x s = do
  let s1 = before_settling t o x s
  l ← settle o x.result s1.ledger
  returns (after_settling t o x.result (record s1 { ledger = l }))

-- The two orders that `Submit` gave; it never gives a number without an order.
unfoldable pub run_orders :
    Times → Opportunity → Option Order → Option Order → Supervisor → Outcome Supervisor
unfolding finish execute_arbitrage
run_orders t o (some b) (some so) s =
    execute_arbitrage (policy_of s.cfg.execution.policy) (market_of t b.symbol b.venue s)
      (market_of t so.symbol so.venue s) t.now b so
    >>= λ x. finish t o x s
run_orders t o _ _ s = returns s

-- Both orders submitted, told to the risk engine and journalled.
unfoldable pub submitted : Times → Opportunity → Supervisor → Supervisor
unfolding submit note note_order_opened
submitted t o s =
    let (e1, b) = submit (leg_order o buy o.buy_venue "-buy") t.now s.exec in
    let (e2, so) = submit (leg_order o sell o.sell_venue "-sell") t.now e1 in
    let s1 = record s { exec = e2; risk = opened_twice s.risk } in
    let s2 = note t "OrderSubmitted" o.buy_venue o.symbol (order_id b) (side_of buy) s1 in
    note t "OrderSubmitted" o.sell_venue o.symbol (order_id so) (side_of sell) s2

-- The numbers that the two submissions give.
abbrev pub leg_numbers : Times → Opportunity → Simulator → ℕ × ℕ
leg_numbers t o e =
    let (e1, b) = submit (leg_order o buy o.buy_venue "-buy") t.now e in
    (b, (submit (leg_order o sell o.sell_venue "-sell") t.now e1).1)

unfoldable pub execute : Times → Opportunity → Supervisor → Outcome Supervisor
unfolding submitted run_orders
execute t o s =
    let s1 = submitted t o s in
    let (b, so) = leg_numbers t o s.exec in
    run_orders t o (get_order b s1.exec) (get_order so s1.exec) s1

-- The checks of the inventory, for an opportunity that the risk engine allows.
unfoldable pub check_inventory : Times → Opportunity → Supervisor → Outcome Supervisor
unfolding balance base_quote note execute
check_inventory t o s = do
  let (base, quote) = base_quote o.symbol
  notional ← mul o.buy_vwap o.quantity
  if ltb_ℤ (balance o.buy_venue quote s.ledger).available notional
      then returns (
          note t "RiskRejected" o.buy_venue o.symbol (opportunity_id o.id)
            (missing_inventory "insufficient_quote_inventory") s)
      else if ltb_ℤ (balance o.sell_venue base s.ledger).available o.quantity
      then returns (
          note t "RiskRejected" o.sell_venue o.symbol (opportunity_id o.id)
            (missing_inventory "insufficient_base_inventory") s)
      else execute t o s

-- `maybeExecute`
unfoldable pub maybe_execute : Times → Opportunity → Supervisor → Outcome Supervisor
unfolding decide denied check_inventory
maybe_execute t o s = do
  d ← decide t o s
  if not d.allowed then returns (denied t o d s) else check_inventory t o s
