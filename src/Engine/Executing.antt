-- ===== src/Engine/Executing.antt =====
-- What an execution of internal/engine/engine.go changes.
use crossvenue.Base.{
  ◌+◌, Bool, ◌||◌, List, [], ◌∷◌, if◌then◌else◌, some, ◌≡◌, refl, sym, ap, ◌∙◌, inl, inr,
  Bool-cases, arith, nat_eq,
}
use crossvenue.Base.Dict.{insert}
use crossvenue.Base.Outcome.{returns, >>=-returns, returns_eq}
use crossvenue.Decimal.{is_positive, is_negative}
use crossvenue.Domain.{buy, sell}
use crossvenue.Opportunity.{Opportunity}
use crossvenue.Risk.{
  State, note_order_opened, note_order_closed, note_execution_result, activate_kill_switch,
}
use crossvenue.Execution.{Order}
use crossvenue.Execution.Filling.{FillEvent}
use crossvenue.Execution.Simulating.{
  Executed, Result, Simulator, execute_arbitrage, get_order, submit,
}
use crossvenue.Execution.Orders.{Holds, submit-Holds, get_order-submit, Holds-insert, submit-keeps}
use crossvenue.Engine.State.{Times, Supervisor, note}
use crossvenue.Engine.Trade.{
  execute, submitted, run_orders, finish, halt, note_fills, note_residual, settle, put_orders,
  before_settling, after_settling, policy_of, market_of, leg_order, opened_twice, closed_twice,
  is_success, is_over_limit,
}
use crossvenue.Engine.Halted.{Untouched, Untouched-refl, Untouched-trans, note-Untouched}

-- An execution that ended: it is counted, its result is settled into the ledger and told to the
-- risk engine, and the kill switch is on if it was on or the failures have reached the limit.
pub record Traded (s s' : Supervisor) : Type 0 where
  pub count : s'.executed_count ≡ s.executed_count + 1
  pub outstanding : s'.risk.outstanding ≡ s.risk.outstanding
  pub result : Result
  pub counted :
      s'.risk.consecutive_fails ≡ (if is_success result then 0 else s.risk.consecutive_fails + 1)
  pub halted :
      s'.risk.kill
      ≡ (s.risk.kill || is_over_limit s.cfg.risk.max_consecutive_fails s'.risk.consecutive_fails)

note_fills-Untouched :
    (t : Times) (fs : List FillEvent) (s : Supervisor) → Untouched s (note_fills t fs s)
unfolding note_fills
note_fills-Untouched t [] s = Untouched-refl s
note_fills-Untouched t (f ∷ fs) s =
    Untouched-trans s _ _ (note-Untouched t _ _ _ _ _ s) (note_fills-Untouched t fs _)

note_residual-Untouched :
    (t : Times) (o : Opportunity) (r : Result) (s : Supervisor)
    → Untouched s (note_residual t o r s)
unfolding note_residual
note_residual-Untouched t o r s =
    elim (Bool-cases (is_positive r.residual_qty || is_negative r.residual_qty)) [
      | inl moved ↦ rw moved (note-Untouched t _ _ _ _ _ s)
      | inr flat ↦ rw flat (Untouched-refl s)
    ]

counters-restored :
    (ok : Bool) (r : State)
    → ((closed_twice ok (opened_twice r)).outstanding ≡ r.outstanding)
      × ((closed_twice ok (opened_twice r)).consecutive_fails
          ≡ (if ok then 0 else r.consecutive_fails + 1))
      × ((closed_twice ok (opened_twice r)).kill ≡ r.kill)
unfolding closed_twice note_order_closed note_order_opened note_execution_result
counters-restored ok r = ground arith

-- The kill switch behind an execution.
record Switched (s s' : Supervisor) : Type 0 where
  exec : s'.exec ≡ s.exec
  executed_count : s'.executed_count ≡ s.executed_count
  outstanding : s'.risk.outstanding ≡ s.risk.outstanding
  consecutive_fails : s'.risk.consecutive_fails ≡ s.risk.consecutive_fails
  kill :
      s'.risk.kill
      ≡ (s.risk.kill || is_over_limit s.cfg.risk.max_consecutive_fails s.risk.consecutive_fails)

halt-Switched : (t : Times) (o : Opportunity) (s : Supervisor) → Switched s (halt t o s)
unfolding halt note activate_kill_switch
halt-Switched t o s =
    elim (Bool-cases (is_over_limit s.cfg.risk.max_consecutive_fails s.risk.consecutive_fails)) [
      | inl over ↦ rw over (record {
        exec = refl;
        executed_count = refl;
        outstanding = refl;
        consecutive_fails = refl;
        kill = ground arith;
      })
      | inr under ↦ rw under (record {
        exec = refl;
        executed_count = refl;
        outstanding = refl;
        consecutive_fails = refl;
        kill = ground arith;
      })
    ]

-- The state of the counters and of the orders behind an execution.
record Behind (s : Supervisor) (x : Executed) (r : State) (s' : Supervisor) : Type 0 where
  holds : Holds s'.exec
  outstanding : s'.risk.outstanding ≡ r.outstanding
  consecutive_fails :
      s'.risk.consecutive_fails ≡ (if is_success x.result then 0 else r.consecutive_fails + 1)
  kill :
      s'.risk.kill
      ≡ (r.kill || is_over_limit s.cfg.risk.max_consecutive_fails s'.risk.consecutive_fails)

put_orders-Holds : (x : Executed) (e : Simulator) → Holds e → Holds (put_orders x e)
put_orders-Holds x e h =
    Holds-insert x.sell_order.id x.sell_order
      (record e { by_id = insert x.buy_order.id x.buy_order e.by_id })
      (Holds-insert x.buy_order.id x.buy_order e h)

before_settling-Behind :
    (t : Times) (o : Opportunity) (x : Executed) (s : Supervisor) (r : State)
    → s.risk ≡ opened_twice r
    → Holds s.exec
    → Behind s x r (before_settling t o x s)
      × ((before_settling t o x s).executed_count ≡ s.executed_count)
unfolding before_settling
before_settling-Behind t o x s r opened h =
    let s0 = record s { exec = put_orders x s.exec } in
    let u1 = note_fills-Untouched t x.fills s0 in
    let s1 = note_fills t x.fills s0 in
    let risk1 : s1.risk ≡ opened_twice r = u1.risk ∙ opened in
    let w = halt-Switched t o (record s1 { risk = closed_twice (is_success x.result) s1.risk }) in
    let c = counters-restored (is_success x.result) r in
    (
      record {
        holds = rw (w.exec, u1.exec) (put_orders-Holds x s.exec h);
        outstanding = rw (w.outstanding, risk1) c.0;
        consecutive_fails = rw (w.consecutive_fails, risk1) c.1;
        kill = rw (w.kill, w.consecutive_fails, u1.cfg, risk1, c.2) refl;
      },
      w.executed_count ∙ u1.executed_count,
    )

Behind-move :
    (s : Supervisor) (x : Executed) (r : State) (a b : Supervisor)
    → b.exec ≡ a.exec
    → b.risk ≡ a.risk
    → Behind s x r a
    → Behind s x r b
Behind-move s x r a b e f h = record {
  holds = rw e h.holds;
  outstanding = rw f h.outstanding;
  consecutive_fails = rw f h.consecutive_fails;
  kill = rw f h.kill;
}

finish-Behind :
    (t : Times) (o : Opportunity) (x : Executed) (s s' : Supervisor) (r : State)
    → s.risk ≡ opened_twice r
    → Holds s.exec
    → finish t o x s ≡ returns s'
    → Behind s x r s' × (s'.executed_count ≡ s.executed_count + 1)
unfolding finish after_settling
finish-Behind t o x s s' r opened h e =
    let s1 = before_settling t o x s in
    let b = before_settling-Behind t o x s r opened h in
    let (l, e1, k) = >>=-returns (settle o x.result s1.ledger) _ e in
    let u = note_residual-Untouched t o x.result (record s1 { ledger = l }) in
    let done : after_settling t o x.result (record s1 { ledger = l }) ≡ s' = returns_eq k in
    (
      Behind-move s x r s1 s' (ap (λ a. a.exec) (sym done) ∙ u.exec)
          (ap (λ a. a.risk) (sym done) ∙ u.risk) b.0,
      ap (λ a. a.executed_count) (sym done) ∙ ap (λ n. n + 1) (u.executed_count ∙ b.1),
    )

run_orders-Traded :
    (t : Times) (o : Opportunity) (b so : Order) (s s' : Supervisor) (r : State)
    → s.risk ≡ opened_twice r
    → Holds s.exec
    → run_orders t o (some b) (some so) s ≡ returns s'
    → (x : Executed) × Behind s x r s' × (s'.executed_count ≡ s.executed_count + 1)
unfolding run_orders
run_orders-Traded t o b so s s' r opened h e =
    let (x, e1, k) =
      >>=-returns
        (execute_arbitrage (policy_of s.cfg.execution.policy) (market_of t b.symbol b.venue s)
          (market_of t so.symbol so.venue s) t.now b so)
        (λ x. finish t o x s) e in
    let (f, n) = finish-Behind t o x s s' r opened h k in (x, f, n)

pub execute-Traded :
    (t : Times) (o : Opportunity) (s s' : Supervisor)
    → Holds s.exec
    → execute t o s ≡ returns s'
    → Holds s'.exec × Traded s s'
unfolding execute submitted note
execute-Traded t o s s' h e =
    let b = leg_order o buy o.buy_venue "-buy" in
    let so = leg_order o sell o.sell_venue "-sell" in
    let e1 = (submit b t.now s.exec).0 in
    let h1 = submit-Holds b t.now s.exec h in
    let h2 = submit-Holds so t.now e1 h1 in
    let (b0, g0) = get_order-submit b t.now s.exec h in
    let (b1, g1) = submit-keeps so t.now e1 (submit b t.now s.exec).1 b0 g0 in
    let (s1, k1) = get_order-submit so t.now e1 h1 in
    let ran : run_orders t o (some b1) (some s1) (submitted t o s) ≡ returns s' =
      ap (λ q. run_orders t o q (some s1) (submitted t o s)) (sym g1)
      ∙ ap
          (λ q.
            run_orders t o (get_order (submit b t.now s.exec).1 (submit so t.now e1).0) q
              (submitted t o s))
          (sym k1)
      ∙ e in
    let (x, after, n) = run_orders-Traded t o b1 s1 (submitted t o s) s' s.risk refl h2 ran in
    (
      after.holds,
      record {
        count = n;
        outstanding = after.outstanding;
        result = x.result;
        counted = after.consecutive_fails;
        halted = after.kill;
      },
    )
