-- ===== src/Engine/Kept.antt =====
-- What a trade of internal/engine/engine.go reads and never writes: the pipeline and the
-- configuration.
use crossvenue.Base.{
  ◌||◌, List, [], ◌∷◌, String, Option, none, some, ◌≡◌, refl, ◌∙◌, inl, inr, Bool-cases,
}
use crossvenue.Base.Int.{ltb_ℤ}
use crossvenue.Base.Outcome.{returns, >>=-returns, returns_eq}
use crossvenue.Decimal.{is_positive, is_negative, mul}
use crossvenue.Domain.{Venue}
use crossvenue.Opportunity.{Opportunity}
use crossvenue.Portfolio.{balance}
use crossvenue.Execution.{Order}
use crossvenue.Execution.Filling.{FillEvent}
use crossvenue.Execution.Simulating.{Executed, Result, execute_arbitrage, get_order}
use crossvenue.Journal.{Aggregate}
use crossvenue.Engine.State.{Times, Supervisor, Payload, note, base_quote}
use crossvenue.Engine.Trade.{
  check_inventory, execute, submitted, run_orders, finish, halt, note_fills, note_residual, settle,
  before_settling, after_settling, policy_of, market_of, leg_numbers, put_orders, is_over_limit,
  closed_twice, is_success,
}
use crossvenue.Engine.Loop.{run_effect, run_effects}
use crossvenue.Pipeline.Lane.{
  Effect, journal, inc_sequence_gap, inc_dropped, set_queue_depth, resync_request,
}
use crossvenue.Engine.Loop.{is_among}

pub record Kept (s s' : Supervisor) : Type 0 where
  pub pipe : s'.pipe ≡ s.pipe
  pub cfg : s'.cfg ≡ s.cfg

pub Kept-trans : (a b c : Supervisor) → Kept a b → Kept b c → Kept a c
Kept-trans a b c f g = record { pipe = g.pipe ∙ f.pipe; cfg = g.cfg ∙ f.cfg }

pub Kept-refl : (s : Supervisor) → Kept s s
Kept-refl s = record { pipe = refl; cfg = refl }

pub Kept-eq : (s s' : Supervisor) → s ≡ s' → Kept s s'
Kept-eq s s' e = rw e (Kept-refl s')

pub note-Kept :
    (t : Times) (type : String) (v : Venue) (symbol : String) (a : Aggregate) (p : Payload)
    (s : Supervisor)
    → Kept s (note t type v symbol a p s)
unfolding note
note-Kept t type v symbol a p s = record { pipe = refl; cfg = refl }

note_fills-Kept : (t : Times) (fs : List FillEvent) (s : Supervisor) → Kept s (note_fills t fs s)
unfolding note_fills
note_fills-Kept t [] s = Kept-refl s
note_fills-Kept t (f ∷ fs) s = Kept-trans s _ _ (note-Kept t _ _ _ _ _ s) (note_fills-Kept t fs _)

note_residual-Kept :
    (t : Times) (o : Opportunity) (r : Result) (s : Supervisor) → Kept s (note_residual t o r s)
unfolding note_residual
note_residual-Kept t o r s =
    elim (Bool-cases (is_positive r.residual_qty || is_negative r.residual_qty)) [
      | inl moved ↦ rw moved (note-Kept t _ _ _ _ _ s)
      | inr flat ↦ rw flat (Kept-refl s)
    ]

halt-Kept : (t : Times) (o : Opportunity) (s : Supervisor) → Kept s (halt t o s)
unfolding halt note
halt-Kept t o s =
    elim (Bool-cases (is_over_limit s.cfg.risk.max_consecutive_fails s.risk.consecutive_fails)) [
      | inl over ↦ rw over (record { pipe = refl; cfg = refl })
      | inr under ↦ rw under (Kept-refl s)
    ]

before_settling-Kept :
    (t : Times) (o : Opportunity) (x : Executed) (s : Supervisor) → Kept s (before_settling t o x s)
unfolding before_settling
before_settling-Kept t o x s =
    let s0 = record s { exec = put_orders x s.exec } in
    let s1 = note_fills t x.fills s0 in
    let k = note_fills-Kept t x.fills s0 in
    let s2 = record s1 { risk = closed_twice (is_success x.result) s1.risk } in
    let h = halt-Kept t o s2 in record { pipe = h.pipe ∙ k.pipe; cfg = h.cfg ∙ k.cfg }

finish-Kept :
    (t : Times) (o : Opportunity) (x : Executed) (s s' : Supervisor)
    → finish t o x s ≡ returns s'
    → Kept s s'
unfolding finish after_settling
finish-Kept t o x s s' e =
    let s1 = before_settling t o x s in
    let (l, e1, h) = >>=-returns (settle o x.result s1.ledger) _ e in
    let b = before_settling-Kept t o x s in
    let k = note_residual-Kept t o x.result (record s1 { ledger = l }) in
    Kept-trans s (after_settling t o x.result (record s1 { ledger = l })) s'
      (record { pipe = k.pipe ∙ b.pipe; cfg = k.cfg ∙ b.cfg }) (Kept-eq _ s' (returns_eq h))

run_orders-Kept :
    (t : Times) (o : Opportunity) (b so : Option Order) (s s' : Supervisor)
    → run_orders t o b so s ≡ returns s'
    → Kept s s'
unfolding run_orders
run_orders-Kept t o (some b) (some so) s s' e =
    let (x, e1, h) =
      >>=-returns
        (execute_arbitrage (policy_of s.cfg.execution.policy) (market_of t b.symbol b.venue s)
          (market_of t so.symbol so.venue s) t.now b so)
        _ e in
    finish-Kept t o x s s' h
run_orders-Kept t o none so s s' e = Kept-eq s s' (returns_eq e)
run_orders-Kept t o (some b) none s s' e = Kept-eq s s' (returns_eq e)

submitted-Kept : (t : Times) (o : Opportunity) (s : Supervisor) → Kept s (submitted t o s)
unfolding submitted note
submitted-Kept t o s = record { pipe = refl; cfg = refl }

pub check_inventory-Kept :
    (t : Times) (o : Opportunity) (s s' : Supervisor)
    → check_inventory t o s ≡ returns s'
    → Kept s s'
unfolding check_inventory execute
check_inventory-Kept t o s s' e =
    let (n, e1, h) = >>=-returns (mul o.buy_vwap o.quantity) _ e in
    let s1 = submitted t o s in
    let ran = λ (g : execute t o s ≡ returns s'). Kept-trans s s1 s' (submitted-Kept t o s) (
      run_orders-Kept t o (get_order (leg_numbers t o s.exec).0 s1.exec)
        (get_order (leg_numbers t o s.exec).1 s1.exec) s1 s' g) in
    elim (Bool-cases (ltb_ℤ (balance o.buy_venue (base_quote o.symbol).1 s.ledger).available n)) [
      | inl no_quote ↦
          Kept-trans s _ s' (note-Kept t _ _ _ _ _ s) (Kept-eq _ s' (returns_eq (rw no_quote at h)))
      | inr quote ↦
          elim (Bool-cases
            (ltb_ℤ (balance o.sell_venue (base_quote o.symbol).0 s.ledger).available o.quantity)) [
              | inl no_base ↦
                  Kept-trans s _ s' (note-Kept t _ _ _ _ _ s)
                    (Kept-eq _ s' (returns_eq (rw (quote, no_base) at h)))
              | inr base ↦ ran (rw (quote, base) at h)
            ]
    ]

run_effect-Kept : (t : Times) (e : Effect) (s : Supervisor) → Kept s (run_effect t e s)
unfolding run_effect note
run_effect-Kept t (journal e v symbol) s = record { pipe = refl; cfg = refl }
run_effect-Kept t (inc_sequence_gap v) s = Kept-refl s
run_effect-Kept t (inc_dropped v) s = Kept-refl s
run_effect-Kept t (set_queue_depth v n) s = Kept-refl s
run_effect-Kept t (resync_request v symbol r) s = elim (Bool-cases (is_among v s.adapters)) [
  | inl h ↦ rw h (record { pipe = refl; cfg = refl })
  | inr h ↦ rw h (Kept-refl s)
]

pub run_effects-Kept : (t : Times) (es : List Effect) (s : Supervisor) → Kept s (run_effects t es s)
unfolding run_effects
run_effects-Kept t [] s = Kept-refl s
run_effects-Kept t (e ∷ es) s =
    Kept-trans s (run_effect t e s) (run_effects t es (run_effect t e s)) (run_effect-Kept t e s)
      (run_effects-Kept t es (run_effect t e s))
