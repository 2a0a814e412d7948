-- ===== src/Service/Passes.antt =====
-- The steps of the evaluation of internal/engine/engine.go, when nothing comes between them.
use crossvenue.Base.{ℕ, zero, suc, List, [], ◌∷◌, String, ◌≡◌, refl, ap, inl, inr, Bool-cases}
use crossvenue.Base.Outcome.{Outcome, returns, ◌>>=◌, >>=-returns, returns_eq}
use crossvenue.Opportunity.{Opportunity, evaluate}
use crossvenue.Engine.State.{Times, Supervisor}
use crossvenue.Engine.Decide.{decide, denied}
use crossvenue.Engine.Trade.{maybe_execute, check_inventory}
use crossvenue.Engine.Loop.{record_opp, take_opps, evaluate_symbol, evaluate_symbols, evaluate_once}
use crossvenue.Service.{Pass, waiting, scanning, trading, decided, evaluate_step}

-- Steps in a row, at one reading of the clocks.
abbrev pub in_a_row : ℕ → Times → Pass × Supervisor → Outcome (Pass × Supervisor)
in_a_row zero t (p, s) = returns (p, s)
in_a_row (suc n) t (p, s) = evaluate_step t p s >>= in_a_row n t

abbrev Leads : Times → Pass × Supervisor → Pass × Supervisor → Type 0
Leads t x y = (n : ℕ) × (in_a_row n t x ≡ returns y)

one_step :
    (t : Times) (p : Pass) (s : Supervisor) (x y : Pass × Supervisor)
    → evaluate_step t p s ≡ returns x
    → Leads t x y
    → Leads t (p, s) y
one_step t p s x y e (n, h) = (suc n, rw e h)

maybe_execute-Leads :
    (t : Times) (o : Opportunity) (symbols : List String) (os : List Opportunity)
    (s s' : Supervisor) (y : Pass × Supervisor)
    → maybe_execute t o (record_opp t o s) ≡ returns s'
    → Leads t (scanning t.now symbols os, s') y
    → Leads t (scanning t.now symbols (o ∷ os), s) y
unfolding maybe_execute evaluate_step decided
maybe_execute-Leads t o symbols os s s' y e h =
    let s1 = record_opp t o s in
    let (d, e1, k) = >>=-returns (decide t o s1) _ e in
    elim (Bool-cases d.allowed) [
      | inl yes_allowed ↦
          let go : check_inventory t o s1 ≡ returns s' = rw yes_allowed at k in
          one_step t (scanning t.now symbols (o ∷ os)) s (trading t.now o symbols os, s1) y
            (rw (e1, yes_allowed) refl)
            (one_step t (trading t.now o symbols os) s1 (scanning t.now symbols os, s') y
              (rw go refl) h)
      | inr no_trade ↦
          let same : denied t o d s1 ≡ s' = returns_eq (rw no_trade at k) in
          one_step t (scanning t.now symbols (o ∷ os)) s (scanning t.now symbols os, s') y
            (rw (e1, no_trade, same) refl) h
    ]

take_opps-Leads :
    (t : Times) (symbols : List String) (os : List Opportunity) (s s' : Supervisor)
    (y : Pass × Supervisor)
    → take_opps t os s ≡ returns s'
    → Leads t (scanning t.now symbols [], s') y
    → Leads t (scanning t.now symbols os, s) y
unfolding take_opps
take_opps-Leads t symbols [] s s' y e (n, h) = (n, rw (returns_eq e) h)
take_opps-Leads t symbols (o ∷ os) s s' y e h =
    let (s1, e1, k) = >>=-returns (maybe_execute t o (record_opp t o s)) (take_opps t os) e in
    maybe_execute-Leads t o symbols os s s1 y e1 (take_opps-Leads t symbols os s1 s' y k h)

evaluate_symbols-Leads :
    (t : Times) (symbols : List String) (s s' : Supervisor)
    → evaluate_symbols t symbols s ≡ returns s'
    → Leads t (scanning t.now symbols [], s) (waiting, s')
unfolding evaluate_symbols evaluate_symbol evaluate_step
evaluate_symbols-Leads t [] s s' e = (1, ap (λ x. returns (waiting, x)) (returns_eq e))
evaluate_symbols-Leads t (symbol ∷ symbols) s s' e =
    let (s2, e1, k) = >>=-returns (evaluate_symbol t symbol s) (evaluate_symbols t symbols) e in
    let (r, e2, h) =
      >>=-returns (evaluate s.opp s.pipe.mgr t.read t.now symbol s.venues s.opp_ctr) _ e1 in
    let s1 = record s { opp_ctr = r.0 } in
    one_step t (scanning t.now (symbol ∷ symbols) []) s (scanning t.now symbols r.1, s1)
      (waiting, s') (rw e2 refl)
      (take_opps-Leads t symbols r.1 s1 s2 (waiting, s') h
        (evaluate_symbols-Leads t symbols s2 s' k))

-- A pass of `EvaluateOnce` that returns is so many steps of the evaluation: from waiting to waiting,
-- to the same supervisor.
evaluate_once-Leads :
    (t : Times) (s s' : Supervisor)
    → evaluate_once t s ≡ returns s'
    → (n : ℕ) × (in_a_row n t (waiting, s) ≡ returns (waiting, s'))
unfolding evaluate_once evaluate_step
evaluate_once-Leads t s s' e =
    one_step t waiting s (scanning t.now s.cfg.symbols [], s) (waiting, s') refl
      (evaluate_symbols-Leads t s.cfg.symbols s s' e)
