-- ===== src/Engine/Halted.antt =====
-- What a pass of internal/engine/engine.go leaves alone when it does not trade.
use crossvenue.Base.{
  true, false, List, [], ◌∷◌, String, Option, none, some, ◌≡◌, refl, sym, ap, ◌∙◌, inl, inr,
  Bool-cases, arith,
}
use crossvenue.Base.Outcome.{returns, >>=-returns, returns_eq}
use crossvenue.Domain.{Venue, MarketEvent}
use crossvenue.Opportunity.{Opportunity, evaluate}
use crossvenue.Risk.{Decision}
use crossvenue.Risk.Gates.{allowed_passes}
use crossvenue.Pipeline.{Pipeline, apply_sync}
use crossvenue.Pipeline.Lane.{
  Effect, journal, inc_sequence_gap, inc_dropped, set_queue_depth, resync_request,
}
use crossvenue.Journal.{Aggregate}
use crossvenue.Replay.{Codec, Recorder}
use crossvenue.Engine.State.{Times, Supervisor, Payload, note}
use crossvenue.Engine.Decide.{decide, denied, exposure_of, mid_lookup, request_of}
use crossvenue.Engine.Trade.{maybe_execute}
use crossvenue.Engine.Loop.{
  record_opp, take_opps, evaluate_symbol, evaluate_symbols, evaluate_once, run_effect, run_effects,
  after_pipe, is_among, record_tee, run_deterministic,
}

-- Nothing was traded: the orders, the counters of the risk engine, the ledger and the count of
-- executions are as they were, and so is the configuration.
pub record Untouched (s s' : Supervisor) : Type 0 where
  pub cfg : s'.cfg ≡ s.cfg
  pub exec : s'.exec ≡ s.exec
  pub risk : s'.risk ≡ s.risk
  pub ledger : s'.ledger ≡ s.ledger
  pub executed_count : s'.executed_count ≡ s.executed_count

pub Untouched-trans : (a b c : Supervisor) → Untouched a b → Untouched b c → Untouched a c
Untouched-trans a b c f g = record {
  cfg = g.cfg ∙ f.cfg;
  exec = g.exec ∙ f.exec;
  risk = g.risk ∙ f.risk;
  ledger = g.ledger ∙ f.ledger;
  executed_count = g.executed_count ∙ f.executed_count;
}

pub Untouched-refl : (s : Supervisor) → Untouched s s
Untouched-refl s = record {
  cfg = refl;
  exec = refl;
  risk = refl;
  ledger = refl;
  executed_count = refl;
}

Untouched-eq : (s s' : Supervisor) → s ≡ s' → Untouched s s'
Untouched-eq s s' e = rw e (Untouched-refl s')

pub note-Untouched :
    (t : Times) (type : String) (v : Venue) (symbol : String) (a : Aggregate) (p : Payload)
    (s : Supervisor)
    → Untouched s (note t type v symbol a p s)
unfolding note
note-Untouched t type v symbol a p s = record {
  cfg = refl;
  exec = refl;
  risk = refl;
  ledger = refl;
  executed_count = refl;
}

pub decide-halted :
    (t : Times) (o : Opportunity) (s : Supervisor) (d : Decision)
    → s.risk.kill ≡ true
    → decide t o s ≡ returns d
    → d.allowed ≡ false
unfolding decide
decide-halted t o s d k e = elim (Bool-cases d.allowed) [
  | inr no_trade ↦ no_trade
  | inl h ↦
      let passed =
        allowed_passes s.limits s.risk (exposure_of s.ledger) s.pipe.mgr t.read
          (mid_lookup t o.symbol s.pipe.mgr) (request_of t o) d e h in
      cc (passed.counters.0)
]

pub denied-Untouched :
    (t : Times) (o : Opportunity) (d : Decision) (s : Supervisor) → Untouched s (denied t o d s)
unfolding denied note
denied-Untouched t o d s = record {
  cfg = refl;
  exec = refl;
  risk = refl;
  ledger = refl;
  executed_count = refl;
}

pub record_opp-Untouched :
    (t : Times) (o : Opportunity) (s : Supervisor) → Untouched s (record_opp t o s)
unfolding record_opp note
record_opp-Untouched t o s = record {
  cfg = refl;
  exec = refl;
  risk = refl;
  ledger = refl;
  executed_count = refl;
}

maybe_execute-halted :
    (t : Times) (o : Opportunity) (s s' : Supervisor)
    → s.risk.kill ≡ true
    → maybe_execute t o s ≡ returns s'
    → Untouched s s'
unfolding maybe_execute
maybe_execute-halted t o s s' k e =
    let (d, e1, h) = >>=-returns (decide t o s) _ e in
    let no = decide-halted t o s d k e1 in
    let same : denied t o d s ≡ s' = ground arith in rw (sym same) (denied-Untouched t o d s)

take_opps-halted :
    (t : Times) (os : List Opportunity) (s s' : Supervisor)
    → s.risk.kill ≡ true
    → take_opps t os s ≡ returns s'
    → Untouched s s'
unfolding take_opps
take_opps-halted t [] s s' k e = Untouched-eq s s' (returns_eq e)
take_opps-halted t (o ∷ os) s s' k e =
    let s1 = record_opp t o s in
    let (s2, e1, h) = >>=-returns (maybe_execute t o s1) (take_opps t os) e in
    let u1 = record_opp-Untouched t o s in
    let k1 : s1.risk.kill ≡ true = ap (λ r. r.kill) u1.risk ∙ k in
    let u2 = maybe_execute-halted t o s1 s2 k1 e1 in
    let k2 : s2.risk.kill ≡ true = ap (λ r. r.kill) u2.risk ∙ k1 in
    Untouched-trans s s1 s' u1 (Untouched-trans s1 s2 s' u2 (take_opps-halted t os s2 s' k2 h))

pub evaluate_symbols-halted :
    (t : Times) (symbols : List String) (s s' : Supervisor)
    → s.risk.kill ≡ true
    → evaluate_symbols t symbols s ≡ returns s'
    → Untouched s s'
unfolding evaluate_symbols evaluate_symbol
evaluate_symbols-halted t [] s s' k e = Untouched-eq s s' (returns_eq e)
evaluate_symbols-halted t (symbol ∷ symbols) s s' k e =
    let (s2, e1, h) = >>=-returns (evaluate_symbol t symbol s) (evaluate_symbols t symbols) e in
    let (r, e2, h2) =
      >>=-returns (evaluate s.opp s.pipe.mgr t.read t.now symbol s.venues s.opp_ctr) _ e1 in
    let s1 = record s { opp_ctr = r.0 } in
    let u2 = take_opps-halted t r.1 s1 s2 k h2 in
    let k2 : s2.risk.kill ≡ true = ap (λ r. r.kill) u2.risk ∙ k in
    Untouched-trans s s1 s'
      (record { cfg = refl; exec = refl; risk = refl; ledger = refl; executed_count = refl })
      (Untouched-trans s1 s2 s' u2 (evaluate_symbols-halted t symbols s2 s' k2 h))

run_effect-Untouched : (t : Times) (e : Effect) (s : Supervisor) → Untouched s (run_effect t e s)
unfolding run_effect note
run_effect-Untouched t (journal e v symbol) s = record {
  cfg = refl;
  exec = refl;
  risk = refl;
  ledger = refl;
  executed_count = refl;
}
run_effect-Untouched t (inc_sequence_gap v) s = Untouched-refl s
run_effect-Untouched t (inc_dropped v) s = Untouched-refl s
run_effect-Untouched t (set_queue_depth v n) s = Untouched-refl s
run_effect-Untouched t (resync_request v symbol r) s = elim (Bool-cases (is_among v s.adapters)) [
  | inl h ↦
      rw h (record { cfg = refl; exec = refl; risk = refl; ledger = refl; executed_count = refl })
  | inr h ↦ rw h (Untouched-refl s)
]

pub run_effects-Untouched :
    (t : Times) (es : List Effect) (s : Supervisor) → Untouched s (run_effects t es s)
unfolding run_effects
run_effects-Untouched t [] s = Untouched-refl s
run_effects-Untouched t (e ∷ es) s =
    Untouched-trans s (run_effect t e s) (run_effects t es (run_effect t e s))
      (run_effect-Untouched t e s) (run_effects-Untouched t es (run_effect t e s))

pub after_pipe-Untouched :
    (t : Times) (r : Option (Pipeline × List Effect)) (s : Supervisor)
    → Untouched s (after_pipe t r s)
unfolding after_pipe
after_pipe-Untouched t none s = Untouched-refl s
after_pipe-Untouched t (some (p, es)) s =
    Untouched-trans s (record s { pipe = p }) _
      (record { cfg = refl; exec = refl; risk = refl; ledger = refl; executed_count = refl })
      (run_effects-Untouched t es (record s { pipe = p }))

module _ (c : Codec) where
  -- Once the kill switch is active, a deterministic run trades nothing, whatever the events are:
  -- where it returns, the orders, the ledger, the counters of the risk engine with the switch, and
  -- the count of executions are as they were when it began.
  pub run_deterministic-halted :
      (evs : List (Times × MarketEvent)) (r r' : Option (Recorder c)) (s s' : Supervisor)
      → s.risk.kill ≡ true
      → run_deterministic c evs r s ≡ returns (r', s')
      → Untouched s s'
  unfolding run_deterministic evaluate_once
  run_deterministic-halted [] r r' s s' k e = Untouched-eq s s' (ap (λ x. x.1) (returns_eq e))
  run_deterministic-halted ((t, ev) ∷ evs) r r' s s' k e =
      let s1 = after_pipe t (apply_sync t.now ev s.pipe) s in
      let u1 = after_pipe-Untouched t (apply_sync t.now ev s.pipe) s in
      let (s2, e1, h) =
        >>=-returns (evaluate_once t s1) (run_deterministic c evs (record_tee c ev r)) e in
      let k1 : s1.risk.kill ≡ true = ap (λ x. x.kill) u1.risk ∙ k in
      let u2 = evaluate_symbols-halted t s1.cfg.symbols s1 s2 k1 e1 in
      let k2 : s2.risk.kill ≡ true = ap (λ x. x.kill) u2.risk ∙ k1 in
      Untouched-trans s s1 s' u1 (
        Untouched-trans s1 s2 s' u2
          (run_deterministic-halted evs (record_tee c ev r) r' s2 s' k2 h))
