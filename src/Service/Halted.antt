-- ===== src/Service/Halted.antt =====
-- The kill switch of the HTTP interface, over everything that the process does after it.
use crossvenue.Base.{
  Bool, true, false, Option, none, some, List, [], ◌∷◌, String, ◌==◌, string_eq, ◌≡◌, refl, sym, ap,
  ◌∙◌, ◌⊎◌, inl, inr, Bool-cases,
}
use crossvenue.Base.Lists.{All}
use crossvenue.Base.Outcome.{returns, >>=-returns, returns_eq}
use crossvenue.Domain.{Venue}
use crossvenue.Venue.Connection.{Health}
use crossvenue.Pipeline.{submit, work, sweep}
use crossvenue.Opportunity.{Opportunity, evaluate}
use crossvenue.Execution.Orders.{Holds}
use mathlib.Core.Path.{subst}
use crossvenue.Replay.{Codec}
use crossvenue.Engine.State.{Times, Supervisor, note}
use crossvenue.Engine.Decide.{decide}
use crossvenue.Engine.Trade.{check_inventory}
use crossvenue.Engine.Loop.{ingest, record_opp, run_effects}
use crossvenue.Engine.Guards.{check_inventory-Traded}
use crossvenue.Engine.Halted.{
  Untouched, Untouched-trans, after_pipe-Untouched, run_effects-Untouched, decide-halted,
  denied-Untouched, record_opp-Untouched,
}
use crossvenue.Api.{Request, Endpoint, serve, dispatch, kill_at, kill_reset_at, kill_handler}
use crossvenue.Service.{
  Act, ingests, works, sweeps, evaluates, serves, Pass, waiting, scanning, trading, decided,
  evaluate_step, Process, act, acts,
}

-- A POST to the endpoint that resets the switch.
abbrev resets_at : Endpoint → String → Bool
resets_at kill_reset_at method = method == "POST"
resets_at _ method = false

abbrev pub is_reset : Act → Bool
is_reset (serves hs q) = resets_at q.endpoint q.method
is_reset _ = false

-- The switch is on, and no order, ledger entry, outstanding order or execution has changed.
pub record IsHalted (s s' : Supervisor) : Type 0 where
  pub kill : s'.risk.kill ≡ true
  pub exec : s'.exec ≡ s.exec
  pub ledger : s'.ledger ≡ s.ledger
  pub executed_count : s'.executed_count ≡ s.executed_count
  pub outstanding : s'.risk.outstanding ≡ s.risk.outstanding

IsHalted-trans : (a b c : Supervisor) → IsHalted a b → IsHalted b c → IsHalted a c
IsHalted-trans a b c f g = record {
  kill = g.kill;
  exec = g.exec ∙ f.exec;
  ledger = g.ledger ∙ f.ledger;
  executed_count = g.executed_count ∙ f.executed_count;
  outstanding = g.outstanding ∙ f.outstanding;
}

Untouched-IsHalted : (s s' : Supervisor) → s.risk.kill ≡ true → Untouched s s' → IsHalted s s'
Untouched-IsHalted s s' k u = record {
  kill = ap (λ r. r.kill) u.risk ∙ k;
  exec = u.exec;
  ledger = u.ledger;
  executed_count = u.executed_count;
  outstanding = ap (λ r. r.outstanding) u.risk;
}

IsHalted-eq : (s s' : Supervisor) → s.risk.kill ≡ true → s ≡ s' → IsHalted s s'
IsHalted-eq s s' k e = record {
  kill = ap (λ x. x.risk.kill) (sym e) ∙ k;
  exec = ap (λ x. x.exec) (sym e);
  ledger = ap (λ x. x.ledger) (sym e);
  executed_count = ap (λ x. x.executed_count) (sym e);
  outstanding = ap (λ x. x.risk.outstanding) (sym e);
}

kill_handler-IsHalted :
    (t : Times) (method : String) (s : Supervisor)
    → s.risk.kill ≡ true
    → IsHalted s (kill_handler t method s).0
unfolding kill_handler note
kill_handler-IsHalted t method s k = elim (Bool-cases (method == "POST")) [
  | inl post ↦ rw post (record {
    kill = refl;
    exec = refl;
    ledger = refl;
    executed_count = refl;
    outstanding = refl;
  })
  | inr other_method ↦ rw other_method (IsHalted-eq s s k refl)
]

dispatch-IsHalted :
    (hs : List (Venue × Health)) (t : Times) (q : Request) (e : Endpoint) (s : Supervisor)
    → resets_at e q.method ≡ false
    → s.risk.kill ≡ true
    → IsHalted s (dispatch hs t q e s).0
unfolding dispatch
dispatch-IsHalted hs t q kill_at s n k = kill_handler-IsHalted t q.method s k
dispatch-IsHalted hs t q kill_reset_at s n k = rw n (IsHalted-eq s s k refl)
dispatch-IsHalted hs t q _ s n k = IsHalted-eq s s k refl

abbrev pub checked : Pass → Option Opportunity
checked (trading now o symbols os) = some o
checked _ = none

-- One trade: what `maybeExecute` does with the opportunity behind the risk engine's decision.
pub record TradedOnce (allowed : Option Opportunity) (s s' : Supervisor) : Type 0 where
  pub opportunity : Opportunity
  pub is_allowed : allowed ≡ some opportunity
  pub at : Times
  pub before : Supervisor
  pub after : Supervisor
  pub trade : check_inventory at opportunity before ≡ returns after
  pub halted_before : IsHalted s before
  pub halted_after : IsHalted after s'

abbrev pub AfterKill : Option Opportunity → Supervisor → Supervisor → Type 0
AfterKill allowed s s' = IsHalted s s' ⊎ TradedOnce allowed s s'

check_inventory-kill :
    (t : Times) (o : Opportunity) (s s' : Supervisor)
    → Holds s.exec
    → s.risk.kill ≡ true
    → check_inventory t o s ≡ returns s'
    → Holds s'.exec × (s'.risk.kill ≡ true)
check_inventory-kill t o s s' h k e =
    let (held, how) = check_inventory-Traded t o s s' h e in
    (
      held,
      elim how [
        | inl u ↦ ap (λ r. r.kill) u.risk ∙ k
        | inr (n, mn, quote, base, traded) ↦ rw (traded.halted, k) refl
      ],
    )

-- What a step of the evaluation does while the switch is on.
evaluate_step-IsHalted :
    (t : Times) (p p' : Pass) (s s' : Supervisor)
    → s.risk.kill ≡ true
    → evaluate_step t p s ≡ returns (p', s')
    → (IsHalted s s' × (checked p' ≡ checked p))
      ⊎ ((o : Opportunity) × (at : Times) × (checked p ≡ some o)
          × (checked p' ≡ none)
          × (check_inventory at o s ≡ returns s'))
unfolding evaluate_step decided
evaluate_step-IsHalted t waiting p' s s' k e =
    let same = returns_eq e in
    inl (IsHalted-eq s s' k (ap (λ x. x.1) same), ap (λ x. checked x.0) (sym same))
evaluate_step-IsHalted t (scanning now [] []) p' s s' k e =
    let same = returns_eq e in
    inl (IsHalted-eq s s' k (ap (λ x. x.1) same), ap (λ x. checked x.0) (sym same))
evaluate_step-IsHalted t (scanning now (symbol ∷ symbols) []) p' s s' k e =
    let (r, e1, h) =
      >>=-returns (evaluate s.opp s.pipe.mgr t.read now symbol s.venues s.opp_ctr) _ e in
    let same = returns_eq h in
    let counted = record s { opp_ctr = r.0 } in
    let i : IsHalted s counted = record {
      kill = k;
      exec = refl;
      ledger = refl;
      executed_count = refl;
      outstanding = refl;
    } in
    inl (
      IsHalted-trans s counted s' i (IsHalted-eq counted s' k (ap (λ x. x.1) same)),
      ap (λ x. checked x.0) (sym same),
    )
evaluate_step-IsHalted t (scanning now symbols (o ∷ os)) p' s s' k e =
    let t' = record t { now = now } in
    let s1 = record_opp t' o s in
    let (d, e1, h) = >>=-returns (decide t' o s1) _ e in
    let u1 = record_opp-Untouched t' o s in
    let no = decide-halted t' o s1 d (ap (λ r. r.kill) u1.risk ∙ k) e1 in
    let u = Untouched-trans s s1 _ u1 (denied-Untouched t' o d s1) in
    let i = Untouched-IsHalted s _ k u in
    let same = returns_eq (rw no at h) in
    inl (
      IsHalted-trans s _ s' i (IsHalted-eq _ s' i.kill (ap (λ x. x.1) same)),
      ap (λ x. checked x.0) (sym same),
    )
evaluate_step-IsHalted t (trading now o symbols os) p' s s' k e =
    let t' = record t { now = now } in
    let (s1, e1, h) = >>=-returns (check_inventory t' o s) _ e in
    let same = returns_eq h in
    inr (o, t', refl, ap (λ x. checked x.0) (sym same), e1 ∙ ap (λ x. returns x.1) same)

module _ (c : Codec) where
  act-IsHalted :
      (t : Times) (a : Act) (p p' : Process c)
      → is_reset a ≡ false
      → p.supervisor.risk.kill ≡ true
      → act c t a p ≡ returns p'
      → (IsHalted p.supervisor p'.supervisor × (checked p'.pass ≡ checked p.pass))
        ⊎ ((o : Opportunity) × (at : Times) × (checked p.pass ≡ some o)
            × (checked p'.pass ≡ none)
            × (check_inventory at o p.supervisor ≡ returns p'.supervisor))
  unfolding act ingest serve
  act-IsHalted t (ingests ev) p p' n k e =
      let s = p.supervisor in
      let same = returns_eq e in
      let u = after_pipe-Untouched t (submit t.now ev s.pipe) s in
      let i = Untouched-IsHalted s _ k u in
      inl (
        IsHalted-trans s _ p'.supervisor i
            (IsHalted-eq _ p'.supervisor i.kill (ap (λ x. x.supervisor) same)),
        ap (λ x. checked x.pass) (sym same),
      )
  act-IsHalted t (works key) p p' n k e =
      let s = p.supervisor in
      let same = returns_eq e in
      let (pipe, es) = work key s.pipe in
      let u = run_effects-Untouched t es (record s { pipe = pipe }) in
      let i : IsHalted s (run_effects t es (record s { pipe = pipe })) =
        Untouched-IsHalted s _ k (record {
          cfg = u.cfg;
          exec = u.exec;
          risk = u.risk;
          ledger = u.ledger;
          executed_count = u.executed_count;
        }) in
      inl (
        IsHalted-trans s _ p'.supervisor i
            (IsHalted-eq _ p'.supervisor i.kill (ap (λ x. x.supervisor) same)),
        ap (λ x. checked x.pass) (sym same),
      )
  act-IsHalted t sweeps p p' n k e =
      let s = p.supervisor in
      let same = returns_eq e in
      let swept = record s { pipe = sweep t.now s.pipe } in
      let i : IsHalted s swept = record {
        kill = k;
        exec = refl;
        ledger = refl;
        executed_count = refl;
        outstanding = refl;
      } in
      inl (
        IsHalted-trans s swept p'.supervisor i
            (IsHalted-eq swept p'.supervisor k (ap (λ x. x.supervisor) same)),
        ap (λ x. checked x.pass) (sym same),
      )
  act-IsHalted t evaluates p p' n k e =
      let (r, e1, h) = >>=-returns (evaluate_step t p.pass p.supervisor) _ e in
      let same = returns_eq h in
      let e2 : evaluate_step t p.pass p.supervisor ≡ returns (p'.pass, p'.supervisor) =
        e1 ∙ ap (λ x. returns (x.pass, x.supervisor)) same in
      evaluate_step-IsHalted t p.pass p'.pass p.supervisor p'.supervisor k e2
  act-IsHalted t (serves hs q) p p' n k e =
      let s = p.supervisor in
      let same = returns_eq e in
      let i = dispatch-IsHalted hs t q q.endpoint s n k in
      inl (
        IsHalted-trans s _ p'.supervisor i
            (IsHalted-eq _ p'.supervisor i.kill (ap (λ x. x.supervisor) same)),
        ap (λ x. checked x.pass) (sym same),
      )

  AfterKill-acts :
      (todo : List (Times × Act)) (p p' : Process c)
      → All (λ x. is_reset x.1 ≡ false) todo
      → p.supervisor.risk.kill ≡ true
      → Holds p.supervisor.exec
      → acts c todo p ≡ returns p'
      → AfterKill (checked p.pass) p.supervisor p'.supervisor
  unfolding acts
  AfterKill-acts [] p p' n k o e =
      inl (IsHalted-eq p.supervisor p'.supervisor k (ap (λ x. x.supervisor) (returns_eq e)))
  AfterKill-acts ((t, a) ∷ next) p p' n k held e =
      let (p1, e1, h) = >>=-returns (act c t a p) _ e in
      let s = p.supervisor in
      let s1 = p1.supervisor in
      let s' = p'.supervisor in
      elim (act-IsHalted t a p p1 n.0 k e1) [
        | inl (i, same) ↦
            let held1 : Holds s1.exec = subst Holds (sym i.exec) held in
            elim (AfterKill-acts next p1 p' n.1 i.kill held1 h) [
              | inl j ↦ inl (IsHalted-trans s s1 s' i j)
              | inr w ↦ inr (record {
                opportunity = w.opportunity;
                is_allowed = sym same ∙ w.is_allowed;
                at = w.at;
                before = w.before;
                after = w.after;
                trade = w.trade;
                halted_before = IsHalted-trans s s1 w.before i w.halted_before;
                halted_after = w.halted_after;
              })
            ]
        | inr (o, at, was, now_none, trade) ↦
            let (held1, k1) = check_inventory-kill at o s s1 held k trade in
            elim (AfterKill-acts next p1 p' n.1 k1 held1 h) [
              | inl j ↦ inr (record {
                opportunity = o;
                is_allowed = was;
                at = at;
                before = s;
                after = s1;
                trade = trade;
                halted_before = IsHalted-eq s s k refl;
                halted_after = j;
              })
              | inr w ↦ absurd (cc (sym now_none ∙ w.is_allowed))
            ]
      ]

  -- Once a POST to the kill switch is served, whatever follows until a POST resets the switch,
  -- however the steps of the goroutines interleave: where the process returns, the switch is on, and
  -- no order, ledger entry, count of outstanding orders or count of executions has changed; or else
  -- one opportunity, which the risk engine had allowed before the POST, went through the rest of
  -- `maybeExecute` behind it, and nothing changed before that or after it. Every client order
  -- identifier is taken to lead to an order when the POST comes.
  pub acts-IsHalted :
      (t : Times) (hs : List (Venue × Health)) (q : Request) (next : List (Times × Act))
      (p p' : Process c)
      → q.endpoint ≡ kill_at
      → q.method ≡ "POST"
      → All (λ x. is_reset x.1 ≡ false) next
      → Holds p.supervisor.exec
      → acts c ((t, serves hs q) ∷ next) p ≡ returns p'
      → (p'.supervisor.risk.kill ≡ true) × AfterKill (checked p.pass) p.supervisor p'.supervisor
  unfolding acts act serve dispatch kill_handler note
  acts-IsHalted t hs q next p p' at_kill post n held e =
      let p1 = record p { supervisor = (kill_handler t "POST" p.supervisor).0 } in
      let e' : acts c next p1 ≡ returns p' = rw (at_kill, post) at e in
      elim (AfterKill-acts next p1 p' n refl held e') [
        | inl i ↦ (
          i.kill,
          inl (record {
            kill = i.kill;
            exec = i.exec;
            ledger = i.ledger;
            executed_count = i.executed_count;
            outstanding = i.outstanding;
          }),
        )
        | inr w ↦
            let b = w.halted_before in
            (
              w.halted_after.kill,
              inr (record {
                opportunity = w.opportunity;
                is_allowed = w.is_allowed;
                at = w.at;
                before = w.before;
                after = w.after;
                trade = w.trade;
                halted_before = record {
                  kill = b.kill;
                  exec = b.exec;
                  ledger = b.ledger;
                  executed_count = b.executed_count;
                  outstanding = b.outstanding;
                };
                halted_after = w.halted_after;
              }),
            )
      ]
