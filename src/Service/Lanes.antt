-- ===== src/Service/Lanes.antt =====
-- The pipeline of the process while it serves: the supervisor and the HTTP interface give it the
-- steps of its own interleavings, and no others.
use crossvenue.Base.{Option, none, some, List, [], ◌∷◌, String, ◌≡◌, refl, sym, ap, ◌∙◌, arith}
use mathlib.Core.Path.{subst}
use crossvenue.Base.Outcome.{returns, >>=-returns, returns_eq}
use crossvenue.Domain.{Venue, Time}
use crossvenue.Pipeline.{Pipeline, submit, work}
use crossvenue.Pipeline.Lane.{Effect}
use crossvenue.Pipeline.Soundness.{IsSoundPipeline}
use crossvenue.Pipeline.Interleaving.{
  Step, submits, works, sweeps, step, steps, kept_or, steps-IsSound,
}
use crossvenue.Venue.Connection.{Health}
use crossvenue.Replay.{Codec}
use crossvenue.Engine.State.{Times, Supervisor, note}
use crossvenue.Engine.Loop.{record_opp, ingest, after_pipe}
use crossvenue.Engine.Kept.{check_inventory-Kept, run_effects-Kept}
use crossvenue.Api.{
  Request, Endpoint, serve, dispatch, kill_at, kill_reset_at, kill_handler, kill_reset_handler,
}
use crossvenue.Service
use crossvenue.Service.{
  Act, Pass, waiting, scanning, trading, decided, evaluate_step, Process, act, acts,
}
use crossvenue.Opportunity.{Opportunity, evaluate}
use crossvenue.Risk.{Decision}
use crossvenue.Engine.Decide.{decide, denied}
use crossvenue.Engine.Trade.{check_inventory}

-- The steps of the pipeline among the acts.
abbrev pub steps_among : List (Times × Act) → List (Time × Step)
steps_among [] = []
steps_among ((t, Service.ingests ev) ∷ next) = (t.now, submits ev) ∷ steps_among next
steps_among ((t, Service.works k) ∷ next) = (t.now, works k) ∷ steps_among next
steps_among ((t, Service.sweeps) ∷ next) = (t.now, sweeps) ∷ steps_among next
steps_among ((t, Service.evaluates) ∷ next) = steps_among next
steps_among ((t, Service.serves hs q) ∷ next) = steps_among next

after_pipe-kept_or :
    (t : Times) (o : Option (Pipeline × List Effect)) (s : Supervisor)
    → (after_pipe t o s).pipe ≡ kept_or s.pipe o
unfolding after_pipe kept_or
after_pipe-kept_or t none s = refl
after_pipe-kept_or t (some (p, es)) s = (run_effects-Kept t es (record s { pipe = p })).pipe

kill_handler-pipe : (t : Times) (m : String) (s : Supervisor) → (kill_handler t m s).0.pipe ≡ s.pipe
unfolding kill_handler note
kill_handler-pipe t m s = ground arith

kill_reset_handler-pipe :
    (t : Times) (m : String) (s : Supervisor) → (kill_reset_handler t m s).0.pipe ≡ s.pipe
unfolding kill_reset_handler note
kill_reset_handler-pipe t m s = ground arith

dispatch-pipe :
    (hs : List (Venue × Health)) (t : Times) (q : Request) (e : Endpoint) (s : Supervisor)
    → (dispatch hs t q e s).0.pipe ≡ s.pipe
unfolding dispatch
dispatch-pipe hs t q kill_at s = kill_handler-pipe t q.method s
dispatch-pipe hs t q kill_reset_at s = kill_reset_handler-pipe t q.method s
dispatch-pipe hs t q _ s = refl

decided-pipe :
    (t : Times) (symbols : List String) (os : List Opportunity) (o : Opportunity) (d : Decision)
    (s : Supervisor)
    → (decided t symbols os o d (record_opp t o s)).1.pipe ≡ s.pipe
unfolding decided denied record_opp note
decided-pipe t symbols os o d s = ground arith

evaluate_step-pipe :
    (t : Times) (p p' : Pass) (s s' : Supervisor)
    → evaluate_step t p s ≡ returns (p', s')
    → s'.pipe ≡ s.pipe
unfolding evaluate_step
evaluate_step-pipe t waiting p' s s' e = ap (λ x. x.1.pipe) (sym (returns_eq e))
evaluate_step-pipe t (scanning now [] []) p' s s' e = ap (λ x. x.1.pipe) (sym (returns_eq e))
evaluate_step-pipe t (scanning now (symbol ∷ symbols) []) p' s s' e =
    let (r, e1, h) =
      >>=-returns (evaluate s.opp s.pipe.mgr t.read now symbol s.venues s.opp_ctr) _ e in
    ap (λ x. x.1.pipe) (sym (returns_eq h))
evaluate_step-pipe t (scanning now symbols (o ∷ os)) p' s s' e =
    let t' = record t { now = now } in
    let s1 = record_opp t' o s in
    let (d, e1, h) = >>=-returns (decide t' o s1) _ e in
    ap (λ x. x.1.pipe) (sym (returns_eq h)) ∙ decided-pipe t' symbols os o d s
evaluate_step-pipe t (trading now o symbols os) p' s s' e =
    let t' = record t { now = now } in
    let (s1, e1, h) = >>=-returns (check_inventory t' o s) _ e in
    ap (λ x. x.1.pipe) (sym (returns_eq h)) ∙ (check_inventory-Kept t' o s s1 e1).pipe

module _ (c : Codec) where
  act-steps :
      (t : Times) (a : Act) (p p' : Process c)
      → act c t a p ≡ returns p'
      → p'.supervisor.pipe ≡ steps (steps_among ((t, a) ∷ [])) p.supervisor.pipe
  unfolding act ingest serve steps step
  act-steps t (Service.ingests ev) p p' e =
      let s = p.supervisor in
      ap (λ x. x.supervisor.pipe) (sym (returns_eq e))
      ∙ after_pipe-kept_or t (submit t.now ev s.pipe) s
  act-steps t (Service.works k) p p' e =
      let s = p.supervisor in
      let (pipe, es) = work k s.pipe in
      ap (λ x. x.supervisor.pipe) (sym (returns_eq e))
      ∙ (run_effects-Kept t es (record s { pipe = pipe })).pipe
  act-steps t Service.sweeps p p' e = ap (λ x. x.supervisor.pipe) (sym (returns_eq e))
  act-steps t Service.evaluates p p' e =
      let (r, e1, h) = >>=-returns (evaluate_step t p.pass p.supervisor) _ e in
      ap (λ x. x.supervisor.pipe) (sym (returns_eq h))
      ∙ evaluate_step-pipe t p.pass r.0 p.supervisor r.1 e1
  act-steps t (Service.serves hs q) p p' e =
      ap (λ x. x.supervisor.pipe) (sym (returns_eq e))
      ∙ dispatch-pipe hs t q q.endpoint p.supervisor

  steps-among :
      (t : Times) (a : Act) (next : List (Times × Act)) (p : Pipeline)
      → steps (steps_among ((t, a) ∷ next)) p
        ≡ steps (steps_among next) (steps (steps_among ((t, a) ∷ [])) p)
  unfolding steps
  steps-among t (Service.ingests ev) next p = refl
  steps-among t (Service.works k) next p = refl
  steps-among t Service.sweeps next p = refl
  steps-among t Service.evaluates next p = refl
  steps-among t (Service.serves hs q) next p = refl

  pipe_of :
      (todo : List (Times × Act)) (p p' : Process c)
      → acts c todo p ≡ returns p'
      → p'.supervisor.pipe ≡ steps (steps_among todo) p.supervisor.pipe
  unfolding acts steps
  pipe_of [] p p' e = ap (λ x. x.supervisor.pipe) (sym (returns_eq e))
  pipe_of ((t, a) ∷ next) p p' e =
      let (x, e1, h) = >>=-returns (act c t a p) _ e in
      pipe_of next x p' h
      ∙ ap (steps (steps_among next)) (act-steps t a p x e1)
      ∙ sym (steps-among t a next p.supervisor.pipe)

  -- The whole process refines its pipeline: where a sequence of acts returns, the pipeline has taken
  -- exactly the steps of its own among them, in their order, whatever was evaluated, traded and
  -- served between them; so a sound pipeline is sound after it.
  pub acts-steps :
      (todo : List (Times × Act)) (p p' : Process c)
      → IsSoundPipeline p.supervisor.pipe
      → acts c todo p ≡ returns p'
      → (p'.supervisor.pipe ≡ steps (steps_among todo) p.supervisor.pipe)
        × IsSoundPipeline p'.supervisor.pipe
  acts-steps todo p p' h e =
      let same = pipe_of todo p p' e in
      (
        same,
        subst IsSoundPipeline (sym same) (steps-IsSound (steps_among todo) p.supervisor.pipe h),
      )
