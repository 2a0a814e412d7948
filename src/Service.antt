-- ===== src/Service.antt =====
-- The process while it serves: `Supervisor.Run` of internal/engine/engine.go in the live modes, with
-- the goroutines of the pipeline and of the HTTP interface. An act is one step: an event that the
-- fan-in ingests, the next event of a lane, a tick of the staleness sweep, a step of the evaluation,
-- or a request. A sequence of acts interleaves the goroutines at these steps. No lock is held in a
-- pass of the evaluation, so it has a step for its start, for each symbol, for each opportunity up
-- to the decision of the risk engine, and for the rest of `maybeExecute`, which is one step here.
pub mod Halted
pub mod Lanes
pub mod Passes
use crossvenue.Base.{Option, List, [], ◌∷◌, String, not, if◌then◌else◌}
use crossvenue.Base.Outcome.{Outcome, returns, ◌>>=◌}
use crossvenue.Domain.{Venue, Time, MarketEvent}
use crossvenue.Pipeline.{Pipeline, work, sweep}
use crossvenue.Pipeline.Lane.{Effect}
use crossvenue.Venue.Connection.{Health}
use crossvenue.Replay.{Codec, Recorder}
use crossvenue.Engine.State.{Times, Supervisor}
use crossvenue.Engine.Decide.{decide, denied}
use crossvenue.Engine.Trade.{check_inventory}
use crossvenue.Engine.Loop.{ingest, record_opp, run_effects}
use crossvenue.Opportunity.{Opportunity, evaluate}
use crossvenue.Risk.{Decision}
use crossvenue.Api.{Request, serve}

-- A request comes with what the adapters' `Health` returns then.
pub data Act : Type 0 where
  ingests : MarketEvent → Act
  works : String → Act
  sweeps evaluates : Act
  serves : List (Venue × Health) → Request → Act

-- A lane's goroutine, with what the pipeline's options do with its effects.
abbrev pub after_work : Times → Supervisor → Pipeline × List Effect → Supervisor
after_work t s (p, es) = run_effects t es (record s { pipe = p })

-- Where the evaluation stands in a pass that began at a time: the symbols and the opportunities that
-- are left, and the opportunity that the risk engine has allowed.
pub data Pass : Type 0 where
  waiting : Pass
  scanning : Time → List String → List Opportunity → Pass
  trading : Time → Opportunity → List String → List Opportunity → Pass

unfoldable pub decided :
    Times → List String → List Opportunity → Opportunity → Decision → Supervisor → Pass × Supervisor
unfolding denied
decided t symbols os o d s =
    if not d.allowed
    then (scanning t.now symbols os, denied t o d s)
    else (trading t.now o symbols os, s)

-- A step of `EvaluateOnce`, with the clocks' readings in it.
unfoldable pub evaluate_step : Times → Pass → Supervisor → Outcome (Pass × Supervisor)
unfolding evaluate record_opp decide decided check_inventory
evaluate_step t waiting s = returns (scanning t.now s.cfg.symbols [], s)
evaluate_step t (scanning now [] []) s = returns (waiting, s)
evaluate_step t (scanning now (symbol ∷ symbols) []) s = do
  r ← evaluate s.opp s.pipe.mgr t.read now symbol s.venues s.opp_ctr
  returns (scanning now symbols r.1, record s { opp_ctr = r.0 })
evaluate_step t (scanning now symbols (o ∷ os)) s = do
  let t' = record t { now = now }
  d ← decide t' o (record_opp t' o s)
  returns (decided t' symbols os o d (record_opp t' o s))
evaluate_step t (trading now o symbols os) s = do
  s' ← check_inventory (record t { now = now }) o s
  returns (scanning now symbols os, s')

module _ (c : Codec) where
  pub record Process : Type 0 where
    pub recorder : Option (Recorder c)
    pub supervisor : Supervisor
    pub pass : Pass

  unfoldable pub act : Times → Act → Process → Outcome Process
  unfolding ingest evaluate_step serve work sweep
  act t (ingests ev) p =
      let (r, s) = ingest c t ev p.recorder p.supervisor in
      returns (record p { recorder = r; supervisor = s })
  act t (works k) p =
      let s = p.supervisor in returns (record p { supervisor = after_work t s (work k s.pipe) })
  act t sweeps p =
      let s = p.supervisor in
      returns (record p { supervisor = record s { pipe = sweep t.now s.pipe } })
  act t evaluates p = do
    r ← evaluate_step t p.pass p.supervisor
    returns (record p { pass = r.0; supervisor = r.1 })
  act t (serves hs q) p = returns (record p { supervisor = (serve hs t q p.supervisor).0 })

  unfoldable pub acts : List (Times × Act) → Process → Outcome Process
  unfolding act
  acts [] p = returns p
  acts ((t, a) ∷ next) p = act t a p >>= acts next
