-- ===== src/Engine/Loop.antt =====
-- The passes of internal/engine/engine.go: evaluation, ingestion and the deterministic run.
use crossvenue.Base.{
  ℕ, ◌-◌, Bool, true, false, Option, none, some, List, [], ◌∷◌, ◌++◌, String, if◌then◌else◌, ltb,
  ◌==◌, string_eq, nat_eq,
}
use crossvenue.Base.Lists.{length, drop}
use crossvenue.Base.Dict.{Dict, insert, lookup}
use crossvenue.Base.Outcome.{Outcome, returns, ◌>>=◌}
use crossvenue.Domain.{Venue, MarketEvent}
use crossvenue.Book.{SnapshotView}
use crossvenue.Manager.{all, key}
use crossvenue.Opportunity.{Opportunity, evaluate}
use crossvenue.Risk.{Reason}
use crossvenue.Journal.{no_aggregate, opportunity_id}
use crossvenue.Pipeline.{Pipeline, apply_sync, submit}
use crossvenue.Pipeline.Lane.{
  Effect, Entry, journal, resync_request, market_snapshot_received, book_resynced,
  market_delta_received, gap_invalidated, overload_invalidated,
}
use crossvenue.Fnv.{start, mix_word, mix_levels}
use crossvenue.Replay.{Codec, Recorder, record_event}
use crossvenue.Engine.State.{Times, Supervisor, market, detected, note}
use crossvenue.Engine.Trade.{maybe_execute}

-- `recordOpp`: the recent list keeps its end.
abbrev pub recent : ℕ → List Opportunity → List Opportunity
recent most os = if ltb most (length os) then drop (length os - most) os else os

unfoldable pub record_opp : Times → Opportunity → Supervisor → Supervisor
unfolding note
record_opp t o s =
    note t "OpportunityDetected" o.buy_venue o.symbol (opportunity_id o.id)
      (detected o.buy_venue o.sell_venue o.expected_net_pnl o.edge_bps)
      (record s {
        opps = recent s.max_recent (s.opps ++ (o ∷ []));
        opp_index = insert o.id o s.opp_index;
      })

-- The loops of `EvaluateOnce`.
unfoldable pub take_opps : Times → List Opportunity → Supervisor → Outcome Supervisor
unfolding record_opp maybe_execute
take_opps t [] s = returns s
take_opps t (o ∷ os) s = maybe_execute t o (record_opp t o s) >>= take_opps t os

unfoldable pub evaluate_symbol : Times → String → Supervisor → Outcome Supervisor
unfolding take_opps evaluate
evaluate_symbol t symbol s = do
  r ← evaluate s.opp s.pipe.mgr t.read t.now symbol s.venues s.opp_ctr
  take_opps t r.1 (record s { opp_ctr = r.0 })

unfoldable pub evaluate_symbols : Times → List String → Supervisor → Outcome Supervisor
unfolding evaluate_symbol
evaluate_symbols t [] s = returns s
evaluate_symbols t (symbol ∷ symbols) s = evaluate_symbol t symbol s >>= evaluate_symbols t symbols

-- `EvaluateOnce`
unfoldable pub evaluate_once : Times → Supervisor → Outcome Supervisor
unfolding evaluate_symbols
evaluate_once t s = evaluate_symbols t s.cfg.symbols s

-- The journal's name of an entry of the pipeline.
abbrev entry_type : Entry → String
entry_type (market_snapshot_received _) = "MarketSnapshotReceived"
entry_type (book_resynced _) = "BookResynced"
entry_type (market_delta_received _) = "MarketDeltaReceived"
entry_type (gap_invalidated _ _) = "BookInvalidated"
entry_type overload_invalidated = "BookInvalidated"

abbrev pub is_among : Venue → List Venue → Bool
is_among v [] = false
is_among v (w ∷ ws) = if w == v then true else is_among v ws

-- What the options of the pipeline do with its effects: the journal adapter, and the closure
-- `ResyncRequest`. No metrics are configured.
unfoldable pub run_effect : Times → Effect → Supervisor → Supervisor
unfolding note
run_effect t (journal e v symbol) s = note t (entry_type e) v symbol no_aggregate (market e) s
run_effect t (resync_request v symbol _) s =
    if is_among v s.adapters then record s { resyncs = s.resyncs ++ ((v, symbol) ∷ []) } else s
run_effect t _ s = s

unfoldable pub run_effects : Times → List Effect → Supervisor → Supervisor
unfolding run_effect
run_effects t [] s = s
run_effects t (e ∷ es) s = run_effects t es (run_effect t e s)

-- After a call of the pipeline; its error is logged.
unfoldable pub after_pipe : Times → Option (Pipeline × List Effect) → Supervisor → Supervisor
unfolding run_effects
after_pipe t none s = s
after_pipe t (some (p, es)) s = run_effects t es (record s { pipe = p })

-- `AttachAdapters`, by their venues.
abbrev pub attach_adapters : List Venue → Supervisor → Supervisor
attach_adapters vs s = record s { adapters = vs }

module _ (c : Codec) where
  -- The recorder, if one is attached, takes every event first; its error is logged.
  unfoldable pub record_tee : MarketEvent → Option (Recorder c) → Option (Recorder c)
  unfolding record_event
  record_tee ev none = none
  record_tee ev (some r) = some (record_event c ev r).0

  -- `Ingest`
  unfoldable pub ingest :
      Times → MarketEvent → Option (Recorder c) → Supervisor → Option (Recorder c) × Supervisor
  unfolding record_tee submit after_pipe
  ingest t ev r s = (record_tee ev r, after_pipe t (submit t.now ev s.pipe) s)

  -- The loop of `runDeterministic`, on the events that the source sends, each with the clocks'
  -- readings in its pass.
  unfoldable pub run_deterministic :
      List (Times × MarketEvent)
      → Option (Recorder c)
      → Supervisor
      → Outcome (Option (Recorder c) × Supervisor)
  unfolding record_tee apply_sync after_pipe evaluate_once
  run_deterministic [] r s = returns (r, s)
  run_deterministic ((t, ev) ∷ evs) r s =
      evaluate_once t (after_pipe t (apply_sync t.now ev s.pipe) s)
      >>= run_deterministic evs (record_tee ev r)

-- `RecentOpportunities`, `Opportunity` and `Rejections`
abbrev pub recent_opportunities : Supervisor → List Opportunity
recent_opportunities s = s.opps

abbrev pub opportunity_by_id : ℕ → Supervisor → Option Opportunity
opportunity_by_id n s = lookup n s.opp_index

abbrev pub rejections : Supervisor → List Reason
rejections s = s.rejections

-- The digest of one view in `BookDigests`.
unfoldable pub view_digest : SnapshotView → ℕ
unfolding mix_word mix_levels
view_digest v = mix_levels v.asks (mix_levels v.bids (mix_word v.state.sequence start))

digest_views : List SnapshotView → Dict String ℕ → Dict String ℕ
unfolding view_digest
digest_views [] out = out
digest_views (v ∷ vs) out = digest_views vs (insert (key v.venue v.symbol) (view_digest v) out)

-- `BookDigests`
unfoldable pub book_digests : Times → Supervisor → Dict String ℕ
unfolding digest_views all
book_digests t s = digest_views (all t.read 1 s.pipe.mgr) []
