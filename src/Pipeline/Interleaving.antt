-- ===== src/Pipeline/Interleaving.antt =====
-- The whole pipeline of internal/marketdata/pipeline.go: submissions, lane goroutines and the
-- staleness sweep in any interleaving. Each takes one step at a time, since the channels and the
-- lanes' locks make them so.
use mathlib.Core.Path.{subst}
use crossvenue.Base.{
  ℕ, ◌≤◌, Bool, true, false, Option, none, some, String, List, [], ◌∷◌, ◌++◌, ◌≡◌, refl, sym, arith,
  some_eq, if◌then◌else◌, string_eq, ltb, ltb→lt,
}
use crossvenue.Base.Dict.{Dict, lookup, insert}
use crossvenue.Base.Lists.{length, length-append}
use crossvenue.Domain.{Venue, MarketEvent, Time, venue_of, symbol_of}
use crossvenue.Manager.{key, fresh, get, get_found, Duration, new_manager}
use crossvenue.Book.{Book, new, invalidate}
use crossvenue.Seq.{Tracker, new_for_venue}
use crossvenue.Base.Int.{ℤ}
use crossvenue.Book.Invariant.{new-IsValid, hook-IsValid}
use crossvenue.Pipeline.{
  Pipeline, BookLane, new_pipeline, register_new, register_found, register, with_lane, submitted,
  submit, invalidate_found, enqueue_found, enqueue, work_queue, work_found, work, sweep_found,
  sweep_book, sweep_lanes, sweep_at, sweep, set_lane,
}
use crossvenue.Pipeline.Lane.{Effect}
use crossvenue.Pipeline.Ready.{IsSound, invalidate-IsSound, sweep_book-IsSound}
use crossvenue.Pipeline.Soundness.{
  LaneIsSound, IsSoundPipeline, put-IsSound, apply_at-IsSound, requeue-IsSound, rebook-IsSound,
}

invalidate_found-IsSound :
    (k : String) (p : Pipeline) (ob : Option Book)
    → lookup k p.mgr.books ≡ ob
    → IsSoundPipeline p
    → IsSoundPipeline (invalidate_found k p ob)
unfolding invalidate_found
invalidate_found-IsSound k p none e s = s
invalidate_found-IsSound k p (some b) e s =
    rebook-IsSound k b (invalidate b) p e (λ t h. invalidate-IsSound t b h) s

either_sound :
    (c : Bool) (x y : Pipeline × List Effect)
    → (c ≡ true → IsSoundPipeline x.0)
    → IsSoundPipeline y.0
    → IsSoundPipeline (if c then x else y).0
either_sound true x y h k = h refl
either_sound false x y h k = k

enqueue_found-IsSound :
    (k : String) (ev : MarketEvent) (p : Pipeline) (ol : Option BookLane)
    → lookup k p.lanes ≡ ol
    → IsSoundPipeline p
    → IsSoundPipeline (enqueue_found k ev p ol).0
unfolding enqueue_found
enqueue_found-IsSound k ev p none e s = s
enqueue_found-IsSound k ev p (some l) e s =
    either_sound (ltb (length l.queue) p.queue_size) _ _
      (λ room.
        requeue-IsSound k l (l.queue ++ (ev ∷ [])) p e
          (rw (length-append l.queue (ev ∷ [])) (omega (arith, ltb→lt _ _ room))) s)
      (invalidate_found-IsSound k p (lookup k p.mgr.books) refl s)

work_queue-IsSound :
    (k : String) (p : Pipeline) (l : BookLane) (q : List MarketEvent)
    → lookup k p.lanes ≡ some l
    → length q ≤ p.queue_size
    → IsSoundPipeline p
    → IsSoundPipeline (work_queue k p l q).0
unfolding work_queue
work_queue-IsSound k p l [] e h s = s
work_queue-IsSound k p l (ev ∷ rest) e h s =
    apply_at-IsSound k ev (set_lane k (record l { queue = rest }) p)
      (requeue-IsSound k l rest p e (omega arith) s)

queue_fits :
    (size : ℕ) (l : BookLane) (ob : Option Book) → LaneIsSound size l ob → length l.queue ≤ size
queue_fits size l none s = absurd s
queue_fits size l (some b) s = s.1

work_found-IsSound :
    (k : String) (p : Pipeline) (ol : Option BookLane)
    → lookup k p.lanes ≡ ol
    → IsSoundPipeline p
    → IsSoundPipeline (work_found k p ol).0
unfolding work_found
work_found-IsSound k p none e s = s
work_found-IsSound k p (some l) e s =
    work_queue-IsSound k p l l.queue e
      (queue_fits p.queue_size l (lookup k p.mgr.books) (s.0 k l e)) s

sweep_found-IsSound :
    (now : Time) (p : Pipeline) (k : String) (ob : Option Book)
    → lookup k p.mgr.books ≡ ob
    → IsSoundPipeline p
    → IsSoundPipeline (sweep_found now p k ob).0
unfolding sweep_found
sweep_found-IsSound now p k none e s = s
sweep_found-IsSound now p k (some b) e s =
    rebook-IsSound k b (sweep_book p.max_book_age now b).0 p e
      (λ t h. sweep_book-IsSound p.max_book_age now t b h) s

sweep_lanes-IsSound :
    (now : Time) (ls : Dict String BookLane) (p : Pipeline) (n : ℕ)
    → IsSoundPipeline p
    → IsSoundPipeline (sweep_lanes now ls p n)
unfolding sweep_lanes sweep_at
sweep_lanes-IsSound now [] p n s = s
sweep_lanes-IsSound now ((k, _) ∷ ls) p n s =
    let h = sweep_found-IsSound now p k (lookup k p.mgr.books) refl s in
    sweep_lanes-IsSound now ls _ _ h

new_lane-IsSound :
    (t : Time) (v : Venue) (s : String) (t' : Tracker) → t'.ready ≡ false → IsSound t' (fresh t v s)
unfolding new
new_lane-IsSound t v s t' e = record {
  valid = hook-IsValid (some none) (new t v s) (new-IsValid t v s);
  current = tt;
  anchored = λ h. cc;
  agree = λ h. cc;
}

new_tracker_unready : (v : Venue) (t : Tracker) → new_for_venue v ≡ some t → t.ready ≡ false
unfolding new_for_venue
new_tracker_unready v t e = ground arith

register_new-IsSound :
    (t : Time) (v : Venue) (s : String) (p : Pipeline) (ot : Option Tracker) {p' : Pipeline}
    → ((t' : Tracker) → ot ≡ some t' → t'.ready ≡ false)
    → lookup (key v s) p.lanes ≡ none
    → IsSoundPipeline p
    → register_new t v s p ot ≡ some p'
    → IsSoundPipeline p'
unfolding register_new get
register_new-IsSound t v s p none h e sp r = cc
register_new-IsSound t v s p (some t') h e sp r = subst IsSoundPipeline (some_eq r) (
    subst
      (λ o. IsSoundPipeline (record p {
        mgr = (get_found t v s p.mgr o).0;
        lanes = insert (key v s) (record { tracker = t'; queue = [] }) p.lanes;
      }))
      (sym (sp.1 (key v s) e))
      (put-IsSound (key v s) (record { tracker = t'; queue = [] }) (fresh t v s) p
        (new_lane-IsSound t v s t' (h t' refl)) (omega arith) sp))

register_found-IsSound :
    (t : Time) (v : Venue) (s : String) (p : Pipeline) (ol : Option BookLane) {p' : Pipeline}
    → lookup (key v s) p.lanes ≡ ol
    → IsSoundPipeline p
    → register_found t v s p ol ≡ some p'
    → IsSoundPipeline p'
unfolding register_found
register_found-IsSound t v s p (some _) e sp r = subst IsSoundPipeline (some_eq r) sp
register_found-IsSound t v s p none e sp r =
    register_new-IsSound t v s p (new_for_venue v) (new_tracker_unready v) e sp r

-- What one of the pipeline's goroutines does in one step, at a time.
pub data Step : Type 0 where
  submits : MarketEvent → Step  -- the ingestion: `Submit`
  works : String → Step  -- a lane: `runLane`
  sweeps : Step  -- the sweeper: `sweepStale`

unfoldable pub kept_or : Pipeline → Option (Pipeline × List Effect) → Pipeline
kept_or p none = p
kept_or p (some (p', _)) = p'

-- A submission that fails leaves the pipeline as it was.
unfoldable pub step : Time → Step → Pipeline → Pipeline
unfolding kept_or
step t (submits ev) p = kept_or p (submit t ev p)
step t (works k) p = (work k p).0
step t sweeps p = sweep t p

unfoldable pub steps : List (Time × Step) → Pipeline → Pipeline
steps [] p = p
steps ((t, s) ∷ ss) p = steps ss (step t s p)

submitted-IsSound :
    (ev : MarketEvent) (p : Pipeline) (op : Option Pipeline)
    → IsSoundPipeline p
    → ((p' : Pipeline) → op ≡ some p' → IsSoundPipeline p')
    → IsSoundPipeline (kept_or p (submitted ev op))
unfolding kept_or submitted enqueue
submitted-IsSound ev p none s h = s
submitted-IsSound ev p (some p') s h = enqueue_found-IsSound _ ev p' _ refl (h p' refl)

step-IsSound :
    (t : Time) (s : Step) (p : Pipeline) → IsSoundPipeline p → IsSoundPipeline (step t s p)
unfolding step submit with_lane register work sweep
step-IsSound t (submits ev) p s =
    submitted-IsSound ev p (register t (venue_of ev) (symbol_of ev) p) s
      (λ p' e. register_found-IsSound t (venue_of ev) (symbol_of ev) p _ refl s e)
step-IsSound t (works k) p s = work_found-IsSound k p _ refl s
step-IsSound t sweeps p s = sweep_lanes-IsSound t p.lanes p 0 s

pub steps-IsSound :
    (ss : List (Time × Step)) (p : Pipeline) → IsSoundPipeline p → IsSoundPipeline (steps ss p)
unfolding steps
steps-IsSound [] p s = s
steps-IsSound ((t, x) ∷ ss) p s = steps-IsSound ss (step t x p) (step-IsSound t x p s)

-- A new pipeline over a new manager has no lane and no book.
pub new_pipeline-IsSound :
    (size : ℤ) (age : Duration) → IsSoundPipeline (new_pipeline size age new_manager)
unfolding lookup
new_pipeline-IsSound size age = (λ k l e. cc, λ k e. refl)
