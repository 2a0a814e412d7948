-- ===== src/Pipeline.antt =====
-- internal/marketdata/pipeline.go: the lanes, which apply the normalized events to the books.
-- Calls of the journal, the metrics and the resync hook are effects, in the order in which they
-- are made; a sink that is not set drops its effects. A lane's book is the manager's book under
-- the lane's key, as in the source, where both hold one pointer.
pub mod Lane
pub mod Registered
pub mod Ready
pub mod Resync
pub mod Rebuild
pub mod Soundness
pub mod Interleaving
use crossvenue.Base.{
  ℕ, suc, ◌+◌, ◌<◌, Bool, true, false, Option, none, some, String, List, [], ◌∷◌, ◌++◌,
  if◌then◌else◌, string_eq, ltb,
}
use crossvenue.Base.Int.{ℤ, pos, pos_part, ltb_ℤ, leb_ℤ}
use crossvenue.Base.Dict.{Dict, lookup, insert}
use crossvenue.Base.Lists.{length}
use crossvenue.Domain.{Venue, Time, MarketEvent, venue_of, symbol_of}
use crossvenue.Seq.{Tracker, new_for_venue}
use crossvenue.Book.{Book, invalidate, mark_stale}
use crossvenue.Manager.{Manager, Duration, get, key, since}
use Lane.{
  Effect, journal, inc_dropped, set_queue_depth, resync_request, overload_invalidated,
  queue_overload, apply_event,
}

-- `bookLane`: the tracker and the channel; the book is the manager's.
pub record BookLane : Type 0 where
  pub tracker : Tracker
  pub queue : List MarketEvent

pub record Pipeline : Type 0 where
  pub queue_size : ℕ
  pub max_book_age : Duration
  pub mgr : Manager
  pub lanes : Dict String BookLane
  pub stale_books : ℕ

-- `NewPipeline`, with its defaults for options that are not positive.
abbrev pub new_pipeline : ℤ → Duration → Manager → Pipeline
new_pipeline queue_size max_book_age mgr = record {
  queue_size = if leb_ℤ queue_size (pos 0) then 1024 else pos_part queue_size;
  max_book_age = if leb_ℤ max_book_age (pos 0) then pos 750000000 else max_book_age;
  mgr = mgr;
  lanes = [];
  stale_books = 0;
}

-- `Register`; `none` is the error of `NewForVenue`.
register_new : Time → Venue → String → Pipeline → Option Tracker → Option Pipeline
register_new t v s p none = none
register_new t v s p (some tr) = some (record p {
  mgr = (get t v s p.mgr).0;
  lanes = insert (key v s) (record { tracker = tr; queue = [] }) p.lanes;
})

register_found : Time → Venue → String → Pipeline → Option BookLane → Option Pipeline
unfolding register_new
register_found t v s p (some _) = some p
register_found t v s p none = register_new t v s p (new_for_venue v)

unfoldable pub register : Time → Venue → String → Pipeline → Option Pipeline
unfolding register_found
register t v s p = register_found t v s p (lookup (key v s) p.lanes)

-- The pipeline with the book and the lane under a key replaced.
abbrev pub set_book : String → Book → Pipeline → Pipeline
set_book k b p = record p { mgr = record p.mgr { books = insert k b p.mgr.books } }

abbrev pub set_lane : String → BookLane → Pipeline → Pipeline
set_lane k l p = record p { lanes = insert k l p.lanes }

apply_found :
    String → MarketEvent → Pipeline → Option BookLane → Option Book → Pipeline × List Effect
unfolding apply_event
apply_found k ev p none _ = (p, [])
apply_found k ev p (some l) none = (p, [])
apply_found k ev p (some l) (some b) =
    let (t', b', es) = apply_event ev l.tracker b in
    (set_lane k (record l { tracker = t' }) (set_book k b' p), es)

-- `apply` on the lane under a key. Every lane's book is in the manager, so a book is found.
unfoldable pub apply_at : String → MarketEvent → Pipeline → Pipeline × List Effect
unfolding apply_found
apply_at k ev p = apply_found k ev p (lookup k p.lanes) (lookup k p.mgr.books)

-- The lane of an event, registered if it was not there.
unfoldable pub with_lane : Time → MarketEvent → Pipeline → Option Pipeline
unfolding register
with_lane t ev p = register t (venue_of ev) (symbol_of ev) p

-- `ApplySync`; `none` is its error.
unfoldable pub apply_sync : Time → MarketEvent → Pipeline → Option (Pipeline × List Effect)
unfolding with_lane apply_at
apply_sync t ev p = elim (with_lane t ev p) [
  | none ↦ none
  | some p' ↦ some (apply_at (key (venue_of ev) (symbol_of ev)) ev p')
]

-- The `select` of `Submit`: the channel takes the event if it has room.
invalidate_found : String → Pipeline → Option Book → Pipeline
invalidate_found k p none = p
invalidate_found k p (some b) = set_book k (invalidate b) p

enqueue_found : String → MarketEvent → Pipeline → Option BookLane → Pipeline × List Effect
unfolding invalidate_found
enqueue_found k ev p none = (p, [])
enqueue_found k ev p (some l) =
    if ltb (length l.queue) p.queue_size
    then (
      set_lane k (record l { queue = l.queue ++ (ev ∷ []) }) p,
      set_queue_depth (venue_of ev) (length l.queue + 1) ∷ [],
    )
    else (
      invalidate_found k p (lookup k p.mgr.books),
      inc_dropped (venue_of ev)
          ∷ journal overload_invalidated (venue_of ev) (symbol_of ev)
          ∷ resync_request (venue_of ev) (symbol_of ev) queue_overload
          ∷ [],
    )

unfoldable pub enqueue : MarketEvent → Pipeline → Pipeline × List Effect
unfolding enqueue_found
enqueue ev p = let k = key (venue_of ev) (symbol_of ev) in enqueue_found k ev p (lookup k p.lanes)

submitted : MarketEvent → Option Pipeline → Option (Pipeline × List Effect)
unfolding enqueue
submitted ev none = none
submitted ev (some p) = some (enqueue ev p)

-- `Submit`; `none` is its error.
unfoldable pub submit : Time → MarketEvent → Pipeline → Option (Pipeline × List Effect)
unfolding with_lane submitted
submit t ev p = submitted ev (with_lane t ev p)

-- One round of `runLane`: the oldest event of the channel, if there is one, is applied.
work_queue : String → Pipeline → BookLane → List MarketEvent → Pipeline × List Effect
unfolding apply_at
work_queue k p l [] = (p, [])
work_queue k p l (ev ∷ rest) = apply_at k ev (set_lane k (record l { queue = rest }) p)

work_found : String → Pipeline → Option BookLane → Pipeline × List Effect
unfolding work_queue
work_found k p none = (p, [])
work_found k p (some l) = work_queue k p l l.queue

unfoldable pub work : String → Pipeline → Pipeline × List Effect
unfolding work_found
work k p = work_found k p (lookup k p.lanes)

-- One lane in a round of `sweepStale`.
unfoldable pub sweep_book : Duration → Time → Book → Book × Bool
sweep_book max_age now b =
    if b.state.ready
    then (let is_stale = ltb_ℤ max_age (since now b.state.last_updated_at) in
        (mark_stale is_stale b, is_stale))
    else (b, false)

sweep_found : Time → Pipeline → String → Option Book → Pipeline × Bool
unfolding sweep_book
sweep_found now p k none = (p, false)
sweep_found now p k (some b) =
    let (b', is_stale) = sweep_book p.max_book_age now b in (set_book k b' p, is_stale)

unfoldable pub sweep_at : Time → Pipeline → String → Pipeline × Bool
unfolding sweep_found
sweep_at now p k = sweep_found now p k (lookup k p.mgr.books)

sweep_lanes : Time → Dict String BookLane → Pipeline → ℕ → Pipeline
unfolding sweep_at
sweep_lanes now [] p count = record p { stale_books = count }
sweep_lanes now ((k, _) ∷ ls) p count =
    let (p', is_stale) = sweep_at now p k in
    sweep_lanes now ls p' (if is_stale then suc count else count)

-- A tick of `sweepStale`.
unfoldable pub sweep : Time → Pipeline → Pipeline
unfolding sweep_lanes
sweep now p = sweep_lanes now p.lanes p 0
