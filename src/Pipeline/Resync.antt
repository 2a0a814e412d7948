-- ===== src/Pipeline/Resync.antt =====
-- Loss of synchronisation in internal/marketdata/pipeline.go, and the way back.
use mathlib.Core.Path.{subst}
use crossvenue.Base.{Bool, true, false, List, [], ◌∷◌, ◌≡◌, ◌≢◌, refl, sym, ap, ◌∙◌}
use crossvenue.Base.Int.{int_eq}
use crossvenue.Domain.{MarketEvent, BookDelta, snapshot, delta, trade, other}
use crossvenue.Seq.{Tracker, Verdict, apply, duplicate, stale, gap, need_snapshot, check}
use crossvenue.Seq.Order.{Means, check-Means}
use crossvenue.Book.{Book, mark_stale, invalidate}
use crossvenue.Book.Invariant.{drop, mark, mutate}
use crossvenue.Book.Published.{mutate-ready, mutate_all-ready, resynced}
use crossvenue.Pipeline.Lane.{
  Effect, journal, inc_sequence_gap, resync_request, gap_invalidated, sequence_gap, apply_event,
  on_verdict,
}
use crossvenue.Pipeline.Ready.{apply_event-calls, calls, calls_of}

-- What an event that costs a lane its readiness must be, and what it must set off.
abbrev pub IsLoss : MarketEvent → Tracker → List Effect → Type 0
IsLoss (delta d) t es =
    ((check d t).1 ≡ gap)
    × (es
        ≡ inc_sequence_gap d.venue
          ∷ journal (gap_invalidated d.sequence d.prev_sequence) d.venue d.symbol
          ∷ resync_request d.venue d.symbol sequence_gap
          ∷ [])
IsLoss _ t es = ⊥

calls-ready :
    (ev : MarketEvent) (t : Tracker) (b : Book)
    → (apply_event ev t b).1.state.ready ≡ resynced b.state.ready (calls ev t)
calls-ready ev t b =
    ap (λ (x : Book). x.state.ready) (apply_event-calls ev t b) ∙ mutate_all-ready (calls ev t) b

verdict_loss :
    (v : Verdict) (d : BookDelta) (r : Bool)
    → r ≡ true
    → v ≢ need_snapshot
    → resynced r (calls_of v d) ≡ false
    → v ≡ gap
verdict_loss apply d r h n e = cc
verdict_loss duplicate d r h n e = cc
verdict_loss stale d r h n e = cc
verdict_loss gap d r h n e = refl
verdict_loss need_snapshot d r h n e = absurd (n refl)

never_needs : (t : Tracker) (d : BookDelta) → t.ready ≡ true → (check d t).1 ≢ need_snapshot
never_needs t d h e = subst (Means t d) e (check-Means t d h)

-- A ready book behind an anchored tracker stops being ready by an event only if that event is a
-- delta that the venue's rule calls a gap; the gap is then counted, journalled and answered by a
-- resync request, in this order, and nothing else is called.
pub apply_event-IsLoss :
    (ev : MarketEvent) (t : Tracker) (b : Book)
    → t.ready ≡ true
    → b.state.ready ≡ true
    → (apply_event ev t b).1.state.ready ≡ false
    → IsLoss ev t (apply_event ev t b).2
unfolding apply_event on_verdict
apply_event-IsLoss (snapshot s) t b ht hb e = cc (calls-ready (snapshot s) t b)
apply_event-IsLoss (delta d) t b ht hb e =
    let g =
      verdict_loss (check d t).1 d b.state.ready hb (never_needs t d ht)
        (sym (calls-ready (delta d) t b) ∙ e) in
    (g, ap (λ v. (on_verdict v d b).1) g)
apply_event-IsLoss (trade _) t b ht hb e = cc (hb, e)
apply_event-IsLoss other t b ht hb e = cc (hb, e)

-- What can happen to a lane's book between two of its events.
pub data Happening : Type 0 where
  event : MarketEvent → Happening  -- the lane's goroutine applies an event
  overload : Happening  -- `Submit` finds the channel full
  mark_as : Bool → Happening  -- the staleness sweep

unfoldable pub happen : Happening → Tracker × Book → Tracker × Book
happen (event ev) (t, b) = let (t', b', _) = apply_event ev t b in (t', b')
happen overload (t, b) = (t, invalidate b)
happen (mark_as f) (t, b) = (t, mark_stale f b)

unfoldable pub happen_all : List Happening → Tracker × Book → Tracker × Book
happen_all [] l = l
happen_all (h ∷ hs) l = happen_all hs (happen h l)

abbrev pub is_snapshot : Happening → Bool
is_snapshot (event (snapshot _)) = true
is_snapshot _ = false

-- Nothing that happens is a snapshot.
abbrev pub NoSnapshot : List Happening → Type 0
NoSnapshot [] = Unit
NoSnapshot (h ∷ hs) = (is_snapshot h ≡ false) × NoSnapshot hs

calls_of-unready : (v : Verdict) (d : BookDelta) → resynced false (calls_of v d) ≡ false
calls_of-unready apply d = refl
calls_of-unready duplicate d = refl
calls_of-unready stale d = refl
calls_of-unready gap d = refl
calls_of-unready need_snapshot d = refl

happen-stays_unready :
    (h : Happening) (t : Tracker) (b : Book)
    → is_snapshot h ≡ false
    → b.state.ready ≡ false
    → (happen h (t, b)).1.state.ready ≡ false
unfolding happen mutate
happen-stays_unready (event (snapshot s)) t b n e = cc
happen-stays_unready (event (delta d)) t b n e =
    calls-ready (delta d) t b
    ∙ ap (λ r. resynced r (calls_of (check d t).1 d)) e
    ∙ calls_of-unready (check d t).1 d
happen-stays_unready (event (trade x)) t b n e = calls-ready (trade x) t b ∙ e
happen-stays_unready (event other) t b n e = calls-ready other t b ∙ e
happen-stays_unready overload t b n e = mutate-ready drop b
happen-stays_unready (mark_as f) t b n e = mutate-ready (mark f) b ∙ e

-- Once a book is not ready, whatever deltas, trades, overloads and staleness sweeps follow, in any
-- order, it stays so until a snapshot is applied.
pub unready_until_snapshot :
    (hs : List Happening) (t : Tracker) (b : Book)
    → NoSnapshot hs
    → b.state.ready ≡ false
    → (happen_all hs (t, b)).1.state.ready ≡ false
unfolding happen_all
unready_until_snapshot [] t b n e = e
unready_until_snapshot (h ∷ hs) t b n e =
    unready_until_snapshot hs (happen h (t, b)).0 (happen h (t, b)).1 n.1
      (happen-stays_unready h t b n.0 e)
