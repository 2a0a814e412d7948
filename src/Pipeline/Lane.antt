-- ===== src/Pipeline/Lane.antt =====
-- One event on one lane of internal/marketdata/pipeline.go (`apply`).
use crossvenue.Base.{ℕ, false, String, List, [], ◌∷◌, if◌then◌else◌}
use crossvenue.Base.Int.{ℤ}
use crossvenue.Domain.{Venue, MarketEvent, BookSnapshot, BookDelta, snapshot, delta, trade, other}
use crossvenue.Seq.{
  Tracker, Verdict, apply, duplicate, stale, gap, need_snapshot, on_snapshot, check,
}
use crossvenue.Book.{Book, load_snapshot, apply_delta, invalidate, mark_stale}

-- The reasons of a resync request; `no_snapshot` stands for the text "need_snapshot".
pub data Reason : Type 0 where
  queue_overload sequence_gap no_snapshot : Reason

-- A journal entry: its type with its payload.
pub data Entry : Type 0 where
  market_snapshot_received book_resynced market_delta_received : ℤ → Entry
  gap_invalidated : ℤ → ℤ → Entry
  overload_invalidated : Entry

pub data Effect : Type 0 where
  journal : Entry → Venue → String → Effect
  inc_sequence_gap inc_dropped : Venue → Effect
  set_queue_depth : Venue → ℕ → Effect
  resync_request : Venue → String → Reason → Effect

unfoldable pub on_snapshot_event : BookSnapshot → Tracker → Book → Tracker × Book × List Effect
on_snapshot_event s t b = (
  on_snapshot s.sequence t,
  mark_stale false (load_snapshot s b),
  journal (market_snapshot_received s.sequence) s.venue s.symbol
      ∷ (if b.state.ready then [] else journal (book_resynced s.sequence) s.venue s.symbol ∷ []),
)

-- The inner switch of `apply`, on the verdict.
unfoldable pub on_verdict : Verdict → BookDelta → Book → Book × List Effect
on_verdict apply d b = (
  mark_stale false (apply_delta d b),
  journal (market_delta_received d.sequence) d.venue d.symbol ∷ [],
)
on_verdict duplicate d b = (b, [])
on_verdict stale d b = (b, [])
on_verdict gap d b = (
  invalidate b,
  inc_sequence_gap d.venue
      ∷ journal (gap_invalidated d.sequence d.prev_sequence) d.venue d.symbol
      ∷ resync_request d.venue d.symbol sequence_gap
      ∷ [],
)
on_verdict need_snapshot d b = (invalidate b, resync_request d.venue d.symbol no_snapshot ∷ [])

unfoldable pub apply_event : MarketEvent → Tracker → Book → Tracker × Book × List Effect
unfolding on_snapshot_event on_verdict
apply_event (snapshot s) t b = on_snapshot_event s t b
apply_event (delta d) t b =
    let (t', v) = check d t in let (b', es) = on_verdict v d b in (t', b', es)
apply_event (trade _) t b = (t, b, [])
apply_event other t b = (t, b, [])
