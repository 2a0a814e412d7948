-- ===== src/Seq/Order.antt =====
-- What the verdicts of internal/book/seq.go say of the sequence numbers.
use crossvenue.Base.{Bool, true, ◌≡◌, ◌≢◌, ◌⊎◌, arith}
use crossvenue.Base.Int.{ℤ, ◌≤ℤ◌, ◌<ℤ◌}
use crossvenue.Domain.{BookDelta}
use crossvenue.Seq.{
  Tracker, Verdict, apply, duplicate, stale, gap, need_snapshot, binance, okx, bybit, check,
  next_seq, Kind,
}

-- What a delta must be, on a tracker that has an anchor, for each verdict.
abbrev pub Follows : Kind → BookDelta → ℤ → Type 0
Follows binance d last = d.prev_sequence ≤ℤ next_seq last
Follows okx d last = (d.sequence ≡ next_seq last) ⊎ (d.prev_sequence ≡ last)
Follows bybit d last = (d.sequence ≡ next_seq last) ⊎ (d.prev_sequence ≡ last)

abbrev pub Means : Tracker → BookDelta → Verdict → Type 0
Means t d apply = (t.last_seq <ℤ d.sequence) × Follows t.kind d t.last_seq
Means t d duplicate = d.sequence ≤ℤ t.last_seq
Means t d stale = ⊥
Means t d gap = (t.last_seq <ℤ d.sequence) × (¬ Follows t.kind d t.last_seq)
Means t d need_snapshot = ⊥

check-Means_kind :
    (k : Kind) (r : Bool) (n : ℤ) (d : BookDelta)
    → r ≡ true
    → let t : Tracker = record { kind = k; ready = r; last_seq = n } in Means t d (check d t).1
unfolding check
check-Means_kind binance r n d h = ground arith
check-Means_kind okx r n d h = ground arith
check-Means_kind bybit r n d h = ground arith

-- On a tracker with an anchor the verdict is exact for each venue: a delta that is not newer is a
-- duplicate; a newer one is applied if it follows the last one by the venue's rule, and is a gap
-- if it does not.
pub check-Means : (t : Tracker) (d : BookDelta) → t.ready ≡ true → Means t d (check d t).1
check-Means t d h = check-Means_kind t.kind t.ready t.last_seq d h

check_moves_kind :
    (k : Kind) (r : Bool) (n : ℤ) (d : BookDelta)
    → let t : Tracker = record { kind = k; ready = r; last_seq = n } in
      let (t', v) = check d t in
      ((v ≡ apply) × (t' ≡ record t { ready = true; last_seq = d.sequence }))
      ⊎ ((v ≢ apply) × (t' ≡ t))
unfolding check
check_moves_kind binance r n d = ground arith
check_moves_kind okx r n d = ground arith
check_moves_kind bybit r n d = ground arith

-- A check never changes the kind, and moves the tracker only when it applies the delta: then the
-- tracker is ready and stands at the delta's sequence number. In every other case it stays as it
-- was.
pub check_moves :
    (t : Tracker) (d : BookDelta)
    → let (t', v) = check d t in
      ((v ≡ apply) × (t' ≡ record t { ready = true; last_seq = d.sequence }))
      ⊎ ((v ≢ apply) × (t' ≡ t))
check_moves t d = check_moves_kind t.kind t.ready t.last_seq d
