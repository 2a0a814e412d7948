-- ===== src/Seq/Gaps.antt =====
-- A feed of deltas through one tracker of internal/book/seq.go.
use crossvenue.Base.{Bool, true, ◌≡◌, ◌≢◌, refl, sym, ◌⊎◌, arith, List, [], ◌∷◌}
use crossvenue.Base.Lists.{All}
use crossvenue.Base.Int.{ℤ, pos, ◌+ℤ◌, ◌≤ℤ◌, ◌<ℤ◌, +ℤ_parts}
use crossvenue.Decimal.{wrap64, IsInt64}
use crossvenue.Decimal.Exact.{wrap64_id}
use crossvenue.Domain.{BookDelta}
use crossvenue.Seq.{
  Tracker, Verdict, apply, duplicate, stale, gap, need_snapshot, binance, okx, bybit, check, Kind,
}
use crossvenue.Seq.Order.{check-Means, check_moves, Means}

-- The verdicts of a feed, in order, and the tracker behind it.
unfoldable pub feed : List BookDelta → Tracker → Tracker × List Verdict
feed [] t = (t, [])
feed (d ∷ ds) t = let (t', v) = check d t in let (t'', vs) = feed ds t' in (t'', v ∷ vs)

-- The sequence numbers of the deltas that were applied.
unfoldable pub applied : List BookDelta → List Verdict → List ℤ
applied (d ∷ ds) (apply ∷ vs) = d.sequence ∷ applied ds vs
applied (d ∷ ds) (_ ∷ vs) = applied ds vs
applied _ _ = []

-- Every number is above the one before it, and the first is above `n`.
abbrev pub IncreasingFrom : ℤ → List ℤ → Type 0
IncreasingFrom n [] = Unit
IncreasingFrom n (m ∷ ms) = (n <ℤ m) × IncreasingFrom m ms

applied-increasing_step :
    (d : BookDelta) (ds : List BookDelta) (t t' : Tracker) (v : Verdict) (vs : List Verdict)
    → Means t d v
    → ((v ≡ apply) × (t' ≡ record t { ready = true; last_seq = d.sequence }))
      ⊎ ((v ≢ apply) × (t' ≡ t))
    → IncreasingFrom t'.last_seq (applied ds vs)
    → IncreasingFrom t.last_seq (applied (d ∷ ds) (v ∷ vs))
unfolding applied
applied-increasing_step d ds t t' apply vs m h k = ground arith
applied-increasing_step d ds t t' duplicate vs m h k = ground arith
applied-increasing_step d ds t t' stale vs m h k = ground arith
applied-increasing_step d ds t t' gap vs m h k = ground arith
applied-increasing_step d ds t t' need_snapshot vs m h k = ground arith

pub check_stays_ready : (t : Tracker) (d : BookDelta) → t.ready ≡ true → (check d t).0.ready ≡ true
check_stays_ready t d h = ground (arith, check_moves t d)

-- On a tracker with an anchor, the deltas that a feed applies have strictly increasing sequence
-- numbers, all above the tracker's: none is applied twice and none out of order.
pub applied-increasing :
    (ds : List BookDelta) (t : Tracker)
    → t.ready ≡ true
    → IncreasingFrom t.last_seq (applied ds (feed ds t).1)
unfolding feed applied
applied-increasing [] t h = tt
applied-increasing (d ∷ ds) t h =
    let r = check d t in
    applied-increasing_step d ds t r.0 r.1 (feed ds r.0).1 (check-Means t d h) (check_moves t d)
      (applied-increasing ds r.0 (check_stays_ready t d h))

-- Each delta is numbered one above the last, within an int64, and its range begins no later.
abbrev pub Contiguous : ℤ → List BookDelta → Type 0
Contiguous n [] = Unit
Contiguous n (d ∷ ds) =
    (d.sequence ≡ n +ℤ pos 1)
    × IsInt64 d.sequence
    × (d.prev_sequence ≤ℤ d.sequence)
    × Contiguous d.sequence ds

check_next :
    (k : Kind) (r : Bool) (n : ℤ) (d : BookDelta)
    → r ≡ true
    → d.sequence ≡ wrap64 (n +ℤ pos 1)
    → n <ℤ d.sequence
    → d.prev_sequence ≤ℤ d.sequence
    → let t : Tracker = record { kind = k; ready = r; last_seq = n } in
      check d t ≡ (record t { ready = true; last_seq = d.sequence }, apply)
unfolding check
check_next binance r n d h e lt le = ground arith
check_next okx r n d h e lt le = ground arith
check_next bybit r n d h e lt le = ground arith

pub check_next_lem :
    (t : Tracker) (d : BookDelta)
    → t.ready ≡ true
    → d.sequence ≡ t.last_seq +ℤ pos 1
    → IsInt64 d.sequence
    → d.prev_sequence ≤ℤ d.sequence
    → check d t ≡ (record t { ready = true; last_seq = d.sequence }, apply)
check_next_lem t d h e i p =
    check_next t.kind t.ready t.last_seq d h (rw (← e) (sym (wrap64_id d.sequence i)))
      (rw e (omega (arith, +ℤ_parts t.last_seq (pos 1)))) p

-- On a tracker with an anchor, a feed whose deltas are each numbered one above the last, within
-- an int64, and begin no later, is applied whole by every venue's tracker: no delta is refused.
pub feed-Contiguous :
    (ds : List BookDelta) (t : Tracker)
    → t.ready ≡ true
    → Contiguous t.last_seq ds
    → All (λ v. v ≡ apply) (feed ds t).1
unfolding feed
feed-Contiguous [] t h c = tt
feed-Contiguous (d ∷ ds) t h c =
    rw (check_next_lem t d h c.0 c.1 c.2)
      (refl, feed-Contiguous ds (record t { ready = true; last_seq = d.sequence }) refl c.3)
