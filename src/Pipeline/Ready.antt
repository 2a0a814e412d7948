-- ===== src/Pipeline/Ready.antt =====
-- What one event does to a lane of internal/marketdata/pipeline.go: its book against its tracker.
use mathlib.Core.Path.{subst}
use crossvenue.Base.{
  Bool, true, false, List, [], ◌∷◌, ◌≡◌, ◌≢◌, ◌⊎◌, refl, sym, ap, ◌∙◌, arith, inl, inr,
  if◌then◌else◌,
}
use crossvenue.Base.Int.{ℤ, ◌≤ℤ◌}
use crossvenue.Domain.{Time, MarketEvent, BookSnapshot, BookDelta, snapshot, delta, trade, other}
use crossvenue.Seq.{
  Tracker, Kind, binance, okx, bybit, Verdict, apply, duplicate, stale, gap, need_snapshot,
  on_snapshot, check,
}
use crossvenue.Seq.Order.{check_moves}
use crossvenue.Book.{
  Book, State, loaded, changed, dropped, marked, load_snapshot, apply_delta, invalidate, mark_stale,
}
use crossvenue.Book.Invariant.{
  IsValid, Mutation, load, change, drop, mark, mutate, mutate_all, mutate-IsValid,
  mutate_all-IsValid,
}
use crossvenue.Book.Published.{IsCurrent, emit-state, mutate-IsCurrent}
use crossvenue.Manager.{Duration}
use crossvenue.Pipeline.{sweep_book}
use crossvenue.Pipeline.Lane.{apply_event, on_verdict, on_snapshot_event}

pub load_snapshot-state :
    (s : BookSnapshot) (b : Book) → (load_snapshot s b).state ≡ (loaded s b).state
unfolding load_snapshot
load_snapshot-state s b = emit-state (loaded s b)

pub apply_delta-state : (d : BookDelta) (b : Book) → (apply_delta d b).state ≡ (changed d b).state
unfolding apply_delta
apply_delta-state d b = emit-state (changed d b)

invalidate-state : (b : Book) → (invalidate b).state ≡ (dropped b).state
unfolding invalidate
invalidate-state b = emit-state (dropped b)

-- A staleness mark changes neither the sequence number nor readiness, and sets the flag.
pub mark_stale-state :
    (f : Bool) (b : Book)
    → ((mark_stale f b).state.ready ≡ b.state.ready)
      × ((mark_stale f b).state.sequence ≡ b.state.sequence)
      × ((mark_stale f b).state.stale ≡ f)
unfolding mark_stale
mark_stale-state f b = ground (arith, emit-state (marked f b))

-- How far a tracker and its book agree: for Binance, which mixes two counters, the book is never
-- ahead of the tracker; for the others they stand at one number.
abbrev pub Agree : Kind → ℤ → ℤ → Type 0
Agree binance book_seq last = book_seq ≤ℤ last
Agree okx book_seq last = book_seq ≡ last
Agree bybit book_seq last = book_seq ≡ last

-- A lane between two events.
pub record IsSound (t : Tracker) (b : Book) : Type 0 where
  pub valid : IsValid b
  pub current : IsCurrent b
  pub anchored : b.state.ready ≡ true → t.ready ≡ true
  pub agree : b.state.ready ≡ true → Agree t.kind b.state.sequence t.last_seq

-- The calls that one event makes on the book.
abbrev pub calls_of : Verdict → BookDelta → List Mutation
calls_of apply d = change d ∷ mark false ∷ []
calls_of duplicate d = []
calls_of stale d = []
calls_of gap d = drop ∷ []
calls_of need_snapshot d = drop ∷ []

abbrev pub calls : MarketEvent → Tracker → List Mutation
calls (snapshot s) t = load s ∷ mark false ∷ []
calls (delta d) t = calls_of (check d t).1 d
calls (trade _) t = []
calls other t = []

on_verdict_calls :
    (v : Verdict) (d : BookDelta) (b : Book) → (on_verdict v d b).0 ≡ mutate_all (calls_of v d) b
unfolding on_verdict mutate_all mutate
on_verdict_calls apply d b = refl
on_verdict_calls duplicate d b = refl
on_verdict_calls stale d b = refl
on_verdict_calls gap d b = refl
on_verdict_calls need_snapshot d b = refl

pub apply_event-calls :
    (ev : MarketEvent) (t : Tracker) (b : Book) → (apply_event ev t b).1 ≡ mutate_all (calls ev t) b
unfolding apply_event mutate_all mutate
apply_event-calls (snapshot s) t b = refl
apply_event-calls (delta d) t b = on_verdict_calls (check d t).1 d b
apply_event-calls (trade _) t b = refl
apply_event-calls other t b = refl

pub mutate_all-IsCurrent :
    (ms : List Mutation) (b : Book) → IsValid b → IsCurrent b → IsCurrent (mutate_all ms b)
unfolding mutate_all
mutate_all-IsCurrent [] b v c = c
mutate_all-IsCurrent (m ∷ ms) b v c =
    mutate_all-IsCurrent ms (mutate m b) (mutate-IsValid m b v) (mutate-IsCurrent m b v c)

-- The part of soundness that reads the sequence numbers.
abbrev InStep : Tracker → Book → Type 0
InStep t b =
    (b.state.ready ≡ true → t.ready ≡ true)
    × (b.state.ready ≡ true → Agree t.kind b.state.sequence t.last_seq)

on_snapshot-InStep :
    (k : Kind) (r : Bool) (n : ℤ) (s : BookSnapshot) (b : Book)
    → let t : Tracker = record { kind = k; ready = r; last_seq = n } in
      InStep (on_snapshot s.sequence t) (mark_stale false (load_snapshot s b))
unfolding on_snapshot
on_snapshot-InStep binance r n s b =
    ground (arith, mark_stale-state false (load_snapshot s b), load_snapshot-state s b)
on_snapshot-InStep okx r n s b =
    ground (arith, mark_stale-state false (load_snapshot s b), load_snapshot-state s b)
on_snapshot-InStep bybit r n s b =
    ground (arith, mark_stale-state false (load_snapshot s b), load_snapshot-state s b)

Agree-refl : (k : Kind) (n : ℤ) → Agree k n n
Agree-refl binance n = omega arith
Agree-refl okx n = refl
Agree-refl bybit n = refl

Agree-subst : (k : Kind) {m n : ℤ} (last : ℤ) → m ≡ n → Agree k n last → Agree k m last
Agree-subst k l e h = subst (λ x. Agree k x l) (sym e) h

unready : (t : Tracker) (b : Book) → b.state.ready ≡ false → InStep t b
unready t b e = (λ h. cc, λ h. cc)

kept :
    {v : Verdict} {t t' : Tracker} {n : ℤ} (b : Book)
    → ((v ≡ apply) × (t' ≡ record t { ready = true; last_seq = n })) ⊎ ((v ≢ apply) × (t' ≡ t))
    → v ≢ apply
    → InStep t b
    → InStep t' b
kept b (inl m) d h = absurd (d m.0)
kept b (inr m) d h = subst (λ x. InStep x b) (sym m.1) h

on_verdict-InStep :
    (v : Verdict) (t t' : Tracker) (d : BookDelta) (b : Book)
    → ((v ≡ apply) × (t' ≡ record t { ready = true; last_seq = d.sequence }))
      ⊎ ((v ≢ apply) × (t' ≡ t))
    → InStep t b
    → InStep t' (on_verdict v d b).0
unfolding on_verdict
on_verdict-InStep apply t t' d b (inl m) h =
    let e = mark_stale-state false (apply_delta d b) in
    let f = apply_delta-state d b in
    rw m.1 (
      λ _. refl,
      λ _.
          Agree-subst t.kind d.sequence (e.1 ∙ ap (λ (x : State). x.sequence) f)
            (Agree-refl t.kind d.sequence),
    )
on_verdict-InStep apply t t' d b (inr m) h = absurd (m.0 refl)
on_verdict-InStep duplicate t t' d b m h = kept b m (λ e. cc) h
on_verdict-InStep stale t t' d b m h = kept b m (λ e. cc) h
on_verdict-InStep gap t t' d b m h =
    unready t' (invalidate b) (ap (λ (x : State). x.ready) (invalidate-state b))
on_verdict-InStep need_snapshot t t' d b m h =
    unready t' (invalidate b) (ap (λ (x : State). x.ready) (invalidate-state b))

apply_event-InStep :
    (ev : MarketEvent) (t : Tracker) (b : Book)
    → InStep t b
    → let (t', b', _) = apply_event ev t b in InStep t' b'
unfolding apply_event on_snapshot_event
apply_event-InStep (snapshot s) t b h = on_snapshot-InStep t.kind t.ready t.last_seq s b
apply_event-InStep (delta d) t b h =
    on_verdict-InStep (check d t).1 t (check d t).0 d b (check_moves t d) h
apply_event-InStep (trade _) t b h = h
apply_event-InStep other t b h = h

-- Any event keeps a lane sound: its book well formed, the view that readers find current, ready
-- only behind a tracker with an anchor, and in step with that tracker's sequence number.
pub apply_event-IsSound :
    (ev : MarketEvent) (t : Tracker) (b : Book)
    → IsSound t b
    → let (t', b', _) = apply_event ev t b in IsSound t' b'
apply_event-IsSound ev t b s = record {
  valid = rw (apply_event-calls ev t b) (mutate_all-IsValid (calls ev t) b s.valid);
  current = rw (apply_event-calls ev t b) (mutate_all-IsCurrent (calls ev t) b s.valid s.current);
  anchored = (apply_event-InStep ev t b (s.anchored, s.agree)).0;
  agree = (apply_event-InStep ev t b (s.anchored, s.agree)).1;
}

-- A call that leaves the sequence number, and makes nothing ready, keeps a lane sound.
mutate-IsSound :
    (m : Mutation) (t : Tracker) (b : Book)
    → ((mutate m b).state.ready ≡ true → b.state.ready ≡ true)
    → (mutate m b).state.sequence ≡ b.state.sequence
    → IsSound t b
    → IsSound t (mutate m b)
mutate-IsSound m t b r e s = record {
  valid = mutate-IsValid m b s.valid;
  current = mutate-IsCurrent m b s.valid s.current;
  anchored = λ h. s.anchored (r h);
  agree = λ h. Agree-subst t.kind t.last_seq e (s.agree (r h));
}

pub invalidate-IsSound : (t : Tracker) (b : Book) → IsSound t b → IsSound t (invalidate b)
unfolding mutate
invalidate-IsSound t b s =
    let e = invalidate-state b in
    mutate-IsSound drop t b (λ h. cc) (ap (λ (x : State). x.sequence) e) s

pub mark_stale-IsSound :
    (f : Bool) (t : Tracker) (b : Book) → IsSound t b → IsSound t (mark_stale f b)
unfolding mutate
mark_stale-IsSound f t b s =
    let e = mark_stale-state f b in mutate-IsSound (mark f) t b (λ h. sym e.0 ∙ h) e.1 s

either-IsSound :
    (c : Bool) (x y : Book × Bool) (t : Tracker)
    → IsSound t x.0
    → IsSound t y.0
    → IsSound t (if c then x else y).0
either-IsSound true x y t h k = h
either-IsSound false x y t h k = k

pub sweep_book-IsSound :
    (max_age : Duration) (now : Time) (t : Tracker) (b : Book)
    → IsSound t b
    → IsSound t (sweep_book max_age now b).0
unfolding sweep_book
sweep_book-IsSound a now t b s =
    either-IsSound b.state.ready _ (b, false) t (mark_stale-IsSound _ t b s) s
