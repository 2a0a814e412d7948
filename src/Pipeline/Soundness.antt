-- ===== src/Pipeline/Soundness.antt =====
-- What is sound of a whole pipeline (internal/marketdata/pipeline.go), and that replacing a lane or
-- a book keeps it.
use mathlib.Core.Path.{subst, subst₂}
use crossvenue.Base.{
  ℕ, ◌≤◌, Option, none, some, String, List, ◌≡◌, ◌≢◌, refl, sym, ◌∙◌, inl, inr, string_eq,
}
use crossvenue.Base.Dict.{
  Dict, lookup, insert, lookup-insert_self, lookup-insert_ne, found-insert, key_cases,
}
use crossvenue.Base.Lists.{length}
use crossvenue.Domain.{MarketEvent}
use crossvenue.Book.{Book}
use crossvenue.Seq.{Tracker}
use crossvenue.Pipeline.{Pipeline, BookLane, apply_found, apply_at, set_book, set_lane}
use crossvenue.Pipeline.Lane.{apply_event}
use crossvenue.Pipeline.Ready.{IsSound, apply_event-IsSound}

-- A lane has a book, they are sound together, and its channel holds no more than its capacity.
abbrev pub LaneIsSound : ℕ → BookLane → Option Book → Type 0
LaneIsSound size l none = ⊥
LaneIsSound size l (some b) = IsSound l.tracker b × (length l.queue ≤ size)

abbrev pub LanesSound : Pipeline → Type 0
LanesSound p =
    (k : String) (l : BookLane)
    → lookup k p.lanes ≡ some l
    → LaneIsSound p.queue_size l (lookup k p.mgr.books)

-- The manager holds no book without a lane.
abbrev pub NoOrphans : Pipeline → Type 0
NoOrphans p = (k : String) → lookup k p.lanes ≡ none → lookup k p.mgr.books ≡ none

abbrev pub IsSoundPipeline : Pipeline → Type 0
IsSoundPipeline p = LanesSound p × NoOrphans p

-- A key at which nothing is found after a write is another key, with nothing before it.
lost-insert :
    {V : Type 0} (k j : String) (v : V) (m : Dict String V)
    → lookup j (insert k v m) ≡ none
    → (k ≢ j) × (lookup j m ≡ none)
lost-insert k j v m h = elim (key_cases k j) [
  | inl same ↦ cc (subst (λ x. lookup x (insert k v m) ≡ some v) same (lookup-insert_self k v m), h)
  | inr differs ↦ (differs, sym (lookup-insert_ne k j v m differs) ∙ h)
]

-- A lane and its book, replaced by others that are sound together.
pub put-IsSound :
    (k : String) (l : BookLane) (b : Book) (p : Pipeline)
    → IsSound l.tracker b
    → length l.queue ≤ p.queue_size
    → IsSoundPipeline p
    → IsSoundPipeline (set_lane k l (set_book k b p))
put-IsSound k l b p s h sp = (
  λ k' l' e. elim (found-insert k k' l l' p.lanes e) [
    | inl (same, kept) ↦
        subst₂ (λ x y. LaneIsSound p.queue_size y (lookup x (insert k b p.mgr.books))) same kept
          (rw (lookup-insert_self k b p.mgr.books) (s, h))
    | inr (differs, f) ↦ rw (lookup-insert_ne k k' b p.mgr.books differs) (sp.0 k' l' f)
  ],
  λ k' e.
      let n = lost-insert k k' l p.lanes e in lookup-insert_ne k k' b p.mgr.books n.0 ∙ sp.1 k' n.1,
)

apply_found-IsSound :
    (k : String) (ev : MarketEvent) (p : Pipeline) (ol : Option BookLane) (ob : Option Book)
    → lookup k p.lanes ≡ ol
    → lookup k p.mgr.books ≡ ob
    → IsSoundPipeline p
    → IsSoundPipeline (apply_found k ev p ol ob).0
unfolding apply_found
apply_found-IsSound k ev p none ob e f s = s
apply_found-IsSound k ev p (some l) none e f s = s
apply_found-IsSound k ev p (some l) (some b) e f s =
    let h : LaneIsSound p.queue_size l (some b) = rw f at (s.0 k l e) in
    put-IsSound k (record l { tracker = (apply_event ev l.tracker b).0 })
      (apply_event ev l.tracker b).1 p (apply_event-IsSound ev l.tracker b h.0) h.1 s

pub apply_at-IsSound :
    (k : String) (ev : MarketEvent) (p : Pipeline)
    → IsSoundPipeline p
    → IsSoundPipeline (apply_at k ev p).0
unfolding apply_at
apply_at-IsSound k ev p s = apply_found-IsSound k ev p _ _ refl refl s

requeued :
    (size : ℕ) (l : BookLane) (q : List MarketEvent) (ob : Option Book)
    → length q ≤ size
    → LaneIsSound size l ob
    → LaneIsSound size (record l { queue = q }) ob
requeued size l q none h s = s
requeued size l q (some b) h s = (s.0, h)

-- A lane whose channel changes, within its capacity.
pub requeue-IsSound :
    (k : String) (l : BookLane) (q : List MarketEvent) (p : Pipeline)
    → lookup k p.lanes ≡ some l
    → length q ≤ p.queue_size
    → IsSoundPipeline p
    → IsSoundPipeline (set_lane k (record l { queue = q }) p)
requeue-IsSound k l q p e h s = (
  λ k' l' e'. elim (found-insert k k' (record l { queue = q }) l' p.lanes e') [
    | inl (same, kept) ↦
        subst₂ (λ x y. LaneIsSound p.queue_size y (lookup x p.mgr.books)) same kept
          (requeued p.queue_size l q (lookup k p.mgr.books) h (s.0 k l e))
    | inr (differs, f) ↦ s.0 k' l' f
  ],
  λ k' e'. s.1 k' (lost-insert k k' (record l { queue = q }) p.lanes e').1,
)

rebooked :
    (size : ℕ) (l : BookLane) (b b' : Book) (ob : Option Book)
    → ob ≡ some b
    → ((t : Tracker) → IsSound t b → IsSound t b')
    → LaneIsSound size l ob
    → LaneIsSound size l (some b')
rebooked size l b b' none e h s = absurd s
rebooked size l b b' (some c) e h s = (h l.tracker (subst (IsSound l.tracker) (cc) s.0), s.1)

-- A book whose readiness or staleness changes.
pub rebook-IsSound :
    (k : String) (b b' : Book) (p : Pipeline)
    → lookup k p.mgr.books ≡ some b
    → ((t : Tracker) → IsSound t b → IsSound t b')
    → IsSoundPipeline p
    → IsSoundPipeline (set_book k b' p)
rebook-IsSound k b b' p e h s = (
  λ k' l' e'. elim (key_cases k k') [
    | inl same ↦
        subst (λ x. LaneIsSound p.queue_size l' (lookup x (insert k b' p.mgr.books))) same
          (rw (lookup-insert_self k b' p.mgr.books) (
            rebooked p.queue_size l' b b' (lookup k p.mgr.books) e h (
              subst (λ x. LaneIsSound p.queue_size l' (lookup x p.mgr.books)) (sym same)
                (s.0 k' l' e'))))
    | inr differs ↦ rw (lookup-insert_ne k k' b' p.mgr.books differs) (s.0 k' l' e')
  ],
  λ k' e'. elim (key_cases k k') [
    | inl same ↦ cc (e, subst (λ x. lookup x p.mgr.books ≡ none) (sym same) (s.1 k' e'))
    | inr differs ↦ lookup-insert_ne k k' b' p.mgr.books differs ∙ s.1 k' e'
  ],
)
