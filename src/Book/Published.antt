-- ===== src/Book/Published.antt =====
-- The views that a book of internal/book/book.go publishes, and when it is ready.
use mathlib.Core.Path.{subst}
use crossvenue.Base.{
  sym, ap, ◌∙◌, Bool, true, false, not, Option, none, some, List, [], ◌∷◌, ◌≡◌, refl, arith, inl,
  inr, Bool-cases,
}
use crossvenue.Book.{
  State, snapshot, depth, resort, AtomicView, Book, emit, loaded, changed, dropped, marked,
  load_snapshot, apply_delta, invalidate, mark_stale, publish_depth, same_flag,
}
use crossvenue.Book.Invariant.{
  IsValid, Mutation, load, change, drop, mark, mutate, mutate_all, loaded-IsValid, changed-IsValid,
  dropped-IsValid, marked-IsValid, view_of, emit_lem, emitted,
}

-- The view that readers find, if there is one, shows the book as it is now: its best levels, in
-- order, and its state.
abbrev pub Shows : Option AtomicView → Book → Type 0
Shows none b = Unit
Shows (some none) b = Unit
Shows (some (some v)) b = v ≡ view_of publish_depth b

abbrev pub IsCurrent : Book → Type 0
IsCurrent b = Shows b.publish b

emitted-IsCurrent : (b : Book) (p : Option AtomicView) → b.publish ≡ p → IsCurrent (emitted p b)
emitted-IsCurrent b none e = subst (λ q. Shows q b) (sym e) tt
emitted-IsCurrent b (some _) e = refl

emit-IsCurrent : (b : Book) → IsValid b → IsCurrent (emit b)
emit-IsCurrent b v = rw (emit_lem b v) (emitted-IsCurrent b b.publish refl)

-- After every call that changes a book, the view that readers find shows that very book: no
-- reader sees levels or a state that a later change has replaced.
pub mutate-IsCurrent : (m : Mutation) (b : Book) → IsValid b → IsCurrent b → IsCurrent (mutate m b)
unfolding mutate load_snapshot apply_delta invalidate mark_stale
mutate-IsCurrent (load s) b v c = emit-IsCurrent (loaded s b) (loaded-IsValid s b)
mutate-IsCurrent (change d) b v c = emit-IsCurrent (changed d b) (changed-IsValid d b v)
mutate-IsCurrent drop b v c = emit-IsCurrent (dropped b) (dropped-IsValid b v)
mutate-IsCurrent (mark f) b v c = elim (Bool-cases (not (same_flag b.state.stale f))) [
  | inl e ↦ rw e (emit-IsCurrent (marked f b) (marked-IsValid f b v))
  | inr e ↦ rw e c
]

-- Whether the calls load a snapshot, and no invalidation follows the last one.
abbrev pub resynced : Bool → List Mutation → Bool
resynced r [] = r
resynced r (load _ ∷ ms) = resynced true ms
resynced r (change _ ∷ ms) = resynced r ms
resynced r (drop ∷ ms) = resynced false ms
resynced r (mark _ ∷ ms) = resynced r ms

pub emit-state : (b : Book) → (emit b).state ≡ b.state
unfolding emit snapshot depth resort
emit-state b = ground arith

pub mutate-ready :
    (m : Mutation) (b : Book) → (mutate m b).state.ready ≡ resynced b.state.ready (m ∷ [])
unfolding mutate load_snapshot apply_delta invalidate mark_stale
mutate-ready (load s) b = ap (λ (t : State). t.ready) (emit-state (loaded s b))
mutate-ready (change d) b = ap (λ (t : State). t.ready) (emit-state (changed d b))
mutate-ready drop b = ap (λ (t : State). t.ready) (emit-state (dropped b))
mutate-ready (mark f) b = elim (Bool-cases (not (same_flag b.state.stale f))) [
  | inl e ↦ rw e (ap (λ (t : State). t.ready) (emit-state (marked f b)))
  | inr e ↦ rw e refl
]

resynced_step :
    (m : Mutation) (r : Bool) (ms : List Mutation)
    → resynced (resynced r (m ∷ [])) ms ≡ resynced r (m ∷ ms)
resynced_step (load _) r ms = refl
resynced_step (change _) r ms = refl
resynced_step drop r ms = refl
resynced_step (mark _) r ms = refl

-- A book is ready exactly when a snapshot was loaded, or it was ready before, and it has not been
-- invalidated since: no delta and no staleness mark makes an invalidated book ready again.
pub mutate_all-ready :
    (ms : List Mutation) (b : Book) → (mutate_all ms b).state.ready ≡ resynced b.state.ready ms
unfolding mutate_all
mutate_all-ready [] b = refl
mutate_all-ready (m ∷ ms) b =
    mutate_all-ready ms (mutate m b)
    ∙ ap (λ r. resynced r ms) (mutate-ready m b)
    ∙ resynced_step m b.state.ready ms
