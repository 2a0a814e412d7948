-- ===== src/Api/Ready.antt =====
-- What the readiness of internal/api/api.go says of the books.
use crossvenue.Base.{
  true, false, Option, none, some, List, [], ◌∷◌, String, eqb, eqb_iff, string_eq, ◌≡◌, ◌≢◌, ◌⊎◌,
  inl, inr, refl, arith, Bool-cases,
}
use crossvenue.Base.Int.{pos, ◌≤ℤ◌}
use text.Mathlib.TextEquality.{eq_iff}
use crossvenue.Base.Dict.{Dict, IsMap, lookup, key_cases}
use crossvenue.Domain.{Time}
use crossvenue.Book.{Book, SnapshotView}
use crossvenue.Manager.{Duration, since, loaded_view, overlay_stale, add_view, all_views, all}
use crossvenue.Engine.State.{Times, Supervisor}
use crossvenue.Api.{count_ready, is_synchronized, ready_handler}

-- A view that is ready, not marked stale, and not older than the age that is allowed, if one is.
pub record IsCurrent (max_age : Duration) (now : Time) (w : SnapshotView) : Type 0 where
  pub ready : w.state.ready ≡ true
  pub fresh : w.state.stale ≡ false
  pub young : (max_age ≤ℤ pos 0) ⊎ (since now w.state.last_updated_at ≤ℤ max_age)

overlay-IsCurrent :
    (a : Duration) (now : Time) (w : SnapshotView)
    → is_synchronized (overlay_stale a now w) ≡ true
    → IsCurrent a now w
unfolding overlay_stale
overlay-IsCurrent a now w h = ground arith

IsCurrent-overlay :
    (a : Duration) (now : Time) (w : SnapshotView)
    → IsCurrent a now w
    → is_synchronized (overlay_stale a now w) ≡ true
unfolding overlay_stale
IsCurrent-overlay a now w c = ground (arith, c.ready, c.fresh, c.young)

-- A book of the manager whose published view is current.
abbrev pub HasCurrent : Duration → Time → Dict String Book → Type 0
HasCurrent a now m =
    (k : String) × (b : Book) × (w : SnapshotView) × (lookup k m ≡ some b)
    × (loaded_view b.publish ≡ some w)
    × IsCurrent a now w

later_key :
    (a : Duration) (now : Time) (i : String) (c : Book) (m : Dict String Book)
    → lookup i m ≡ none
    → HasCurrent a now m
    → HasCurrent a now ((i, c) ∷ m)
unfolding lookup
later_key a now i c m h (k, b, w, e, l, r) = (k, b, w, ground (arith, eq_iff i k), l, r)

count-add_view :
    (a : Duration) (now : Time) (o : Option SnapshotView) (vs : List SnapshotView)
    → count_ready (add_view a now o vs) ≢ 0
    → ((w : SnapshotView) × (o ≡ some w) × IsCurrent a now w) ⊎ (count_ready vs ≢ 0)
unfolding add_view count_ready
count-add_view a now none vs n = inr n
count-add_view a now (some w) vs n = elim (Bool-cases (is_synchronized (overlay_stale a now w))) [
  | inl yes_ready ↦ inl (w, refl, overlay-IsCurrent a now w yes_ready)
  | inr not_ready ↦ inr (rw not_ready at n)
]

add_view-count :
    (a : Duration) (now : Time) (w : SnapshotView) (vs : List SnapshotView)
    → IsCurrent a now w
    → count_ready (add_view a now (some w) vs) ≢ 0
unfolding add_view count_ready
add_view-count a now w vs c = rw (IsCurrent-overlay a now w c) (omega arith)

add_view-later :
    (a : Duration) (now : Time) (o : Option SnapshotView) (vs : List SnapshotView)
    → count_ready vs ≢ 0
    → count_ready (add_view a now o vs) ≢ 0
unfolding add_view count_ready
add_view-later a now none vs n = n
add_view-later a now (some w) vs n = ground arith

count-HasCurrent :
    (a : Duration) (now : Time) (m : Dict String Book)
    → IsMap m
    → count_ready (all_views a now m) ≢ 0
    → HasCurrent a now m
unfolding all_views lookup count_ready
count-HasCurrent a now [] h n = absurd (n refl)
count-HasCurrent a now ((k, b) ∷ m) h n =
    elim (count-add_view a now (loaded_view b.publish) (all_views a now m) n) [
      | inl (w, e, c) ↦ (k, b, w, ground (arith, eq_iff k k), e, c)
      | inr more ↦ later_key a now k b m h.0 (count-HasCurrent a now m h.1 more)
    ]

HasCurrent-count :
    (a : Duration) (now : Time) (m : Dict String Book)
    → HasCurrent a now m
    → count_ready (all_views a now m) ≢ 0
unfolding all_views lookup
HasCurrent-count a now [] (k, b, w, e, l, r) = cc
HasCurrent-count a now ((i, c) ∷ m) (k, b, w, e, l, r) = elim (key_cases i k) [
  | inl same ↦
      let e' : c ≡ b = ground (arith, eq_iff i k) in
      rw (e', l) (add_view-count a now w (all_views a now m) r)
  | inr differs ↦
      let e' : lookup k m ≡ some b = ground (arith, eq_iff i k) in
      add_view-later a now (loaded_view c.publish) (all_views a now m)
        (HasCurrent-count a now m (k, b, w, e', l, r))
]

-- The readiness endpoint answers 200 exactly when some book of the manager has a published view
-- that is ready, not stale and within the manager's age, if it has one; otherwise it answers 503.
pub ready_handler-IsCurrent :
    (t : Times) (s : Supervisor)
    → IsMap s.pipe.mgr.books
    → ((ready_handler t s).status ≡ 200) × HasCurrent s.pipe.mgr.max_age t.read s.pipe.mgr.books
      ⊎ ((ready_handler t s).status ≡ 503)
        × (HasCurrent s.pipe.mgr.max_age t.read s.pipe.mgr.books → ⊥)
unfolding ready_handler all
ready_handler-IsCurrent t s h =
    let views = all_views s.pipe.mgr.max_age t.read s.pipe.mgr.books in
    elim (Bool-cases (eqb (count_ready views) 0)) [
      | inl nothing ↦ inr (
        rw nothing refl,
        λ c.
            HasCurrent-count s.pipe.mgr.max_age t.read s.pipe.mgr.books c
              ((eqb_iff (count_ready views) 0).0 nothing),
      )
      | inr something ↦ inl (
        rw something refl,
        count-HasCurrent s.pipe.mgr.max_age t.read s.pipe.mgr.books h (ground arith),
      )
    ]
