-- ===== src/Manager.antt =====
-- internal/book/book.go, `Manager`, with internal/book/atomic.go: the books of all venues, and
-- the views that readers find. The lock makes each method one step. A book's view stands in its
-- publish hook, so the two maps of the source are one here.
use Prim.Native.String.{◌++◌}
use crossvenue.Base.{
  ℕ, ◌-◌, ◌^◌, true, not, ◌&&◌, Option, none, some, String, List, [], ◌∷◌, if◌then◌else◌, string_eq,
}
use crossvenue.Base.Int.{ℤ, pos, negsuc, ◌-ℤ◌, ltb_ℤ}
use crossvenue.Base.Dict.{Dict, lookup, insert}
use crossvenue.Domain.{Venue, Time}
use crossvenue.Book.{Book, SnapshotView, AtomicView, new}

-- `time.Duration`, in nanoseconds.
abbrev pub Duration : Type 0
Duration = ℤ

-- `t.Sub(u)`, which Go keeps within the least and the greatest duration.
unfoldable pub since : Time → Time → Duration
since t u =
    let d = t -ℤ u in
    if ltb_ℤ (pos (2 ^ 63 - 1)) d
    then pos (2 ^ 63 - 1)
    else if ltb_ℤ d (negsuc (2 ^ 63 - 1))
    then negsuc (2 ^ 63 - 1)
    else d

pub record Manager : Type 0 where
  pub books : Dict String Book
  pub max_age : Duration

abbrev pub key : Venue → String → String
key v s = v ++ ("|" ++ s)

-- `NewManager`
abbrev pub new_manager : Manager
new_manager = record { books = []; max_age = pos 0 }

-- `Get`: a new book has a hook, whose view is empty.
abbrev pub fresh : Time → Venue → String → Book
fresh t v s = record (new t v s) { publish = some none }

unfoldable pub get_found : Time → Venue → String → Manager → Option Book → Manager × Book
get_found t v s m (some b) = (m, b)
get_found t v s m none = (record m { books = insert (key v s) (fresh t v s) m.books }, fresh t v s)

unfoldable pub get : Time → Venue → String → Manager → Manager × Book
unfolding get_found
get t v s m = get_found t v s m (lookup (key v s) m.books)

-- The staleness overlay, with the time that `Now` gives.
unfoldable pub overlay_stale : Duration → Time → SnapshotView → SnapshotView
unfolding since
overlay_stale max_age now v =
    if ltb_ℤ (pos 0) max_age && (v.state.ready && not v.state.stale)
    then (if ltb_ℤ max_age (since now v.state.last_updated_at)
        then record v { state = record v.state { stale = true } }
        else v)
    else v

-- What a reader finds in a book's hook.
abbrev pub loaded_view : Option AtomicView → Option SnapshotView
loaded_view none = none
loaded_view (some v) = v

-- `Snapshot`: its depth argument is not used.
read_view : Duration → Time → Option SnapshotView → Option SnapshotView
unfolding overlay_stale
read_view a now none = none
read_view a now (some w) = some (overlay_stale a now w)

snapshot_found : Duration → Time → Option Book → Option SnapshotView
unfolding read_view
snapshot_found a now none = none
snapshot_found a now (some b) = read_view a now (loaded_view b.publish)

unfoldable pub snapshot : Time → Venue → String → ℕ → Manager → Option SnapshotView
unfolding snapshot_found
snapshot now v s depth m = snapshot_found m.max_age now (lookup (key v s) m.books)

unfoldable pub add_view :
    Duration → Time → Option SnapshotView → List SnapshotView → List SnapshotView
unfolding overlay_stale
add_view a now none vs = vs
add_view a now (some w) vs = overlay_stale a now w ∷ vs

unfoldable pub all_views : Duration → Time → Dict String Book → List SnapshotView
unfolding add_view
all_views a now [] = []
all_views a now ((_, b) ∷ m) = add_view a now (loaded_view b.publish) (all_views a now m)

-- `All`, in the order of the association list; Go's map iteration has no order.
unfoldable pub all : Time → ℕ → Manager → List SnapshotView
unfolding all_views
all now depth m = all_views m.max_age now m.books
