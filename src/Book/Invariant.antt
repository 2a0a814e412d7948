-- ===== src/Book/Invariant.antt =====
-- The well-formedness of a book of internal/book/book.go, which every mutation keeps.
use crossvenue.Base.{
  Bool, false, not, Option, none, some, List, [], ◌∷◌, ◌≡◌, refl, arith, String, inl, inr,
  Bool-cases, ℕ,
}
use crossvenue.Base.Int.{int_eq}
use crossvenue.Base.Dict.{lookup, IsMap}
use crossvenue.Base.Lists.{take}
use crossvenue.Domain.{BookSnapshot, BookDelta, Venue, Time}
use crossvenue.Book.{
  State, loaded, changed, dropped, marked, Book, new, load_snapshot, apply_delta, invalidate,
  mark_stale, emit, snapshot, resort, to_levels, depth, publish_depth, SnapshotView, AtomicView,
  same_flag,
}
use crossvenue.Book.Sort.{sort_levels, higher, lower}
use crossvenue.Book.Levels.{
  load_side-IsMap, apply_side-IsMap, IsPositive, load_side-IsPositive, apply_side-IsPositive,
}

-- The maps have one entry for a price and only positive quantities, and a cache that is not dirty
-- is the sorted map.
pub record IsValid (b : Book) : Type 0 where
  pub bids_map : IsMap b.bids
  pub asks_map : IsMap b.asks
  pub bids_positive : IsPositive b.bids
  pub asks_positive : IsPositive b.asks
  pub bids_cached : b.dirty ≡ false → b.sorted_bids ≡ sort_levels higher (to_levels b.bids)
  pub asks_cached : b.dirty ≡ false → b.sorted_asks ≡ sort_levels lower (to_levels b.asks)

-- A call that changes a book.
pub data Mutation : Type 0 where
  load : BookSnapshot → Mutation
  change : BookDelta → Mutation
  drop : Mutation
  mark : Bool → Mutation

unfoldable pub mutate : Mutation → Book → Book
mutate (load s) b = load_snapshot s b
mutate (change d) b = apply_delta d b
mutate drop b = invalidate b
mutate (mark f) b = mark_stale f b

-- What `resort` leaves alone, and what it leaves in the caches.
pub resort_lem :
    (b : Book)
    → IsValid b
    → resort b ≡ record b {
      sorted_bids = sort_levels higher (to_levels b.bids);
      sorted_asks = sort_levels lower (to_levels b.asks);
      dirty = false;
    }
unfolding resort
resort_lem b v = ground (arith, v.bids_cached, v.asks_cached)

pub resort-IsValid : (b : Book) → IsValid b → IsValid (resort b)
resort-IsValid b v = rw (resort_lem b v) (record {
  bids_map = v.bids_map;
  asks_map = v.asks_map;
  bids_positive = v.bids_positive;
  asks_positive = v.asks_positive;
  bids_cached = λ _. refl;
  asks_cached = λ _. refl;
})

-- The view of a book's best levels, read off its maps.
abbrev pub view_of : ℕ → Book → SnapshotView
view_of n b = record {
  venue = b.venue;
  symbol = b.symbol;
  bids = take n (sort_levels higher (to_levels b.bids));
  asks = take n (sort_levels lower (to_levels b.asks));
  state = b.state;
}

abbrev pub sorted : Book → Book
sorted b = record b {
  sorted_bids = sort_levels higher (to_levels b.bids);
  sorted_asks = sort_levels lower (to_levels b.asks);
  dirty = false;
}

pub snapshot_lem : (n : ℕ) (b : Book) → IsValid b → snapshot n b ≡ (sorted b, view_of n b)
unfolding snapshot depth resort
snapshot_lem n b v = ground (arith, v.bids_cached, v.asks_cached)

abbrev pub emitted : Option AtomicView → Book → Book
emitted none b = b
emitted (some _) b = record (sorted b) { publish = some (some (view_of publish_depth b)) }

pub emit_lem : (b : Book) → IsValid b → emit b ≡ emitted b.publish b
unfolding emit
emit_lem b v = rw (snapshot_lem publish_depth b v) (ground arith)

pub emit-IsValid : (b : Book) → IsValid b → IsValid (emit b)
emit-IsValid b v = rw (emit_lem b v) (go b.publish)
  where
    go : (p : Option AtomicView) → IsValid (emitted p b)
    go none = v
    go (some _) = record {
      bids_map = v.bids_map;
      asks_map = v.asks_map;
      bids_positive = v.bids_positive;
      asks_positive = v.asks_positive;
      bids_cached = λ _. refl;
      asks_cached = λ _. refl;
    }

nothing-IsPositive : IsPositive []
unfolding lookup
nothing-IsPositive p q e = cc

pub loaded-IsValid : (s : BookSnapshot) (b : Book) → IsValid (loaded s b)
loaded-IsValid s b = record {
  bids_map = load_side-IsMap s.bids [] tt;
  asks_map = load_side-IsMap s.asks [] tt;
  bids_positive = load_side-IsPositive s.bids [] nothing-IsPositive;
  asks_positive = load_side-IsPositive s.asks [] nothing-IsPositive;
  bids_cached = λ e. cc;
  asks_cached = λ e. cc;
}

pub changed-IsValid : (d : BookDelta) (b : Book) → IsValid b → IsValid (changed d b)
changed-IsValid d b v = record {
  bids_map = apply_side-IsMap d.bids b.bids v.bids_map;
  asks_map = apply_side-IsMap d.asks b.asks v.asks_map;
  bids_positive = apply_side-IsPositive d.bids b.bids v.bids_map v.bids_positive;
  asks_positive = apply_side-IsPositive d.asks b.asks v.asks_map v.asks_positive;
  bids_cached = λ e. cc;
  asks_cached = λ e. cc;
}

-- The invariant does not read the state.
state-IsValid : (t : State) (b : Book) → IsValid b → IsValid (record b { state = t })
state-IsValid t b v = record {
  bids_map = v.bids_map;
  asks_map = v.asks_map;
  bids_positive = v.bids_positive;
  asks_positive = v.asks_positive;
  bids_cached = v.bids_cached;
  asks_cached = v.asks_cached;
}

pub dropped-IsValid : (b : Book) → IsValid b → IsValid (dropped b)
dropped-IsValid b v = state-IsValid (dropped b).state b v

pub marked-IsValid : (f : Bool) (b : Book) → IsValid b → IsValid (marked f b)
marked-IsValid f b v = state-IsValid (marked f b).state b v

-- Every call that changes a book keeps it well formed: a map has one entry for a price, with a
-- positive quantity, and a cache that is not dirty is the sorted map.
pub mutate-IsValid : (m : Mutation) (b : Book) → IsValid b → IsValid (mutate m b)
unfolding mutate load_snapshot apply_delta invalidate mark_stale
mutate-IsValid (load s) b v = emit-IsValid (loaded s b) (loaded-IsValid s b)
mutate-IsValid (change d) b v = emit-IsValid (changed d b) (changed-IsValid d b v)
mutate-IsValid drop b v = emit-IsValid (dropped b) (dropped-IsValid b v)
mutate-IsValid (mark f) b v = elim (Bool-cases (not (same_flag b.state.stale f))) [
  | inl e ↦ rw e (emit-IsValid (marked f b) (marked-IsValid f b v))
  | inr e ↦ rw e v
]

-- The book after some calls.
unfoldable pub mutate_all : List Mutation → Book → Book
mutate_all [] b = b
mutate_all (m ∷ ms) b = mutate_all ms (mutate m b)

pub mutate_all-IsValid : (ms : List Mutation) (b : Book) → IsValid b → IsValid (mutate_all ms b)
unfolding mutate_all
mutate_all-IsValid [] b v = v
mutate_all-IsValid (m ∷ ms) b v = mutate_all-IsValid ms (mutate m b) (mutate-IsValid m b v)

-- A new book is well formed, so any book that these calls reach is.
pub new-IsValid : (t : Time) (v : Venue) (s : String) → IsValid (new t v s)
unfolding new sort_levels
new-IsValid t v s = record {
  bids_map = tt;
  asks_map = tt;
  bids_positive = nothing-IsPositive;
  asks_positive = nothing-IsPositive;
  bids_cached = λ _. refl;
  asks_cached = λ _. refl;
}

-- Nor does the invariant read the hook.
pub hook-IsValid :
    (a : Option AtomicView) (b : Book) → IsValid b → IsValid (record b { publish = a })
hook-IsValid a b v = record {
  bids_map = v.bids_map;
  asks_map = v.asks_map;
  bids_positive = v.bids_positive;
  asks_positive = v.asks_positive;
  bids_cached = v.bids_cached;
  asks_cached = v.asks_cached;
}
