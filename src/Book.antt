-- ===== src/Book.antt =====
-- internal/book/book.go: one order book. The methods change the book in place; here they return
-- it. A map is an association list; `publish` is the hook that `Manager.Get` installs, and holds
-- the view that the hook's atomicView (internal/book/atomic.go) last stored.
pub mod Walking
pub mod Sort
pub mod Levels
pub mod Invariant
pub mod Published
pub mod Quotes
pub mod Average
use crossvenue.Base.{
  ℕ, zero, suc, ◌+◌, ◌*◌, ◌%◌, ◌^◌, ◌≤◌, Bool, true, false, not, ◌&&◌, ◌||◌, Option, none, some,
  String, List, [], ◌∷◌, if◌then◌else◌,
}
use crossvenue.Base.Int.{ℤ, pos, ltb_ℤ, leb_ℤ, int_eq}
use crossvenue.Base.Dict.{Dict, insert, erase}
use crossvenue.Base.Lists.{take}
use crossvenue.Base.Outcome.{Outcome, returns, ◌>>=◌}
use crossvenue.Decimal.{Fixed, is_zero, is_positive, add, sub, div, from_int}
use crossvenue.Domain.{Venue, Level, Side, buy, sell, BookSnapshot, BookDelta, Time}
use Walking.{Walk, walk}
use Sort.{sort_levels, higher, lower}

pub record State : Type 0 where
  pub ready : Bool
  pub stale : Bool
  pub sequence : ℤ
  pub last_updated_at : Time
  pub version : ℕ  -- uint64

pub record SnapshotView : Type 0 where
  pub venue : Venue
  pub symbol : String
  pub bids : List Level
  pub asks : List Level
  pub state : State

-- `atomicView`: nothing until the first `Store`.
abbrev pub AtomicView : Type 0
AtomicView = Option SnapshotView

pub record Book : Type 0 where
  pub venue : Venue
  pub symbol : String
  pub bids : Dict ℤ Fixed
  pub asks : Dict ℤ Fixed
  pub sorted_bids : List Level
  pub sorted_asks : List Level
  pub dirty : Bool
  pub state : State
  pub publish : Option AtomicView

abbrev pub publish_depth : ℕ
publish_depth = 512

-- The zero `State` of Go; the zero time is before the epoch, and no test reads it here.
abbrev pub zero_state : Time → State
zero_state t = record {
  ready = false;
  stale = false;
  sequence = pos 0;
  last_updated_at = t;
  version = 0;
}

-- `New`, with the zero time.
unfoldable pub new : Time → Venue → String → Book
new t v s = record {
  venue = v;
  symbol = s;
  bids = [];
  asks = [];
  sorted_bids = [];
  sorted_asks = [];
  dirty = false;
  state = zero_state t;
  publish = none;
}

abbrev pub to_levels : Dict ℤ Fixed → List Level
to_levels [] = []
to_levels ((p, q) ∷ m) = record { price = p; qty = q } ∷ to_levels m

unfoldable pub resort : Book → Book
resort b = if not b.dirty then b else record b {
  sorted_bids = sort_levels higher (to_levels b.bids);
  sorted_asks = sort_levels lower (to_levels b.asks);
  dirty = false;
}

-- `src[:limit]`, for a limit that is no negative number.
unfoldable pub depth : Side → ℕ → Book → Book × List Level
unfolding resort
depth buy limit b = let b' = resort b in (b', take limit b'.sorted_bids)
depth sell limit b = let b' = resort b in (b', take limit b'.sorted_asks)

unfoldable pub snapshot : ℕ → Book → Book × SnapshotView
unfolding depth
snapshot n b =
    let (b', bids) = depth buy n b in
    let (b'', asks) = depth sell n b' in
    (b'', record { venue = b.venue; symbol = b.symbol; bids = bids; asks = asks; state = b.state })

abbrev store : Option AtomicView → Book × SnapshotView → Book → Book
store none _ b = b
store (some _) (b', v) b = record b' { publish = some (some v) }

unfoldable pub emit : Book → Book
unfolding snapshot
emit b = store b.publish (snapshot publish_depth b) b

-- One round of the loops of `LoadSnapshot`.
abbrev pub keep_level : Level → Dict ℤ Fixed → Dict ℤ Fixed
keep_level l m = if is_positive l.qty then insert l.price l.qty m else m

-- The loops of `LoadSnapshot`, into an empty map.
unfoldable pub load_side : List Level → Dict ℤ Fixed → Dict ℤ Fixed
load_side [] m = m
load_side (l ∷ ls) m = load_side ls (keep_level l m)

abbrev pub bump_version : State → State
bump_version s = record s { version = (s.version + 1) % 2 ^ 64 }

-- The book that `LoadSnapshot` publishes; so for the other three.
abbrev pub loaded : BookSnapshot → Book → Book
loaded s b = record b {
  bids = load_side s.bids [];
  asks = load_side s.asks [];
  dirty = true;
  state = bump_version (record b.state {
    sequence = s.sequence;
    ready = true;
    stale = false;
    last_updated_at = s.receive_time;
  });
}

unfoldable pub load_snapshot : BookSnapshot → Book → Book
unfolding emit
load_snapshot s b = emit (loaded s b)

-- One round of the loops of `ApplyDelta`.
abbrev pub write_level : Level → Dict ℤ Fixed → Dict ℤ Fixed
write_level l m =
    if is_zero l.qty
    then erase l.price m
    else if is_positive l.qty
    then insert l.price l.qty m
    else m

-- The loops of `ApplyDelta`.
unfoldable pub apply_side : List Level → Dict ℤ Fixed → Dict ℤ Fixed
apply_side [] m = m
apply_side (l ∷ ls) m = apply_side ls (write_level l m)

abbrev pub changed : BookDelta → Book → Book
changed d b = record b {
  bids = apply_side d.bids b.bids;
  asks = apply_side d.asks b.asks;
  dirty = true;
  state = bump_version (record b.state { sequence = d.sequence; last_updated_at = d.receive_time });
}

unfoldable pub apply_delta : BookDelta → Book → Book
unfolding emit
apply_delta d b = emit (changed d b)

abbrev pub dropped : Book → Book
dropped b = record b { state = bump_version (record b.state { ready = false }) }

unfoldable pub invalidate : Book → Book
unfolding emit
invalidate b = emit (dropped b)

abbrev pub same_flag : Bool → Bool → Bool
same_flag true b = b
same_flag false b = not b

abbrev pub marked : Bool → Book → Book
marked stale b = record b { state = bump_version (record b.state { stale = stale }) }

unfoldable pub mark_stale : Bool → Book → Book
unfolding emit
mark_stale stale b = if not (same_flag b.state.stale stale) then emit (marked stale b) else b

abbrev pub first : List Level → Option Level
first [] = none
first (l ∷ _) = some l

unfoldable pub best_bid : Book → Book × Option Level
unfolding resort
best_bid b = let b' = resort b in (b', first b'.sorted_bids)

unfoldable pub best_ask : Book → Book × Option Level
unfolding resort
best_ask b = let b' = resort b in (b', first b'.sorted_asks)

-- Both best quotes, as `Mid`, `Spread` and `Crossed` read them.
abbrev both : Option Level → Option Level → Option (Level × Level)
both (some x) (some y) = some (x, y)
both _ _ = none

quotes : Book → Book × Option (Level × Level)
unfolding best_bid best_ask
quotes b = let (b', x) = best_bid b in let (b'', y) = best_ask b' in (b'', both x y)

midpoint : Option (Level × Level) → Outcome (Option Fixed)
midpoint none = returns none
midpoint (some (x, y)) = do s ← add x.price y.price; m ← div s (from_int (pos 2)); returns (some m)

unfoldable pub mid : Book → Outcome (Option Fixed)
unfolding quotes midpoint
mid b = midpoint (quotes b).1

difference : Option (Level × Level) → Outcome (Option Fixed)
difference none = returns none
difference (some (x, y)) = do d ← sub y.price x.price; returns (some d)

unfoldable pub spread : Book → Outcome (Option Fixed)
unfolding quotes difference
spread b = difference (quotes b).1

abbrev is_crossed : Option (Level × Level) → Bool
is_crossed none = false
is_crossed (some (x, y)) = leb_ℤ y.price x.price

unfoldable pub crossed : Book → Bool
unfolding quotes
crossed b = is_crossed (quotes b).1

-- The result of `VWAP`: vwap, filled, cost and ok.
abbrev pub Average : Type 0
Average = Fixed × Fixed × Fixed × Bool

abbrev pub no_average : Average
no_average = (pos 0, pos 0, pos 0, false)

-- The end of the walk, shared with `vwapOf` of internal/opportunity/engine.go.
unfoldable pub average : Walk → Outcome Average
average w =
    if is_zero w.filled
    then returns no_average
    else do v ← div w.cost w.filled; returns (v, w.filled, w.cost, is_zero w.remaining)

-- `Depth(side, 1<<30)`
unfoldable pub vwap : Side → Fixed → Book → Outcome Average
unfolding depth average
vwap side qty b = if not (is_positive qty) then returns no_average else do
  w ← walk (depth side (2 ^ 30) b).1 (record { remaining = qty; cost = pos 0; filled = pos 0 })
  average w
