-- ===== src/Pipeline/Rebuild.antt =====
-- A snapshot and an unbroken feed of deltas, through internal/marketdata/pipeline.go.
use crossvenue.Base.{false, List, [], ◌∷◌, ◌≡◌}
use crossvenue.Base.Int.{ℤ, int_eq}
use crossvenue.Base.Dict.{Dict}
use crossvenue.Decimal.{Fixed}
use crossvenue.Domain.{BookDelta, snapshot, delta}
use crossvenue.Book.{Book, apply_delta, mark_stale, apply_side, snapshot as view}
use crossvenue.Pipeline.Resync.{Happening, event}

-- The deltas of a feed, written into one side after another.
abbrev pub bids_after : List BookDelta → Dict ℤ Fixed → Dict ℤ Fixed
bids_after [] m = m
bids_after (d ∷ ds) m = bids_after ds (apply_side d.bids m)

abbrev pub asks_after : List BookDelta → Dict ℤ Fixed → Dict ℤ Fixed
asks_after [] m = m
asks_after (d ∷ ds) m = asks_after ds (apply_side d.asks m)

abbrev pub events : List BookDelta → List Happening
events [] = []
events (d ∷ ds) = event (delta d) ∷ events ds

-- The book after a delta that was applied.
abbrev after_delta : BookDelta → Book → Book
after_delta d b = mark_stale false (apply_delta d b)

-- What a feed leaves of a book.
abbrev pub Rebuilt : List BookDelta → Book → Book → Type 0
Rebuilt ds b b' =
    (b'.state.ready ≡ b.state.ready)
    × (b'.bids ≡ bids_after ds b.bids)
    × (b'.asks ≡ asks_after ds b.asks)
