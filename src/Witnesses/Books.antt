-- ===== src/Witnesses/Books.antt =====
-- The theorems on books at concrete inputs.
use crossvenue.Base.{none, some, [], ◌∷◌, ◌≡◌, refl, arith, ◌^◌}
use crossvenue.Base.Int.{pos, int_eq}
use crossvenue.Base.Dict.{lookup, insert}
use crossvenue.Domain.{sell}
use crossvenue.Book.{
  load_snapshot, load_side, apply_side, depth, resort, emit, snapshot, best_bid, best_ask, vwap,
  new,
}
use crossvenue.Book.Sort.{sort_levels, insert_level, higher, lower}
use crossvenue.Book.Levels.{written, last_write, lookup-apply_side}
use crossvenue.Book.Invariant.{
  IsValid, new-IsValid, hook-IsValid, mutate, load, change, mutate-IsValid,
}
use crossvenue.Book.Published.{IsCurrent, mutate-IsCurrent}
use crossvenue.Book.Quotes.{IsBest, quotes-IsBest}
use crossvenue.Book.Average.{IsExact, vwap-IsExact}
use crossvenue.Witnesses.{level, delta_at, full_snapshot, empty_book, full_book}

pub empty-IsValid : IsValid empty_book
unfolding new
empty-IsValid = hook-IsValid (some none) (new (pos 0) "okx" "BTC") (new-IsValid (pos 0) "okx" "BTC")

full-IsValid : IsValid full_book
unfolding mutate
full-IsValid = mutate-IsValid (load (full_snapshot "okx" (pos 10))) empty_book empty-IsValid

mutate-IsValid_example : IsValid (mutate (change (delta_at (pos 11) (pos 10))) full_book)
mutate-IsValid_example = mutate-IsValid (change (delta_at (pos 11) (pos 10))) full_book full-IsValid

full-IsCurrent : IsCurrent full_book
unfolding mutate
full-IsCurrent = mutate-IsCurrent (load (full_snapshot "okx" (pos 10))) empty_book empty-IsValid tt

mutate-IsCurrent_example : IsCurrent (mutate (change (delta_at (pos 11) (pos 10))) full_book)
mutate-IsCurrent_example =
    mutate-IsCurrent (change (delta_at (pos 11) (pos 10))) full_book full-IsValid full-IsCurrent

lookup-apply_side_example :
    lookup
      (pos 7)
      (apply_side (level (pos 7) (pos 4) ∷ level (pos 8) (pos 0) ∷ []) ((pos 8, pos 1) ∷ []))
    ≡ written
        (last_write (pos 7) (level (pos 7) (pos 4) ∷ level (pos 8) (pos 0) ∷ []))
        (lookup (pos 7) ((pos 8, pos 1) ∷ []))
unfolding lookup
lookup-apply_side_example =
    lookup-apply_side (pos 7) (level (pos 7) (pos 4) ∷ level (pos 8) (pos 0) ∷ [])
      ((pos 8, pos 1) ∷ []) (refl, tt)

quotes-IsBest_example :
    IsBest higher full_book.bids (best_bid full_book).1
    × IsBest lower full_book.asks (best_ask full_book).1
quotes-IsBest_example = quotes-IsBest full_book full-IsValid

vwap-IsExact_example :
    IsExact (depth sell (2 ^ 30) full_book).1 300000000 (vwap sell (pos 300000000) full_book)
unfolding depth resort load_snapshot emit snapshot load_side insert sort_levels insert_level new
vwap-IsExact_example =
    vwap-IsExact sell 300000000 full_book
      (
        (refl, refl, omega arith, omega arith, omega arith),
        ((refl, refl, omega arith, omega arith, omega arith), tt),
      )
      (omega arith) (omega arith)
