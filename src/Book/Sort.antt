-- ===== src/Book/Sort.antt =====
-- `sort.Slice` on the levels of one side, by price.
pub mod Order
use crossvenue.Base.{Bool, List, [], ◌∷◌, if◌then◌else◌}
use crossvenue.Base.Int.{ltb_ℤ}
use crossvenue.Domain.{Level}

-- The comparisons of `resort`: bids descend, asks ascend.
abbrev pub higher : Level → Level → Bool
higher a b = ltb_ℤ b.price a.price

abbrev pub lower : Level → Level → Bool
lower a b = ltb_ℤ a.price b.price

-- `sort.Slice` leaves the elements in the order of `less`. Prices differ in a side's map, so the
-- order is unique, and any sorting algorithm stands for the library's.
unfoldable pub insert_level : (Level → Level → Bool) → Level → List Level → List Level
insert_level less l [] = l ∷ []
insert_level less l (k ∷ ks) = if less l k then l ∷ k ∷ ks else k ∷ insert_level less l ks

unfoldable pub sort_levels : (Level → Level → Bool) → List Level → List Level
unfolding insert_level
sort_levels less [] = []
sort_levels less (l ∷ ls) = insert_level less l (sort_levels less ls)
