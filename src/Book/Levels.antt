-- ===== src/Book/Levels.antt =====
-- The loops of internal/book/book.go that write price levels into a side's map.
use crossvenue.Base.{
  not, ◌&&◌, Option, none, some, List, [], ◌∷◌, ◌≡◌, refl, ap, ◌∙◌, arith, if◌then◌else◌,
}
use crossvenue.Base.Int.{ℤ, pos, ltb_ℤ, eqb_ℤ, int_eq, ◌<ℤ◌}
use crossvenue.Base.Dict.{
  Dict, lookup, IsMap, insert-IsMap, erase-IsMap, lookup-insert, lookup-erase,
}
use crossvenue.Decimal.{Fixed, is_zero, is_positive}
use crossvenue.Domain.{Level}
use crossvenue.Book.{load_side, apply_side, keep_level, write_level}

-- What one level of a delta, and of a snapshot, writes at a price.
abbrev pub written_by : ℤ → Level → Option Fixed
written_by p l = if eqb_ℤ l.price p && not (ltb_ℤ l.qty (pos 0)) then some l.qty else none

-- The quantity of the last level at this price that is not negative, if there is one.
abbrev pub last_write : ℤ → List Level → Option Fixed
last_write p [] = none
last_write p (l ∷ ls) = elim (last_write p ls) [ some q ↦ some q | none ↦ written_by p l ]

-- What a write leaves at a price: zero removes, and no write keeps the old quantity.
abbrev pub written : Option Fixed → Option Fixed → Option Fixed
written none old = old
written (some q) old = if is_zero q then none else some q

write_level-IsMap : (l : Level) (m : Dict ℤ Fixed) → IsMap m → IsMap (write_level l m)
write_level-IsMap l m h = ground (arith, erase-IsMap l.price m h, insert-IsMap l.price l.qty m h)

keep_level-IsMap : (l : Level) (m : Dict ℤ Fixed) → IsMap m → IsMap (keep_level l m)
keep_level-IsMap l m h = ground (arith, insert-IsMap l.price l.qty m h)

pub load_side-IsMap : (ls : List Level) (m : Dict ℤ Fixed) → IsMap m → IsMap (load_side ls m)
unfolding load_side
load_side-IsMap [] m h = h
load_side-IsMap (l ∷ ls) m h = load_side-IsMap ls (keep_level l m) (keep_level-IsMap l m h)

pub apply_side-IsMap : (ls : List Level) (m : Dict ℤ Fixed) → IsMap m → IsMap (apply_side ls m)
unfolding apply_side
apply_side-IsMap [] m h = h
apply_side-IsMap (l ∷ ls) m h = apply_side-IsMap ls (write_level l m) (write_level-IsMap l m h)

lookup-write_level :
    (p : ℤ) (l : Level) (m : Dict ℤ Fixed)
    → IsMap m
    → lookup p (write_level l m) ≡ written (written_by p l) (lookup p m)
lookup-write_level p l m h =
    ground (arith, lookup-erase l.price p m h, lookup-insert l.price p l.qty m)

written_twice :
    (p : ℤ) (l : Level) (ls : List Level) (old : Option Fixed)
    → written (last_write p ls) (written (written_by p l) old) ≡ written (last_write p (l ∷ ls)) old
written_twice p l ls old = ground arith

-- After a delta on a map without repeated prices, a price holds what the last level at that price wrote, negative quantities left
-- aside: a zero quantity removes it, a positive one replaces it, and a price that the delta does
-- not name keeps its quantity.
pub lookup-apply_side :
    (p : ℤ) (ls : List Level) (m : Dict ℤ Fixed)
    → IsMap m
    → lookup p (apply_side ls m) ≡ written (last_write p ls) (lookup p m)
unfolding apply_side
lookup-apply_side p [] m h = refl
lookup-apply_side p (l ∷ ls) m h =
    lookup-apply_side p ls (write_level l m) (write_level-IsMap l m h)
    ∙ ap (written (last_write p ls)) (lookup-write_level p l m h)
    ∙ written_twice p l ls (lookup p m)

-- Every quantity in a side's map is positive.
abbrev pub IsPositive : Dict ℤ Fixed → Type 0
IsPositive m = (p : ℤ) (q : Fixed) → lookup p m ≡ some q → pos 0 <ℤ q

write_level-IsPositive :
    (l : Level) (m : Dict ℤ Fixed) → IsMap m → IsPositive m → IsPositive (write_level l m)
write_level-IsPositive l m h k p q e =
    ground (arith, k p q, lookup-erase l.price p m h, lookup-insert l.price p l.qty m)

keep_level-IsPositive : (l : Level) (m : Dict ℤ Fixed) → IsPositive m → IsPositive (keep_level l m)
keep_level-IsPositive l m k p q e = ground (arith, k p q, lookup-insert l.price p l.qty m)

pub apply_side-IsPositive :
    (ls : List Level) (m : Dict ℤ Fixed) → IsMap m → IsPositive m → IsPositive (apply_side ls m)
unfolding apply_side
apply_side-IsPositive [] m h k = k
apply_side-IsPositive (l ∷ ls) m h k =
    apply_side-IsPositive ls (write_level l m) (write_level-IsMap l m h)
      (write_level-IsPositive l m h k)

pub load_side-IsPositive :
    (ls : List Level) (m : Dict ℤ Fixed) → IsPositive m → IsPositive (load_side ls m)
unfolding load_side
load_side-IsPositive [] m k = k
load_side-IsPositive (l ∷ ls) m k =
    load_side-IsPositive ls (keep_level l m) (keep_level-IsPositive l m k)

-- The quantity of the last positive level at this price, if there is one.
abbrev pub kept_by : ℤ → Level → Option Fixed
kept_by p l = if eqb_ℤ l.price p && is_positive l.qty then some l.qty else none

abbrev pub last_positive : ℤ → List Level → Option Fixed
last_positive p [] = none
last_positive p (l ∷ ls) = elim (last_positive p ls) [ some q ↦ some q | none ↦ kept_by p l ]

abbrev pub or_else : Option Fixed → Option Fixed → Option Fixed
or_else none old = old
or_else (some q) old = some q

lookup-keep_level :
    (p : ℤ) (l : Level) (m : Dict ℤ Fixed)
    → lookup p (keep_level l m) ≡ or_else (kept_by p l) (lookup p m)
lookup-keep_level p l m = ground (arith, lookup-insert l.price p l.qty m)

kept_twice :
    (p : ℤ) (l : Level) (ls : List Level) (old : Option Fixed)
    → or_else (last_positive p ls) (or_else (kept_by p l) old)
      ≡ or_else (last_positive p (l ∷ ls)) old
kept_twice p l ls old = ground arith

pub lookup-load_side :
    (p : ℤ) (ls : List Level) (m : Dict ℤ Fixed)
    → lookup p (load_side ls m) ≡ or_else (last_positive p ls) (lookup p m)
unfolding load_side
lookup-load_side p [] m = refl
lookup-load_side p (l ∷ ls) m =
    lookup-load_side p ls (keep_level l m)
    ∙ ap (or_else (last_positive p ls)) (lookup-keep_level p l m)
    ∙ kept_twice p l ls (lookup p m)
