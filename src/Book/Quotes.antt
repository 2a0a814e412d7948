-- ===== src/Book/Quotes.antt =====
-- The best quotes of internal/book/book.go.
use crossvenue.Base.{
  Bool, true, Option, none, some, List, [], ◌∷◌, ◌≡◌, ◌≢◌, ◌⊎◌, refl, sym, arith, inl, inr,
  Bool-cases, Option-cases,
}
use mathlib.Core.Path.{subst, subst₂}
use mathlib.Core.List.{Perm}
use mathlib.Core.List.Perm
use crossvenue.Base.Int.{ℤ, int_eq, eqb_ℤ, eqb_ℤ_iff}
use crossvenue.Base.Dict.{Dict, lookup, IsMap}
use crossvenue.Base.Lists.{All}
use crossvenue.Decimal.{Fixed}
use crossvenue.Domain.{Level}
use crossvenue.Book.{Book, to_levels, first, best_bid, best_ask, resort}
use crossvenue.Book.Sort.{insert_level, sort_levels, higher, lower}
use crossvenue.Book.Sort.Order.{
  IsOrder, higher-IsOrder, lower-IsOrder, Distinct, IsOrdered, sort_levels-IsOrdered,
  sort_levels-perm,
}
use crossvenue.Book.Invariant.{IsValid, resort_lem}

other_prices : (p : ℤ) (m : Dict ℤ Fixed) → lookup p m ≡ none → All (λ k. p ≢ k.price) (to_levels m)
unfolding lookup
other_prices p [] h = tt
other_prices p ((j, v) ∷ m) h = (ground arith, other_prices p m (ground arith))

pub to_levels-Distinct : (m : Dict ℤ Fixed) → IsMap m → Distinct (to_levels m)
to_levels-Distinct [] h = tt
to_levels-Distinct ((p, _) ∷ m) h = (other_prices p m h.0, to_levels-Distinct m h.1)

abbrev Has : Level → List Level → Type 0
Has x [] = ⊥
Has x (l ∷ ls) = (x ≡ l) ⊎ Has x ls

Has-insert_level :
    (less : Level → Level → Bool) (x l : Level) (ls : List Level)
    → Has x (insert_level less l ls)
    → (x ≡ l) ⊎ Has x ls
unfolding insert_level
Has-insert_level less x l [] h = h
Has-insert_level less x l (k ∷ ks) h = ground (arith, Has-insert_level less x l ks)

Has-sort_levels :
    (less : Level → Level → Bool) (x : Level) (ls : List Level)
    → Has x (sort_levels less ls)
    → Has x ls
unfolding sort_levels
Has-sort_levels less x [] h = h
Has-sort_levels less x (l ∷ ls) h =
    ground (arith, Has-insert_level less x l (sort_levels less ls) h, Has-sort_levels less x ls)

All-of_insert_level :
    (less : Level → Level → Bool) (P : Level → Type 0) (l : Level) (ls : List Level)
    → All P (insert_level less l ls)
    → P l × All P ls
unfolding insert_level
All-of_insert_level less P l [] h = h
All-of_insert_level less P l (k ∷ ks) h = elim (Bool-cases (less l k)) [
  | inl e ↦ rw e at h
  | inr e ↦ let r = rw e at h in let s = All-of_insert_level less P l ks r.1 in (s.0, (r.0, s.1))
]

All-of_sort_levels :
    (less : Level → Level → Bool) (P : Level → Type 0) (ls : List Level)
    → All P (sort_levels less ls)
    → All P ls
unfolding sort_levels
All-of_sort_levels less P [] h = tt
All-of_sort_levels less P (l ∷ ls) h =
    let r = All-of_insert_level less P l (sort_levels less ls) h in
    (r.0, All-of_sort_levels less P ls r.1)

Has-to_levels :
    (x : Level) (m : Dict ℤ Fixed) → IsMap m → Has x (to_levels m) → lookup x.price m ≡ some x.qty
unfolding lookup
Has-to_levels x [] h k = absurd k
Has-to_levels x ((p, q) ∷ m) h k = ground (arith, Has-to_levels x m h.1, eqb_ℤ_iff p x.price)

All-to_levels :
    (P : Level → Type 0) (p : ℤ) (q : Fixed) (m : Dict ℤ Fixed)
    → All P (to_levels m)
    → lookup p m ≡ some q
    → P (record { price = p; qty = q })
unfolding lookup
All-to_levels P p q [] h e = cc
All-to_levels P p q ((j, v) ∷ m) h e = elim (Bool-cases (eqb_ℤ j p)) [
  | inl same ↦
      subst₂ (λ x y. P (record { price = x; qty = y })) ((eqb_ℤ_iff j p).0 same) (ground arith) h.0
  | inr differs ↦ All-to_levels P p q m h.1 (ground arith)
]

-- `o` is the best level of a side: an entry of the map, before every other one in the order, or
-- nothing when the map is empty.
abbrev pub IsBest : (Level → Level → Bool) → Dict ℤ Fixed → Option Level → Type 0
IsBest less m none = (p : ℤ) → lookup p m ≡ none
IsBest less m (some l) =
    (lookup l.price m ≡ some l.qty)
    × ((p : ℤ) (q : Fixed)
        → lookup p m ≡ some q
        → p ≢ l.price
        → less l (record { price = p; qty = q }) ≡ true)

module _ (less : Level → Level → Bool) (o : IsOrder less) (m : Dict ℤ Fixed) (h : IsMap m) where
  no_level : All (λ _. ⊥) (to_levels m) → (p : ℤ) → lookup p m ≡ none
  no_level a p = elim (Option-cases (lookup p m)) [
    | inl e ↦ e
    | inr (q, e) ↦ absurd (All-to_levels (λ _. ⊥) p q m a e)
  ]

  rest_after :
      (x : Level) (ls : List Level)
      → All (λ k. less x k ≡ true) ls
      → All (λ k. k.price ≢ x.price → less x k ≡ true) ls
  rest_after x [] a = tt
  rest_after x (l ∷ ls) a = ((λ _. a.0), rest_after x ls a.1)

  first-IsBest : (ls : List Level) → sort_levels less (to_levels m) ≡ ls → IsBest less m (first ls)
  first-IsBest [] e =
      no_level (All-of_sort_levels less _ (to_levels m) (subst (All (λ _. ⊥)) (sym e) tt))
  first-IsBest (l ∷ ls) e = (
    Has-to_levels l m h (Has-sort_levels less l (to_levels m) (subst (Has l) (sym e) (inl refl))),
    λ p q k.
        All-to_levels (λ x. x.price ≢ l.price → less l x ≡ true) p q m
          (All-of_sort_levels less _ (to_levels m) (
            subst (All (λ x. x.price ≢ l.price → less l x ≡ true)) (sym e) (
              (λ d. absurd (d refl)),
              rest_after l ls
                  (subst (IsOrdered less) e
                    (sort_levels-IsOrdered less o (to_levels m) (to_levels-Distinct m h))).0,
            )))
          k,
  )

-- On a well-formed book `BestBid` and `BestAsk` return the entry with the highest bid price and the lowest ask price of
-- the book's maps, whatever state the sorted caches are in, and nothing exactly for an empty side.
pub quotes-IsBest :
    (b : Book)
    → IsValid b
    → IsBest higher b.bids (best_bid b).1 × IsBest lower b.asks (best_ask b).1
unfolding best_bid best_ask
quotes-IsBest b v = rw (resort_lem b v) (
  first-IsBest higher higher-IsOrder b.bids v.bids_map _ refl,
  first-IsBest lower lower-IsOrder b.asks v.asks_map _ refl,
)

-- However Go's map iteration orders the levels of a well-formed book, sorting them gives the caches that `resort` leaves.
pub resort_any_order :
    (b : Book) (bids asks : List Level)
    → IsValid b
    → Perm bids (to_levels b.bids)
    → Perm asks (to_levels b.asks)
    → ((resort b).sorted_bids ≡ sort_levels higher bids)
      × ((resort b).sorted_asks ≡ sort_levels lower asks)
resort_any_order b bids asks v p q = rw (resort_lem b v) (
  sort_levels-perm higher higher-IsOrder (to_levels b.bids) bids (Perm.symm p)
      (to_levels-Distinct b.bids v.bids_map),
  sort_levels-perm lower lower-IsOrder (to_levels b.asks) asks (Perm.symm q)
      (to_levels-Distinct b.asks v.asks_map),
)
