-- ===== src/Book/Sort/Order.antt =====
-- `sort.Slice` on one side of internal/book/book.go: the result is ordered, and it does not
-- depend on the order in which Go's map iteration lists the levels.
use mathlib.Core.Path.{subst, ap₂}
use mathlib.Core.List.{Permᴰ, Perm}
use mathlib.Core.Logic.{∥∥₁_elim}
use crossvenue.Base.{
  Bool, true, not, List, [], ◌∷◌, ◌≡◌, ◌≢◌, inl, inr, Bool-cases, refl, sym, ap, ◌∙◌, arith,
}
use crossvenue.Base.Lists.{All}
use crossvenue.Domain.{Level}
use crossvenue.Book.Sort.{insert_level, sort_levels, higher, lower}
use native.Mathlib.Nat.{ℕ_set}

-- An order on levels of different prices.
pub record IsOrder (less : Level → Level → Bool) : Type 0 where
  pub total : (a b : Level) → a.price ≢ b.price → less b a ≡ not (less a b)
  pub trans : (a b c : Level) → less a b ≡ true → less b c ≡ true → less a c ≡ true

pub higher-IsOrder : IsOrder higher
higher-IsOrder = record { total = λ a b h. ground arith; trans = λ a b c h k. ground arith }

pub lower-IsOrder : IsOrder lower
lower-IsOrder = record { total = λ a b h. ground arith; trans = λ a b c h k. ground arith }

-- No two levels have one price.
abbrev pub Distinct : List Level → Type 0
Distinct [] = Unit
Distinct (l ∷ ls) = All (λ k. l.price ≢ k.price) ls × Distinct ls

-- Each level stands before all that follow it.
abbrev pub IsOrdered : (Level → Level → Bool) → List Level → Type 0
IsOrdered less [] = Unit
IsOrdered less (l ∷ ls) = All (λ k. less l k ≡ true) ls × IsOrdered less ls

All-perm : (P : Level → Type 0) {ks ls : List Level} → Permᴰ ks ls → All P ks → All P ls
All-perm P Permᴰ.nil h = tt
All-perm P (Permᴰ.cons e p) h = (subst P e h.0, All-perm P p h.1)
All-perm P (Permᴰ.swap e f) h = (subst P f h.1.0, (subst P e h.0, h.1.1))
All-perm P (Permᴰ.trans p q) h = All-perm P q (All-perm P p h)

Distinct-perm : {ks ls : List Level} → Permᴰ ks ls → Distinct ks → Distinct ls
Distinct-perm Permᴰ.nil d = tt
Distinct-perm (Permᴰ.cons {l₂ = zs} e p) d =
    (subst (λ x. All (λ k. x.price ≢ k.price) zs) e (All-perm _ p d.0), Distinct-perm p d.1)
Distinct-perm (Permᴰ.swap {l = zs} e f) d = (
  (
    λ h. d.0.0 (ap (λ x. x.price) e ∙ sym h ∙ ap (λ x. x.price) (sym f)),
    subst (λ x. All (λ k. x.price ≢ k.price) zs) f d.1.0,
  ),
  (subst (λ x. All (λ k. x.price ≢ k.price) zs) e d.0.1, d.1.1),
)
Distinct-perm (Permᴰ.trans p q) d = Distinct-perm q (Distinct-perm p d)

Levels_set : IsSet (List Level)
Levels_set = hlevel ℕ_set

module _ (less : Level → Level → Bool) where
  pub All-insert_level :
      (P : Level → Type 0) (l : Level) (ls : List Level)
      → P l
      → All P ls
      → All P (insert_level less l ls)
  unfolding insert_level
  All-insert_level P l [] h hs = (h, tt)
  All-insert_level P l (k ∷ ks) h hs = elim (Bool-cases (less l k)) [
    | inl e ↦ rw e (h, hs)
    | inr e ↦ rw e (hs.0, All-insert_level P l ks h hs.1)
  ]

  pub All-sort_levels :
      (P : Level → Type 0) (ls : List Level) → All P ls → All P (sort_levels less ls)
  unfolding sort_levels
  All-sort_levels P [] h = tt
  All-sort_levels P (l ∷ ls) h =
      All-insert_level P l (sort_levels less ls) h.0 (All-sort_levels P ls h.1)

  module _ (o : IsOrder less) where
    before_rest :
        (l k : Level) (ks : List Level)
        → less l k ≡ true
        → All (λ j. less k j ≡ true) ks
        → All (λ j. less l j ≡ true) ks
    before_rest l k [] e h = tt
    before_rest l k (j ∷ js) e h = (o.trans l k j e h.0, before_rest l k js e h.1)

    insert_level-IsOrdered :
        (l : Level) (ks : List Level)
        → All (λ k. l.price ≢ k.price) ks
        → IsOrdered less ks
        → IsOrdered less (insert_level less l ks)
    unfolding insert_level
    insert_level-IsOrdered l [] d h = (tt, tt)
    insert_level-IsOrdered l (k ∷ ks) d h = elim (Bool-cases (less l k)) [
      | inl e ↦ rw e ((e, before_rest l k ks e h.0), h)
      | inr e ↦ rw e (
        All-insert_level (λ j. less k j ≡ true) l ks (o.total l k d.0 ∙ ap not e) h.0,
        insert_level-IsOrdered l ks d.1 h.1,
      )
    ]

    pub sort_levels-IsOrdered :
        (ls : List Level) → Distinct ls → IsOrdered less (sort_levels less ls)
    unfolding sort_levels
    sort_levels-IsOrdered [] d = tt
    sort_levels-IsOrdered (l ∷ ls) d =
        insert_level-IsOrdered l (sort_levels less ls)
          (All-sort_levels (λ k. l.price ≢ k.price) ls d.0) (sort_levels-IsOrdered ls d.1)

    insert_level_comm :
        (a b : Level) (ls : List Level)
        → a.price ≢ b.price
        → insert_level less a (insert_level less b ls)
          ≡ insert_level less b (insert_level less a ls)
    unfolding insert_level
    insert_level_comm a b [] d = ground (arith, o.total a b d)
    insert_level_comm a b (l ∷ ls) d =
        ground (arith, o.total a b d, o.trans a b l, o.trans b a l, insert_level_comm a b ls d)

    sort_levels-permᴰ :
        {ks ls : List Level} → Permᴰ ks ls → Distinct ks → sort_levels less ks ≡ sort_levels less ls
    unfolding sort_levels
    sort_levels-permᴰ Permᴰ.nil d = refl
    sort_levels-permᴰ (Permᴰ.cons e p) d = ap₂ (insert_level less) e (sort_levels-permᴰ p d.1)
    sort_levels-permᴰ (Permᴰ.swap {a = x} {b = y} {l = zs} e f) d =
        insert_level_comm x y (sort_levels less zs) d.0.0
        ∙ ap₂ (insert_level less) f (ap₂ (insert_level less) e refl)
    sort_levels-permᴰ (Permᴰ.trans p q) d =
        sort_levels-permᴰ p d ∙ sort_levels-permᴰ q (Distinct-perm p d)

    -- Two lists of the same levels, of different prices, are sorted to one list.
    pub sort_levels-perm :
        (ks ls : List Level) → Perm ks ls → Distinct ks → sort_levels less ks ≡ sort_levels less ls
    sort_levels-perm ks ls p d = ∥∥₁_elim p (Levels_set _ _) (λ q. sort_levels-permᴰ q d)
