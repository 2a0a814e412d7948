-- ===== src/Book/Walking/Exact.antt =====
-- The walk over price levels against exact numbers.
use native.Mathlib.Nat.{mul-le-mul_right}
use crossvenue.Base.{
  ℕ, ◌+◌, ◌-◌, ◌*◌, ◌/◌, ◌≤◌, ◌<◌, min, List, [], ◌∷◌, ◌≡◌, inl, inr, refl, ap, ◌∙◌, arith,
  Bool-cases, le_or_lt,
}
use crossvenue.Base.Int.{pos, pos_part, neg_part, eqb_ℤ}
use crossvenue.Base.Lists.{All}
use crossvenue.Base.Outcome.{Outcome, returns, panics, overflow}
use crossvenue.Decimal.{max_int64, scale}
use crossvenue.Decimal.Whole.{add_pos, add_pos_overflow, sub_pos, mul_pos, mul_pos_overflow}
use crossvenue.Domain.{Level}
use crossvenue.Book.Walking.{Walk, walk, walk_level, taken}

-- A level as a side's map holds it: the price is not negative, the quantity positive, both int64.
abbrev pub IsSane : Level → Type 0
IsSane l =
    (neg_part l.price ≡ 0)
    × (neg_part l.qty ≡ 0)
    × (0 < pos_part l.qty)
    × (pos_part l.price ≤ max_int64)
    × (pos_part l.qty ≤ max_int64)

-- What the levels offer, what a quantity `r` takes of them, best level first, and its cost: each
-- level's price by the quantity taken, rounded down to the scale.
abbrev pub offered : List Level → ℕ
offered [] = 0
offered (l ∷ ls) = pos_part l.qty + offered ls

abbrev pub exact_cost : List Level → ℕ → ℕ
exact_cost [] r = 0
exact_cost (l ∷ ls) r =
    pos_part l.price * min (pos_part l.qty) r / scale + exact_cost ls (r - pos_part l.qty)

abbrev pub whole : ℕ → ℕ → ℕ → Walk
whole r c f = record { remaining = pos r; cost = pos c; filled = pos f }

mul_zero_scale : (p q : ℕ) → p * min q 0 / scale ≡ 0
mul_zero_scale p q = let e : min q 0 ≡ 0 = omega arith in rw e (omega arith)

pub exact_cost-zero : (ls : List Level) → exact_cost ls 0 ≡ 0
exact_cost-zero [] = refl
exact_cost-zero (l ∷ ls) =
    ground (arith, exact_cost-zero ls, mul_zero_scale (pos_part l.price) (pos_part l.qty))

taken_pos : (q r : ℕ) → taken (pos q) (pos r) ≡ pos (min q r)
taken_pos q r = ground arith

walk_level_pos :
    (p q r c f : ℕ)
    → p ≤ max_int64
    → q ≤ max_int64
    → f + r ≤ max_int64
    → c + p * min q r / scale ≤ max_int64
    → walk_level (record { price = pos p; qty = pos q }) (whole r c f)
      ≡ returns (whole (r - q) (c + p * min q r / scale) (f + min q r))
unfolding walk_level
walk_level_pos p q r c f hp hq hf hc =
    rw
      (
        taken_pos q r,
        mul_pos p (min q r) hp (omega arith) (omega arith),
        add_pos c (p * min q r / scale) hc,
        add_pos f (min q r) (omega arith),
        sub_pos r (min q r) (omega arith) (omega arith),
      )
      (ap (λ x. returns (whole x (c + p * min q r / scale) (f + min q r))) (omega arith))

walk_level_overflow :
    (p q r c f : ℕ)
    → p ≤ max_int64
    → q ≤ max_int64
    → c ≤ max_int64
    → max_int64 < c + p * min q r / scale
    → walk_level (record { price = pos p; qty = pos q }) (whole r c f) ≡ panics overflow
unfolding walk_level
walk_level_overflow p q r c f hp hq hc h = elim (le_or_lt (p * min q r / scale) max_int64) [
  | inl k ↦ rw (
    taken_pos q r,
    mul_pos p (min q r) hp (omega arith) k,
    add_pos_overflow c (p * min q r / scale) hc k h,
  )
  | inr k ↦ rw (taken_pos q r, mul_pos_overflow p (min q r) hp (omega arith) k)
]

abbrev whole_level : Level → Level
whole_level l = record { price = pos (pos_part l.price); qty = pos (pos_part l.qty) }

IsSane-whole : (l : Level) → IsSane l → l ≡ whole_level l
IsSane-whole l s = ground arith

-- The cost of what one level gives.
abbrev level_cost : Level → ℕ → ℕ
level_cost l r = pos_part l.price * min (pos_part l.qty) r / scale

walk_level_sane :
    (l : Level) (r c f : ℕ)
    → IsSane l
    → f + r ≤ max_int64
    → c + level_cost l r ≤ max_int64
    → walk_level l (whole r c f)
      ≡ returns (whole (r - pos_part l.qty) (c + level_cost l r) (f + min (pos_part l.qty) r))
walk_level_sane l r c f s h k =
    ap (λ x. walk_level x (whole r c f)) (IsSane-whole l s)
    ∙ walk_level_pos (pos_part l.price) (pos_part l.qty) r c f s.3 s.4 h k

walk_level_dear :
    (l : Level) (r c f : ℕ)
    → IsSane l
    → c ≤ max_int64
    → max_int64 < c + level_cost l r
    → walk_level l (whole r c f) ≡ panics overflow
walk_level_dear l r c f s h k =
    ap (λ x. walk_level x (whole r c f)) (IsSane-whole l s)
    ∙ walk_level_overflow (pos_part l.price) (pos_part l.qty) r c f s.3 s.4 h k

pub same_walk :
    {r c f r' c' f' : ℕ}
    → r ≡ r'
    → c ≡ c'
    → f ≡ f'
    → ◌≡◌ {A = Outcome Walk} (returns (whole r c f)) (returns (whole r' c' f'))
same_walk p q e = cc

-- The walk returns when its exact cost fits an int64.
pub walk_returns :
    (ls : List Level) (r c f : ℕ)
    → All IsSane ls
    → f + r ≤ max_int64
    → c + exact_cost ls r ≤ max_int64
    → walk ls (whole r c f)
      ≡ returns (whole (r - offered ls) (c + exact_cost ls r) (f + min (offered ls) r))
unfolding walk
walk_returns [] r c f s h k = same_walk (omega arith) (omega arith) (omega arith)
walk_returns (l ∷ ls) r c f s h k =
    rw (walk_level_sane l r c f s.0 h (omega arith))
      (elim (Bool-cases (eqb_ℤ (pos (r - pos_part l.qty)) (pos 0))) [
        | inl e ↦ rw e (
            let z : r - pos_part l.qty ≡ 0 = ground arith in
            same_walk (omega arith) (rw (z, exact_cost-zero ls) (omega arith)) (omega arith))
        | inr e ↦ rw e (
            walk_returns ls (r - pos_part l.qty) (c + level_cost l r) (f + min (pos_part l.qty) r)
              s.1 (omega arith) (omega arith)
            ∙ same_walk (omega arith) (omega arith) (omega arith))
      ])

-- It panics when its exact cost does not.
pub walk_panics :
    (ls : List Level) (r c f : ℕ)
    → All IsSane ls
    → f + r ≤ max_int64
    → c ≤ max_int64
    → max_int64 < c + exact_cost ls r
    → walk ls (whole r c f) ≡ panics overflow
unfolding walk
walk_panics [] r c f s h b k = absurd (omega arith)
walk_panics (l ∷ ls) r c f s h b k = elim (le_or_lt (c + level_cost l r) max_int64) [
  | inr dear ↦ rw (walk_level_dear l r c f s.0 b dear)
  | inl fits ↦
      rw (walk_level_sane l r c f s.0 h fits)
        (elim (Bool-cases (eqb_ℤ (pos (r - pos_part l.qty)) (pos 0))) [
          | inl e ↦ absurd (
              let z : r - pos_part l.qty ≡ 0 = ground arith in
              let n : exact_cost ls (r - pos_part l.qty) ≡ 0 = rw (z, exact_cost-zero ls) in
              omega arith)
          | inr e ↦ rw e (
              walk_panics ls (r - pos_part l.qty) (c + level_cost l r) (f + min (pos_part l.qty) r)
                s.1 (omega arith) fits (omega arith))
        ])
]

-- No unit is paid for at more than the highest price.
pub exact_cost-le :
    (p : ℕ) (ls : List Level) (r : ℕ)
    → All (λ l. pos_part l.price ≤ p) ls
    → exact_cost ls r * scale ≤ p * min (offered ls) r
exact_cost-le p [] r h = omega arith
exact_cost-le p (l ∷ ls) r h =
    let a = min (pos_part l.qty) r in
    let b = min (offered ls) (r - pos_part l.qty) in
    let e : min (pos_part l.qty + offered ls) r ≡ a + b = omega arith in
    let m : pos_part l.price * a ≤ p * a = mul-le-mul_right a h.0 in
    rw e (omega (arith, m, exact_cost-le p ls (r - pos_part l.qty) h.1))
