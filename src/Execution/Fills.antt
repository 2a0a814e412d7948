-- ===== src/Execution/Fills.antt =====
-- A fill of an order of internal/execution/execution.go, and the orders a simulator holds.
use crossvenue.Base.{
  true, false, ◌||◌, Option, none, some, ◌≡◌, ◌⊎◌, inl, inr, sym, arith, if◌then◌else◌,
}
use crossvenue.Base.Int.{ltb_ℤ, eqb_ℤ, ◌≤ℤ◌, ◌<ℤ◌}
use crossvenue.Base.Outcome.{returns, >>=-returns, guard-returns}
use crossvenue.Decimal.{Fixed, add, mul, div, is_zero, is_negative}
use crossvenue.Domain.{Time}
use crossvenue.Execution.States.{is_terminal}
use crossvenue.Execution.{
  accepted, partially_filled, filled, Order, OrderError, fill_not_positive, overfill,
  can_transition, transition, fill, enter, settle, is_pending,
}

-- What a fill that succeeds leaves: the order is filled exactly when its quantity is reached.
abbrev pub FillDone : Order → Fixed → Order → Type 0
FillDone o qty o' =
    (add o.filled_quantity qty ≡ returns o'.filled_quantity)
    × (o'.filled_quantity ≤ℤ o.quantity)
    × (is_terminal o.state ≡ false)
    × (((o'.state ≡ filled) × (o'.filled_quantity ≡ o.quantity))
        ⊎ ((o'.state ≡ partially_filled) × (o'.filled_quantity <ℤ o.quantity)))

-- The order with the fill's quantities, before its state moves.
abbrev pub Entered : Order → Fixed → Fixed → Order
Entered o nf a = record o { filled_quantity = nf; avg_fill_price = a }

-- The order once it is accepted.
abbrev pub readied : Time → Order → Order × Option OrderError
unfolding transition
readied at o = if is_pending o.state then transition accepted at o else (o, none)

enter-cases :
    (price qty nf : Fixed) (at : Time) (o : Order) {r : Order × Option OrderError}
    → enter price qty at o nf ≡ returns r
    → (a : Fixed) × (r ≡ settle (eqb_ℤ nf o.quantity) at (readied at (Entered o nf a)))
unfolding enter readied
enter-cases price qty nf at o h =
    let (_, _, h1) = >>=-returns (mul o.avg_fill_price o.filled_quantity) _ h in
    let (_, _, h2) = >>=-returns (mul price qty) _ h1 in
    let (_, _, h3) = >>=-returns (add _ _) _ h2 in
    let (a, _, h4) = >>=-returns (div _ nf) _ h3 in (a, ground arith)

-- The three ways a fill ends: refused for its size, refused for too much, or entered.
abbrev FillEnds : Fixed → Time → Order → Order × Option OrderError → Type 0
FillEnds qty at o r =
    (((is_zero qty || is_negative qty) ≡ true) × (r ≡ (o, some fill_not_positive)))
    ⊎ (((is_zero qty || is_negative qty) ≡ false)
        × ((nf : Fixed) × (add o.filled_quantity qty ≡ returns nf)
            × (((o.quantity <ℤ nf) × (r ≡ (o, some overfill)))
                ⊎ ((nf ≤ℤ o.quantity)
                    × ((a : Fixed) × (r
                          ≡ settle (eqb_ℤ nf o.quantity) at (readied at (Entered o nf a))))))))

fit-cases :
    (price qty nf : Fixed) (at : Time) (o : Order) {r : Order × Option OrderError}
    → (if ltb_ℤ o.quantity nf then returns (o, some overfill) else enter price qty at o nf)
      ≡ returns r
    → ((o.quantity <ℤ nf) × (r ≡ (o, some overfill)))
      ⊎ ((nf ≤ℤ o.quantity)
          × ((a : Fixed) × (r ≡ settle (eqb_ℤ nf o.quantity) at (readied at (Entered o nf a)))))
fit-cases price qty nf at o h =
    elim (guard-returns (ltb_ℤ o.quantity nf) (o, some overfill) (enter price qty at o nf) h) [
      | inl (over, e) ↦ inl (ground arith, e)
      | inr (fits, k) ↦ inr (ground arith, enter-cases price qty nf at o k)
    ]

fill-cases :
    (price qty : Fixed) (at : Time) (o : Order) {r : Order × Option OrderError}
    → fill price qty at o ≡ returns r
    → FillEnds qty at o r
unfolding fill
fill-cases price qty at o h =
    elim (guard-returns (is_zero qty || is_negative qty) (o, some fill_not_positive) _ h) [
      | inl refused ↦ inl refused
      | inr (sized, k) ↦
          let (nf, e, m) = >>=-returns (add o.filled_quantity qty) _ k in
          inr (sized, (nf, e, fit-cases price qty nf at o m))
    ]

entered-done :
    (o : Order) (nf a : Fixed) (at : Time) {o' : Order}
    → nf ≤ℤ o.quantity
    → settle (eqb_ℤ nf o.quantity) at (readied at (Entered o nf a)) ≡ (o', none)
    → (o'.filled_quantity ≡ nf)
      × (is_terminal o.state ≡ false)
      × (((o'.state ≡ filled) × (o'.filled_quantity ≡ o.quantity))
          ⊎ ((o'.state ≡ partially_filled) × (o'.filled_quantity <ℤ o.quantity)))
unfolding readied settle transition can_transition
entered-done o nf a at fits h = ground arith

entered-bounded :
    (o : Order) (nf a : Fixed) (at : Time) {r : Order × Option OrderError}
    → nf ≤ℤ o.quantity
    → r ≡ settle (eqb_ℤ nf o.quantity) at (readied at (Entered o nf a))
    → (r.0.filled_quantity ≤ℤ r.0.quantity) × (r.0.quantity ≡ o.quantity)
unfolding readied settle transition
entered-bounded o nf a at fits h = ground arith

-- A fill that returns without an error found an order that was not done, adds its quantity, never past the order's quantity, and
-- leaves the order filled exactly when the whole quantity is reached, else partially filled.
pub fill-done :
    (price qty : Fixed) (at : Time) (o : Order) {o' : Order}
    → fill price qty at o ≡ returns (o', none)
    → FillDone o qty o'
fill-done price qty at o {o'} h = elim (fill-cases price qty at o h) [
  | inl (_, e) ↦ cc
  | inr (_, (nf, e, inl (_, k))) ↦ cc
  | inr (_, (nf, e, inr (fits, (a, k)))) ↦
      let (f, live, s) = entered-done o nf a at fits (sym k) in
      (ground arith, ground arith, live, s)
]

-- A fill never leaves an order filled past its quantity, whether it returns an error or not.
pub fill-bounded :
    (price qty : Fixed) (at : Time) (o : Order) {r : Order × Option OrderError}
    → o.filled_quantity ≤ℤ o.quantity
    → fill price qty at o ≡ returns r
    → (r.0.filled_quantity ≤ℤ r.0.quantity) × (r.0.quantity ≡ o.quantity)
fill-bounded price qty at o b h = elim (fill-cases price qty at o h) [
  | inl (_, e) ↦ ground arith
  | inr (_, (nf, e, inl (_, k))) ↦ ground arith
  | inr (_, (nf, e, inr (fits, (a, k)))) ↦ entered-bounded o nf a at fits k
]
