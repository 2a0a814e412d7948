-- ===== src/Execution/Legs.antt =====
-- A leg of internal/execution/execution.go against a published view, and both legs together.
use crossvenue.Base.{
  Bool, false, not, Option, none, some, List, [], ◌∷◌, ◌≡◌, ◌≢◌, ◌⊎◌, inl, inr, refl, ◌∙◌, arith,
  string_eq, nat_eq,
}
use crossvenue.Base.Int.{ℤ, pos, ◌≤ℤ◌}
use crossvenue.Base.Outcome.{returns, ◌>>=◌, >>=-returns, guard-returns}
use crossvenue.Decimal.{Fixed, add, sub, mul, mul_bps}
use crossvenue.Domain.{Time, Level}
use crossvenue.Book.{SnapshotView}
use crossvenue.Book.Walking.{taken}
use crossvenue.Execution.Fills.{fill-bounded}
use crossvenue.Execution.{Order, OrderError, transition, fill, can_transition, pending, rejected}
use crossvenue.Execution.Filling.{
  Filling, FillEvent, LegOutcome, sink_fill, fill_level, fill_levels, finish, finish_cancel, is_ioc,
  fill_ready, fill_against_book, start_filling, reject_result, side_levels, unless_error,
}

abbrev pub Fits : Order → Order → Type 0
Fits o o' = (o'.filled_quantity ≤ℤ o'.quantity) × (o'.quantity ≡ o.quantity)

sunk-Fits :
    (o : Order) (ev : FillEvent) (g : Filling) (q : Order × Option OrderError)
    {r : Filling × Option OrderError}
    → returns (sink_fill ev g q) ≡ returns r
    → Fits o q.0
    → Fits o r.0.order
unfolding sink_fill
sunk-Fits o ev g (o', none) h k = ground arith
sunk-Fits o ev g (o', some e) h k = ground arith

filled-Fits :
    (o : Order) (price qty : Fixed) (at : Time) (ev : FillEvent) (g : Filling)
    {r : Filling × Option OrderError}
    → o.filled_quantity ≤ℤ o.quantity
    → (fill price qty at o >>= λ q. returns (sink_fill ev g q)) ≡ returns r
    → Fits o r.0.order
filled-Fits o price qty at ev g b h =
    let (q, e, k) = >>=-returns (fill price qty at o) (λ q. returns (sink_fill ev g q)) h in
    sunk-Fits o ev g q k (fill-bounded price qty at o b e)

fill_level-bounded :
    (bps : ℤ) (at : Time) (l : Level) (f : Filling) {r : Filling × Option OrderError}
    → f.order.filled_quantity ≤ℤ f.order.quantity
    → fill_level bps at l f ≡ returns r
    → Fits f.order r.0.order
unfolding fill_level
fill_level-bounded bps at l f b h =
    let (g, _, h1) = >>=-returns (mul l.price (taken l.qty f.remaining)) _ h in
    let (y, _, h2) = >>=-returns (mul_bps g bps) _ h1 in
    let (n, _, h3) = >>=-returns (mul l.price (taken l.qty f.remaining)) _ h2 in
    let (c, _, h4) = >>=-returns (add f.total_cost n) _ h3 in
    let (fs, _, h5) = >>=-returns (add f.total_fee y) _ h4 in
    let (t, _, h6) = >>=-returns (add f.total_filled (taken l.qty f.remaining)) _ h5 in
    let (m, _, h7) = >>=-returns (sub f.remaining (taken l.qty f.remaining)) _ h6 in
    filled-Fits f.order l.price (taken l.qty f.remaining) at _
      (record f { remaining = m; total_cost = c; total_filled = t; total_fee = fs }) b h7

rounds-bounded :
    (bps : ℤ) (at : Time) (ls : List Level) (o : Order) (q : Filling × Option OrderError)
    {r : Filling × Option OrderError}
    → ((f : Filling) (r' : Filling × Option OrderError)
        → f.order.filled_quantity ≤ℤ f.order.quantity
        → fill_levels bps at ls f ≡ returns r'
        → Fits f.order r'.0.order)
    → Fits o q.0.order
    → unless_error (λ f'. fill_levels bps at ls f') q ≡ returns r
    → Fits o r.0.order
rounds-bounded bps at ls o (f, some e) rest k h = ground arith
rounds-bounded bps at ls o (f, none) {r} rest k h = let m = rest f r k.0 h in (m.0, m.1 ∙ k.1)

fill_levels-bounded :
    (bps : ℤ) (at : Time) (ls : List Level) (f : Filling) {r : Filling × Option OrderError}
    → f.order.filled_quantity ≤ℤ f.order.quantity
    → fill_levels bps at ls f ≡ returns r
    → Fits f.order r.0.order
unfolding fill_levels
fill_levels-bounded bps at [] f b h = ground arith
fill_levels-bounded bps at (l ∷ ls) f b h =
    elim (guard-returns _ (f, none)
      (fill_level bps at l f >>= unless_error (λ f'. fill_levels bps at ls f')) h) [
        | inl (_, e) ↦ ground arith
        | inr (_, k) ↦
            let (q, e, m) = >>=-returns (fill_level bps at l f) _ k in
            rounds-bounded bps at ls f.order q (λ g r'. fill_levels-bounded bps at ls g)
              (fill_level-bounded bps at l f b e) m
      ]

finish-bounded :
    (at : Time) (o : Order) (r : Filling × Option OrderError)
    → Fits o r.0.order
    → Fits o (finish at r).order
unfolding finish finish_cancel is_ioc transition can_transition
finish-bounded at o (f, some e) h = h
finish-bounded at o (f, none) h = ground arith

fill_ready-bounded :
    (v : SnapshotView) (bps : ℤ) (at : Time) (o : Order) {out : LegOutcome}
    → o.filled_quantity ≤ℤ o.quantity
    → fill_ready v bps at o ≡ returns out
    → Fits o out.order
unfolding fill_ready start_filling
fill_ready-bounded v bps at o b h =
    let (n, _, h1) = >>=-returns (sub o.quantity o.filled_quantity) _ h in
    let (r, e, h2) =
      >>=-returns (fill_levels bps at (side_levels o.side v) (start_filling o n)) _ h1 in
    let k = finish-bounded at o r (fill_levels-bounded bps at _ (start_filling o n) b e) in
    ground arith

-- Whether a view may be filled against.
abbrev pub is_ready : Option SnapshotView → Bool
is_ready none = false
is_ready (some v) = v.state.ready

rejected-leg :
    (at : Time) (o : Order)
    → ((reject_result (transition rejected at o)).fills ≡ [])
      × ((reject_result (transition rejected at o)).leg.filled_qty ≡ pos 0)
      × ((reject_result (transition rejected at o)).error ≢ none)
      × ((reject_result (transition rejected at o)).order.filled_quantity ≡ o.filled_quantity)
      × ((o.state ≢ pending) ⊎ ((reject_result (transition rejected at o)).order.state ≡ rejected))
unfolding reject_result transition can_transition
rejected-leg at o = ground arith

-- Against a book that is missing or not ready a leg fills nothing: it sends no fill, returns an
-- error and leaves what was filled; an order that was pending is rejected.
pub unready_fills_nothing :
    (m : Option SnapshotView) (bps : ℤ) (at : Time) (o : Order)
    → is_ready m ≡ false
    → (out : LegOutcome) × (fill_against_book m bps at o ≡ returns out)
      × (out.fills ≡ [])
      × (out.leg.filled_qty ≡ pos 0)
      × (out.error ≢ none)
      × (out.order.filled_quantity ≡ o.filled_quantity)
      × ((o.state ≢ pending) ⊎ (out.order.state ≡ rejected))
unfolding fill_against_book
unready_fills_nothing none bps at o h =
    let r = rejected-leg at o in
    (reject_result (transition rejected at o), refl, r.0, r.1, r.2, r.3, r.4)
unready_fills_nothing (some v) bps at o h =
    let r = rejected-leg at o in
    (reject_result (transition rejected at o), ground arith, r.0, r.1, r.2, r.3, r.4)

-- A leg that starts within its order's quantity ends within it, whatever the book holds and
-- however the loop ends, and the quantity itself stays.
pub fill_against_book-Fits :
    (m : Option SnapshotView) (bps : ℤ) (at : Time) (o : Order) {out : LegOutcome}
    → o.filled_quantity ≤ℤ o.quantity
    → fill_against_book m bps at o ≡ returns out
    → Fits o out.order
unfolding fill_against_book reject_result transition can_transition
fill_against_book-Fits none bps at o b h = ground arith
fill_against_book-Fits (some v) bps at o b h =
    elim (guard-returns (not v.state.ready) (reject_result (transition rejected at o))
      (fill_ready v bps at o) h) [
        | inl (_, e) ↦ ground arith
        | inr (_, k) ↦ fill_ready-bounded v bps at o b k
      ]
