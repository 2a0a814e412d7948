-- ===== src/Execution/Orders.antt =====
-- The orders that a simulator of internal/execution/execution.go holds.
use crossvenue.Base.{
  String, ℕ, ◌+◌, some, ◌≡◌, inl, inr, refl, sym, ◌∙◌, ap, Option, none, ◌==◌, Bool-cases, arith,
  string_eq, nat_eq, Option-cases,
}
use crossvenue.Base.Dict.{lookup, insert, lookup-insert, lookup-insert_self, found-insert}
use crossvenue.Domain.{Time}
use crossvenue.Execution.{Order, pending}
use crossvenue.Execution.Simulating.{Simulator, get_order, submit, submit_found}

submit-known :
    (o : Order) (at : Time) (s : Simulator) (n : ℕ)
    → lookup o.client_order_id s.by_clo_id ≡ some n
    → submit o at s ≡ (s, n)
unfolding submit submit_found
submit-known o at s n h = ground arith

submit-records :
    (o : Order) (at : Time) (s : Simulator)
    → lookup o.client_order_id (submit o at s).0.by_clo_id ≡ some (submit o at s).1
unfolding submit submit_found
submit-records o at s = elim (Option-cases (lookup o.client_order_id s.by_clo_id)) [
  | inl e ↦ let k = lookup-insert_self o.client_order_id (s.ctr + 1) s.by_clo_id in ground arith
  | inr (n, e) ↦ ground arith
]

-- A client order identifier is submitted once: a second order with it gets the number of the
-- first and changes nothing, whatever else it asks for.
pub submit_once :
    (o o' : Order) (at at' : Time) (s : Simulator)
    → o'.client_order_id ≡ o.client_order_id
    → submit o' at' (submit o at s).0 ≡ submit o at s
submit_once o o' at at' s h =
    submit-known o' at' (submit o at s).0 (submit o at s).1
      (ap (λ c. lookup c (submit o at s).0.by_clo_id) h ∙ submit-records o at s)

-- Every client order identifier leads to an order.
abbrev pub Holds : Simulator → Type 0
Holds s =
    (client : String) (n : ℕ)
    → lookup client s.by_clo_id ≡ some n
    → (o : Order) × (get_order n s ≡ some o)

-- A write keeps every order that is found.
get_order-insert :
    (n k : ℕ) (new found : Order) (s : Simulator)
    → get_order k s ≡ some found
    → (o : Order) × (lookup k (insert n new s.by_id) ≡ some o)
get_order-insert n k new found s f = elim (Bool-cases (n == k)) [
  | inl same ↦ (new, rw (lookup-insert n k new s.by_id, same) refl)
  | inr other ↦ (found, rw (lookup-insert n k new s.by_id, other) f)
]

pub Holds-insert :
    (n : ℕ) (o : Order) (s : Simulator) → Holds s → Holds (record s { by_id = insert n o s.by_id })
Holds-insert n o s h client k e = let (found, f) = h client k e in get_order-insert n k o found s f

submit_found-Holds :
    (o : Order) (at : Time) (s : Simulator) (known : Option ℕ)
    → Holds s
    → Holds (submit_found o at s known).0
unfolding submit_found
submit_found-Holds o at s (some n) h client k e = h client k e
submit_found-Holds o at s none h client k e =
    let n = s.ctr + 1 in
    let new = record o { id = n; state = pending; created_at = at; updated_at = at } in
    elim (found-insert o.client_order_id client n k s.by_clo_id e) [
      | inl (_, same) ↦ (new, rw (sym same) (lookup-insert_self n new s.by_id))
      | inr (_, old) ↦ let (found, f) = h client k old in get_order-insert n k new found s f
    ]

pub submit-Holds : (o : Order) (at : Time) (s : Simulator) → Holds s → Holds (submit o at s).0
unfolding submit
submit-Holds o at s h = submit_found-Holds o at s (lookup o.client_order_id s.by_clo_id) h

pub get_order-submit :
    (o : Order) (at : Time) (s : Simulator)
    → Holds s
    → (found : Order) × (get_order (submit o at s).1 (submit o at s).0 ≡ some found)
get_order-submit o at s h =
    submit-Holds o at s h o.client_order_id (submit o at s).1 (submit-records o at s)

submit_found-keeps :
    (o : Order) (at : Time) (s : Simulator) (known : Option ℕ) (k : ℕ) (old : Order)
    → get_order k s ≡ some old
    → (found : Order) × (get_order k (submit_found o at s known).0 ≡ some found)
unfolding submit_found
submit_found-keeps o at s (some n) k old f = (old, f)
submit_found-keeps o at s none k old f =
    let n = s.ctr + 1 in
    get_order-insert n k (record o { id = n; state = pending; created_at = at; updated_at = at })
      old s f

-- An order that is found is found after another was submitted.
pub submit-keeps :
    (o : Order) (at : Time) (s : Simulator) (k : ℕ) (old : Order)
    → get_order k s ≡ some old
    → (found : Order) × (get_order k (submit o at s).0 ≡ some found)
unfolding submit
submit-keeps o at s k old f =
    submit_found-keeps o at s (lookup o.client_order_id s.by_clo_id) k old f
