-- ===== src/Execution/States.antt =====
-- The order state machine of internal/execution/execution.go.
use crossvenue.Base.{Bool, true, false, none, some, List, [], ◌∷◌, ◌≡◌, ◌⊎◌, refl, arith}
use crossvenue.Domain.{Time}
use crossvenue.Execution.{
  OrderState, pending, accepted, partially_filled, filled, cancel_pending, cancelled, rejected,
  expired, Order, illegal_transition, can_transition, transition,
}

-- An order that is done: filled, cancelled, rejected or expired.
abbrev pub is_terminal : OrderState → Bool
is_terminal filled = true
is_terminal cancelled = true
is_terminal rejected = true
is_terminal expired = true
is_terminal _ = false

-- A transition without error leads to the state asked for, by an edge of the table; one with an
-- error leaves the order as it was and there was no edge.
pub transition_lem :
    (to : OrderState) (at : Time) (o : Order)
    → ((can_transition o.state to ≡ true)
        × ((transition to at o).1 ≡ none)
        × ((transition to at o).0.state ≡ to)
        × ((transition to at o).0.updated_at ≡ at))
      ⊎ ((can_transition o.state to ≡ false)
          × ((transition to at o).1 ≡ some (illegal_transition o.state to))
          × ((transition to at o).0 ≡ o))
unfolding transition
transition_lem to at o = ground arith

terminal_stuck : (s to : OrderState) → is_terminal s ≡ true → can_transition s to ≡ false
unfolding can_transition
terminal_stuck filled to h = refl
terminal_stuck cancelled to h = refl
terminal_stuck rejected to h = refl
terminal_stuck expired to h = refl
terminal_stuck pending to h = cc
terminal_stuck accepted to h = cc
terminal_stuck partially_filled to h = cc
terminal_stuck cancel_pending to h = cc

-- A sequence of requested transitions, each with its time; an error leaves the order.
abbrev pub transitions : List (OrderState × Time) → Order → Order
transitions [] o = o
transitions ((to, at) ∷ ts) o = transitions ts (transition to at o).0

-- An order that is filled, cancelled, rejected or expired stays exactly as it is under any
-- sequence of requested transitions.
pub terminal_absorbs :
    (ts : List (OrderState × Time)) (o : Order) → is_terminal o.state ≡ true → transitions ts o ≡ o
unfolding transition
terminal_absorbs [] o h = refl
terminal_absorbs ((to, at) ∷ ts) o h =
    let k = terminal_stuck o.state to h in let ih = terminal_absorbs ts o h in ground arith
