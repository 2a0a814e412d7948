-- ===== src/Portfolio.antt =====
-- internal/portfolio/portfolio.go: balances, positions and realised profit. The lock makes each
-- method one step. A method writes through pointers into the maps; here it puts the value back.
use Prim.Native.String.{◌++◌}
use crossvenue.Base.{
  Bool, true, false, not, ◌||◌, Option, none, some, String, List, [], ◌∷◌, map, if◌then◌else◌,
  string_eq, ◌==◌,
}
use crossvenue.Base.Int.{ℤ, pos, negsuc, ltb_ℤ}
use crossvenue.Base.Dict.{Dict, lookup, insert}
use crossvenue.Base.Outcome.{Outcome, returns, panics, ◌>>=◌}
use crossvenue.Decimal.{Fixed, add, sub, mul, mul_int, div, abs, is_zero, is_negative}
use crossvenue.Domain.{Venue, Price}
pub mod Readings
pub mod Settle
pub mod Refused

-- `ErrInsufficientFunds`
pub data LedgerError : Type 0 where
  insufficient_funds : LedgerError

pub record Balance : Type 0 where
  pub venue : Venue
  pub asset : String
  pub available : Fixed
  pub reserved : Fixed

pub record Position : Type 0 where
  pub venue : Venue
  pub symbol : String
  pub qty : Fixed
  pub avg_cost : Price

pub record Ledger : Type 0 where
  pub balances : Dict String Balance
  pub positions : Dict String Position
  pub realized : Fixed

-- `New`
abbrev pub new_ledger : Ledger
new_ledger = record { balances = []; positions = []; realized = pos 0 }

-- `balKey` and `posKey`
abbrev pub bal_key : Venue → String → String
bal_key v asset = v ++ ("|" ++ asset)

abbrev pub pos_key : Venue → String → String
pos_key v symbol = v ++ ("|" ++ symbol)

abbrev pub or_empty : Venue → String → Option Balance → Balance
or_empty v asset (some b) = b
or_empty v asset none = record { venue = v; asset = asset; available = pos 0; reserved = pos 0 }

-- `Balance`, and the value that `balanceLocked` gives a pointer to.
unfoldable pub balance : Venue → String → Ledger → Balance
balance v asset l = or_empty v asset (lookup (bal_key v asset) l.balances)

-- `Balances`, in the order of the association list.
unfoldable pub balances : Ledger → List Balance
balances l = map (λ e. e.1) l.balances

abbrev pub put_balance : String → Balance → Ledger → Ledger
put_balance k b l = record l { balances = insert k b l.balances }

-- `balanceLocked`: a missing balance is created.
unfoldable pub balance_locked : Venue → String → Ledger → Ledger × Balance
unfolding balance
balance_locked v asset l = let b = balance v asset l in (put_balance (bal_key v asset) b l, b)

unfoldable pub credit : Venue → String → Fixed → Ledger → Outcome Ledger
unfolding balance_locked
credit v asset amt l = do
  let (l', b) = balance_locked v asset l
  a ← add b.available amt
  returns (put_balance (bal_key v asset) (record b { available = a }) l')

unfoldable pub set_balance : Venue → String → Fixed → Ledger → Ledger
unfolding balance_locked
set_balance v asset available l =
    let (l', b) = balance_locked v asset l in
    put_balance (bal_key v asset) (record b { available = available }) l'

abbrev pub or_flat : Venue → String → Option Position → Position
or_flat v symbol (some p) = p
or_flat v symbol none = record { venue = v; symbol = symbol; qty = pos 0; avg_cost = pos 0 }

-- The position that `positionLocked` gives a pointer to.
unfoldable pub position : Venue → String → Ledger → Position
position v symbol l = or_flat v symbol (lookup (pos_key v symbol) l.positions)

abbrev pub put_position : String → Position → Ledger → Ledger
put_position k p l = record l { positions = insert k p l.positions }

unfoldable pub add_buy : Fixed → Fixed → Position → Outcome Position
add_buy px qty p = do
  new_qty ← add p.qty qty
  if is_negative p.qty
      then (if is_negative new_qty || is_zero new_qty
          then returns (record p { qty = new_qty })
          else returns (record p { qty = new_qty; avg_cost = px }))
      else if is_zero new_qty
      then returns (record p { qty = pos 0 })
      else do
        held ← mul p.avg_cost p.qty
        bought ← mul px qty
        total ← add held bought
        a ← div total new_qty
        returns (record p { qty = new_qty; avg_cost = a })

unfoldable pub add_sell : Fixed → Fixed → Position → Outcome Position
unfolding add_buy
add_sell px qty p = do n ← mul_int qty (negsuc 0); add_buy px n p

-- The position after a trade, put back.
move_position :
    (Position → Outcome Position) → Venue → String → Ledger → Outcome (Ledger × Option LedgerError)
unfolding position
move_position f v symbol l = do
  p ← f (position v symbol l)
  returns (put_position (pos_key v symbol) p l, none)

unfoldable pub apply_buy :
    Venue
    → String
    → String
    → String
    → Fixed
    → Fixed
    → Fixed
    → Ledger
    → Outcome (Ledger × Option LedgerError)
unfolding balance_locked move_position add_buy
apply_buy v symbol base quote px qty fee l = do
  gross ← mul px qty
  cost ← add gross fee
  let (l1, q) = balance_locked v quote l
  if ltb_ℤ q.available cost then returns (l1, some insufficient_funds) else do
    left ← sub q.available cost
    let l2 = put_balance (bal_key v quote) (record q { available = left }) l1
    let (l3, b) = balance_locked v base l2
    held ← add b.available qty
    move_position (add_buy px qty) v symbol
        (put_balance (bal_key v base) (record b { available = held }) l3)

unfoldable pub apply_sell :
    Venue
    → String
    → String
    → String
    → Fixed
    → Fixed
    → Fixed
    → Ledger
    → Outcome (Ledger × Option LedgerError)
unfolding balance_locked move_position add_sell
apply_sell v symbol base quote px qty fee l =
    let (l1, b) = balance_locked v base l in
    if ltb_ℤ b.available qty then returns (l1, some insufficient_funds) else do
      left ← sub b.available qty
      let l2 = put_balance (bal_key v base) (record b { available = left }) l1
      gross ← mul px qty
      proceeds ← sub gross fee
      let (l3, q) = balance_locked v quote l2
      held ← add q.available proceeds
      move_position (add_sell px qty) v symbol
          (put_balance (bal_key v quote) (record q { available = held }) l3)

unfoldable pub add_realized : Fixed → Ledger → Outcome Ledger
add_realized pnl l = do r ← add l.realized pnl; returns (record l { realized = r })

nonzero : Dict String Position → List Position
nonzero [] = []
nonzero ((_, p) ∷ m) = if is_zero p.qty then nonzero m else p ∷ nonzero m

-- `Positions`, in the order of the association list.
unfoldable pub positions : Ledger → List Position
unfolding nonzero
positions l = nonzero l.positions

venue_exposure_from : Venue → Dict String Position → Fixed → Outcome Fixed
venue_exposure_from v [] total = returns total
venue_exposure_from v ((_, p) ∷ m) total =
    (if p.venue == v then add total (abs p.qty) else returns total) >>= λ t.
    venue_exposure_from v m t

unfoldable pub venue_exposure : Venue → Ledger → Outcome Fixed
unfolding venue_exposure_from
venue_exposure v l = venue_exposure_from v l.positions (pos 0)

total_exposure_from : Dict String Position → Fixed → Outcome Fixed
total_exposure_from [] total = returns total
total_exposure_from ((_, p) ∷ m) total = add total (abs p.qty) >>= λ t. total_exposure_from m t

unfoldable pub total_exposure : Ledger → Outcome Fixed
unfolding total_exposure_from
total_exposure l = total_exposure_from l.positions (pos 0)
