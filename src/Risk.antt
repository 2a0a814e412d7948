-- ===== src/Risk.antt =====
-- internal/risk/risk.go: the pre-trade checks, the kill switch and the counters. The lock makes
-- each method one step. Reasons are data in place of texts.
pub mod Gates
use crossvenue.Base.{
  ℕ, zero, suc, ◌+◌, ◌-◌, Bool, true, false, not, ◌&&◌, ◌||◌, Option, none, some, String, List, [],
  ◌∷◌, ◌++◌, if◌then◌else◌, ltb, leb,
}
use crossvenue.Base.Int.{ℤ, pos, ltb_ℤ, leb_ℤ}
use crossvenue.Base.Outcome.{Outcome, returns, panics, ◌>>=◌}
use crossvenue.Decimal.{Fixed, mul, abs, is_positive, is_negative}
use crossvenue.Domain.{Venue, Time}
use crossvenue.Book.{SnapshotView}
use crossvenue.Manager.{Manager, Duration, since, snapshot}

pub record Limits : Type 0 where
  pub max_trade_notional : Fixed
  pub max_symbol_exposure : Fixed
  pub max_venue_exposure : Fixed
  pub max_total_exposure : Fixed
  pub min_expected_edge : Fixed
  pub max_quote_age : Duration
  pub max_book_age : Duration
  pub max_outstanding : ℤ
  pub max_consecutive_fails : ℤ
  pub daily_loss_limit : Fixed
  pub kill_switch : Bool

pub data Reason : Type 0 where
  kill_switch_active : String → Reason
  max_outstanding_orders max_consecutive_failures over_trade_notional : Reason
  below_min_expected_edge over_daily_loss over_symbol_exposure over_total_exposure : Reason
  book_not_ready book_stale quote_too_old over_venue_exposure : Venue → Reason

pub record Decision : Type 0 where
  pub allowed : Bool
  pub reasons : List Reason

abbrev pub deny : Reason → Decision → Decision
deny r d = record { allowed = false; reasons = d.reasons ++ (r ∷ []) }

abbrev pub deny_if : Bool → Reason → Decision → Decision
deny_if c r d = if c then deny r d else d

-- The counters are Go ints that only count up and down by one, so they are kept as numbers.
pub record State : Type 0 where
  pub kill : Bool
  pub kill_reason : String
  pub consecutive_fails : ℕ
  pub outstanding : ℕ

-- `New`
abbrev pub new_state : Limits → State
new_state l = record {
  kill = l.kill_switch;
  kill_reason = "";
  consecutive_fails = 0;
  outstanding = 0;
}

unfoldable pub activate_kill_switch : String → State → State
activate_kill_switch reason s = record s { kill = true; kill_reason = reason }

unfoldable pub reset_kill_switch : State → State
reset_kill_switch s = record s { kill = false; kill_reason = "" }

unfoldable pub note_order_opened : State → State
note_order_opened s = record s { outstanding = s.outstanding + 1 }

unfoldable pub note_order_closed : State → State
note_order_closed s =
    if ltb 0 s.outstanding then record s { outstanding = s.outstanding - 1 } else s

unfoldable pub note_execution_result : Bool → State → State
note_execution_result true s = record s { consecutive_fails = 0 }
note_execution_result false s = record s { consecutive_fails = s.consecutive_fails + 1 }

-- `ExposureSource`
pub record Exposure : Type 0 where
  pub venue_exposure : Venue → Outcome Fixed
  pub total_exposure : Outcome Fixed
  pub realized : Fixed

-- The arguments of `CheckOpportunity`; the sell VWAP is not read.
pub record Request : Type 0 where
  pub now : Time
  pub symbol : String
  pub buy_venue : Venue
  pub sell_venue : Venue
  pub qty : Fixed
  pub buy_vwap : Fixed
  pub expected_net : Fixed

-- The checks of the counters.
counter_checks : Limits → State → Decision → Decision
counter_checks l s d =
    deny_if
      (ltb_ℤ (pos 0) l.max_consecutive_fails
        && leb_ℤ l.max_consecutive_fails (pos s.consecutive_fails))
      max_consecutive_failures
      (deny_if
        (ltb_ℤ (pos 0) l.max_outstanding && ltb_ℤ l.max_outstanding (pos (s.outstanding + 2)))
        max_outstanding_orders (deny_if s.kill (kill_switch_active s.kill_reason) d))

-- The checks of the trade's size and its edge, and of the day's loss.
trade_checks : Limits → Fixed → Fixed → Fixed → Decision → Decision
trade_checks l notional net realized d =
    deny_if
      (is_positive l.daily_loss_limit
        && (leb_ℤ l.daily_loss_limit (abs realized) && is_negative realized))
      over_daily_loss
      (deny_if (is_positive l.min_expected_edge && ltb_ℤ net l.min_expected_edge)
        below_min_expected_edge
        (deny_if (is_positive l.max_trade_notional && ltb_ℤ l.max_trade_notional notional)
          over_trade_notional d))

-- The checks of one venue's book.
book_checks : Limits → Time → Venue → Option SnapshotView → Decision → Decision
book_checks l now v none d = deny (book_not_ready v) d
book_checks l now v (some w) d =
    if not w.state.ready
    then deny (book_not_ready v) d
    else deny_if
        (ltb_ℤ (pos 0) l.max_quote_age && ltb_ℤ l.max_quote_age (since now w.state.last_updated_at))
        (quote_too_old v) (deny_if w.state.stale (book_stale v) d)

-- The checks of exposure at the buy venue, and at the sell venue, where its mid price is known.
buy_exposure : Limits → Exposure → Venue → Option Fixed → Decision → Outcome Decision
buy_exposure l x v none d = returns d
buy_exposure l x v (some mid) d = do
  e ← x.venue_exposure v
  n ← mul e mid
  returns (
      deny_if (is_positive l.max_venue_exposure && ltb_ℤ l.max_venue_exposure n)
        (over_venue_exposure v) d)

sell_exposure : Limits → Exposure → Venue → Option Fixed → Decision → Outcome Decision
sell_exposure l x v none d = returns d
sell_exposure l x v (some mid) d = do
  e ← x.venue_exposure v
  n ← mul e mid
  t ← x.total_exposure
  total ← mul t mid
  returns (
      deny_if (is_positive l.max_total_exposure && ltb_ℤ l.max_total_exposure total)
        over_total_exposure
        (deny_if (is_positive l.max_symbol_exposure && ltb_ℤ l.max_symbol_exposure n)
          over_symbol_exposure
          (deny_if (is_positive l.max_venue_exposure && ltb_ℤ l.max_venue_exposure n)
            (over_venue_exposure v) d)))

-- `CheckOpportunity`. The view of each venue is read at `read`, the time of the manager's overlay;
-- `mid` gives a venue's mid price, as the caller looks it up.
unfoldable pub check_opportunity :
    Limits
    → State
    → Exposure
    → Manager
    → Time
    → (Venue → Outcome (Option Fixed))
    → Request
    → Outcome Decision
unfolding counter_checks trade_checks book_checks buy_exposure sell_exposure since abs
check_opportunity l s x m read mid r = do
  notional ← mul r.buy_vwap r.qty
  let d1 = counter_checks l s (record { allowed = true; reasons = [] })
  let d2 = trade_checks l notional r.expected_net x.realized d1
  let d3 = book_checks l r.now r.buy_venue (snapshot read r.buy_venue r.symbol 1 m) d2
  let d4 = book_checks l r.now r.sell_venue (snapshot read r.sell_venue r.symbol 1 m) d3
  mb ← mid r.buy_venue
  d5 ← buy_exposure l x r.buy_venue mb d4
  ms ← mid r.sell_venue
  sell_exposure l x r.sell_venue ms d5
