-- ===== src/Engine/State.antt =====
-- What the supervisor of internal/engine/engine.go keeps, its writes to the journal, and the names
-- that it derives from a symbol and from a counter.
use Prim.Native.String.{◌++◌, [] as no_text, ◌∷◌ as in_front}
use Prim.Native.Char.{code}
use crossvenue.Base.{
  ℕ, zero, suc, ◌/◌, ◌%◌, Bool, true, false, List, String, if◌then◌else◌, eqb, ltb,
}
use crossvenue.Base.Int.{ℤ}
use crossvenue.Base.Dict.{Dict}
use crossvenue.Domain.{Venue, Time, Side, Price, Quantity, Money}
use crossvenue.Config.{Config}
use crossvenue.Journal.{Journal, Aggregate, record_full}
use crossvenue.Opportunity.{Opportunity, Engine}
use crossvenue.Risk.{Reason, Limits, State}
use crossvenue.Execution.Simulating.{Simulator}
use crossvenue.Portfolio.{Ledger}
use crossvenue.Pipeline.{Pipeline}
use crossvenue.Pipeline.Lane.{Entry}

-- The readings of the clocks in one pass: the engine's clock, `Manager.Now`, and the `time.Now()`
-- of the journal. Each is one value for the pass.
pub record Times : Type 0 where
  pub now : Time
  pub read : Time
  pub wall : Time

-- The maps that the engine records, by what they are recorded for.
pub data Payload : Type 0 where
  market : Entry → Payload
  detected : Venue → Venue → Money → ℤ → Payload
  reasons : List Reason → Payload
  missing_inventory : String → Payload
  side_of : Side → Payload
  filled : Price → Quantity → Money → Payload
  halted : String → Payload
  residual : Quantity → Payload
  no_payload : Payload

pub record Supervisor : Type 0 where
  pub cfg : Config
  pub pipe : Pipeline  -- with `Books`, its manager
  pub opp : Engine
  pub opp_ctr : ℕ  -- the counter of `Opp`
  pub limits : Limits
  pub risk : State
  pub exec : Simulator
  pub fee_bps : Venue → ℤ
  pub ledger : Ledger
  pub journal : Journal Payload
  pub opps : List Opportunity
  pub opp_index : Dict ℕ Opportunity
  pub rejections : List Reason
  pub executed_count : ℕ
  pub max_recent : ℕ
  pub venues : List Venue
  pub adapters : List Venue
  pub resyncs : List (Venue × String)  -- the calls of `RequestResync`
  pub deterministic : Bool

-- `s.Journal.RecordFull`
unfoldable pub note :
    Times → String → Venue → String → Aggregate → Payload → Supervisor → Supervisor
unfolding record_full
note t type v symbol aggregate payload s = record s {
  journal =
      record_full
        (record {
          type = type;
          venue = v;
          symbol = symbol;
          aggregate_id = aggregate;
          payload = payload;
          now = t.wall;
        })
        s.journal;
}

-- `baseQuote`: the parts around the first dash, or the symbol and USDT.
unfoldable pub has_dash : String → Bool
has_dash no_text = false
has_dash (in_front c s) = if eqb (code c) b'-' then true else has_dash s

cut_dash : String → String × String
cut_dash no_text = ("", "")
cut_dash (in_front c s) =
    let rest = cut_dash s in if eqb (code c) b'-' then ("", s) else (in_front c rest.0, rest.1)

unfoldable pub base_quote : String → String × String
unfolding has_dash cut_dash
base_quote symbol = if has_dash symbol then cut_dash symbol else (symbol, "USDT")

-- `baseAsset`
unfoldable pub base_asset : String → String
unfolding has_dash cut_dash
base_asset symbol = if has_dash symbol then (cut_dash symbol).0 else symbol

-- `%d` of a number, on fuel: a number has no more digits than it counts, and one where it is zero.
abbrev digit_text : ℕ → String
digit_text n =
    if eqb n 0
    then "0"
    else if eqb n 1
    then "1"
    else if eqb n 2
    then "2"
    else if eqb n 3
    then "3"
    else if eqb n 4
    then "4"
    else if eqb n 5
    then "5"
    else if eqb n 6
    then "6"
    else if eqb n 7
    then "7"
    else if eqb n 8
    then "8"
    else "9"

unfoldable pub number_text : ℕ → ℕ → String → String
number_text zero n behind = digit_text (n % 10) ++ behind
number_text (suc fuel) n behind =
    let rest = number_text fuel (n / 10) (digit_text (n % 10) ++ behind) in
    if ltb n 10 then digit_text n ++ behind else rest

-- `fmt.Sprintf("opp-%d", n)`
unfoldable pub opportunity_text : ℕ → String
unfolding number_text
opportunity_text n = "opp-" ++ number_text n n ""

-- The client order identifier of a leg.
unfoldable pub leg_text : ℕ → String → String
unfolding opportunity_text
leg_text n suffix = opportunity_text n ++ suffix
