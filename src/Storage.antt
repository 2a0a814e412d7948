-- ===== src/Storage.antt =====
-- internal/storage/storage.go, over the tables of migrations/001_init.sql. PostgreSQL and its driver
-- are parameters: what a NUMERIC(38, 8) column makes of a text, and how each call is answered.
pub mod Portfolio
pub mod Recovery
use crossvenue.Base.{
  ℕ, ◌+◌, Bool, true, false, not, ◌&&◌, Option, none, some, List, [], ◌∷◌, ◌++◌, String,
  if◌then◌else◌, ◌==◌, string_eq, nat_eq, pair_eq, ◌≡◌, ◌≢◌,
}
use crossvenue.Base.Int.{ℤ, pos}
use crossvenue.Base.Dict.{Dict, insert, lookup}
use crossvenue.Base.Try.{Try, ok, fails, ◌>>=◌}
use crossvenue.Decimal.{Fixed}
use crossvenue.Decimal.Text.{Bytes, ParseError, parse, string}
use crossvenue.Domain.{Venue, Time, Side}
use crossvenue.Execution.{Order, OrderType, OrderState}
use crossvenue.Execution.Filling.{FillEvent}
use crossvenue.Journal.{Event, Aggregate}
use crossvenue.Portfolio.{Balance, Position}

-- A NUMERIC(38, 8) column: the value of a text, or the server's error, and the text of a value.
-- PostgreSQL stores decimals with at most eight places, and far more digits before them than an
-- int64 has, without loss.
pub record Numeric : Type 1 where
  pub Value : Type 0
  pub stored : Bytes → Option Value
  pub text : Value → Bytes
  pub stored_if_parsed : (t : Bytes) (f : Fixed) → parse t ≡ ok f → stored t ≢ none
  pub kept :
      (t : Bytes) (f : Fixed) (v : Value)
      → parse t ≡ ok f
      → stored t ≡ some v
      → parse (text v) ≡ ok f

-- How a call ends: it takes effect, it does not, or it does and its answer is lost.
pub data Answer : Type 0 where
  done refused lost : Answer

abbrev pub is_done : Answer → Bool
is_done done = true
is_done _ = false

-- What a call leaves and whether it returned without an error.
abbrev pub ended {ℓ} : {A : Type ℓ} → Answer → A → A → A × Bool
ended done before after = (after, true)
ended refused before after = (before, false)
ended lost before after = (after, false)

module _ (n : Numeric) where
  open n use {Value, stored, text}

  pub record OrderRow : Type 0 where
    pub client_order_id : String
    pub venue : Venue
    pub symbol : String
    pub side : Side
    pub type : OrderType
    pub price : Value
    pub quantity : Value
    pub filled_quantity : Value
    pub avg_fill_price : Value
    pub state : OrderState
    pub created_at : Time
    pub updated_at : Time

  pub record FillRow : Type 0 where
    pub order_id : ℕ
    pub venue : Venue
    pub symbol : String
    pub side : Side
    pub price : Value
    pub qty : Value
    pub fee : Value
    pub filled_at : Time

  pub record BalanceRow : Type 0 where
    pub available : Value
    pub reserved : Value

  pub record PositionRow : Type 0 where
    pub qty : Value
    pub avg_cost : Value

  pub record EventRow : Type 0 where
    pub sequence : ℕ
    pub type : String
    pub venue : Venue
    pub symbol : String
    pub aggregate_id : Aggregate
    pub payload : Bytes
    pub occurred_at : Time

  -- The tables, by their primary keys; an order's identifier is its number.
  pub record Tables : Type 0 where
    pub orders : Dict ℕ OrderRow
    pub fills : List FillRow
    pub balances : Dict (String × String) BalanceRow
    pub positions : Dict (String × String) PositionRow
    pub engine_events : List EventRow
    pub system_state : Dict String Bytes

  infixl 5 ◌>>?◌
  abbrev pub ◌>>?◌ {ℓ κ} : {A : Type ℓ} {B : Type κ} → Option A → (A → Option B) → Option B
  none >>? f = none
  some a >>? f = f a

  -- A statement of its own: the server's error, or the answer to it.
  abbrev pub answered : Answer → Tables → Option Tables → Tables × Bool
  answered a t none = (t, false)
  answered a t (some t') = ended a t t'

  -- `UpsertOrder`: the four columns of an order that is there, or a new row, whose venue and client
  -- order identifier no other row may have.
  unfoldable pub is_taken : Venue → String → Dict ℕ OrderRow → Bool
  is_taken v client [] = false
  is_taken v client ((_, o) ∷ os) =
      if o.venue == v && o.client_order_id == client then true else is_taken v client os

  unfoldable pub order_written : Order → Tables → Option OrderRow → OrderRow → Option Tables
  unfolding is_taken
  order_written o t (some old) new = some (record t {
    orders =
        insert o.id
          (record old {
            filled_quantity = new.filled_quantity;
            avg_fill_price = new.avg_fill_price;
            state = new.state;
            updated_at = new.updated_at;
          })
          t.orders;
  })
  order_written o t none new =
      if is_taken o.venue o.client_order_id t.orders
      then none
      else some (record t { orders = insert o.id new t.orders })

  unfoldable pub upsert_order : Answer → Order → Tables → Tables × Bool
  unfolding order_written
  upsert_order a o t = answered a t (
      stored (string o.price) >>? λ price. stored (string o.quantity) >>? λ quantity.
      stored (string o.filled_quantity) >>? λ filled.
      stored (string o.avg_fill_price) >>? λ average.
      order_written o t (lookup o.id t.orders) (record {
        client_order_id = o.client_order_id;
        venue = o.venue;
        symbol = o.symbol;
        side = o.side;
        type = o.type;
        price = price;
        quantity = quantity;
        filled_quantity = filled;
        avg_fill_price = average;
        state = o.state;
        created_at = o.created_at;
        updated_at = o.updated_at;
      }))

  -- `InsertFill`: the order of a fill has to be there.
  unfoldable pub fill_written : FillEvent → Tables → Option OrderRow → FillRow → Option Tables
  fill_written f t none row = none
  fill_written f t (some _) row = some (record t { fills = t.fills ++ (row ∷ []) })

  unfoldable pub insert_fill : Answer → FillEvent → Tables → Tables × Bool
  unfolding fill_written
  insert_fill a f t = answered a t (
      stored (string f.price) >>? λ price. stored (string f.qty) >>? λ qty.
      stored (string f.fee) >>? λ fee. fill_written f t (lookup f.order_id t.orders) (record {
        order_id = f.order_id;
        venue = f.venue;
        symbol = f.symbol;
        side = f.side;
        price = price;
        qty = qty;
        fee = fee;
        filled_at = f.at;
      }))

  -- `eventSink.Append`: a payload that cannot be encoded is stored as an empty object.
  abbrev pub payload_or_empty : Option Bytes → Bytes
  payload_or_empty (some json) = json
  payload_or_empty none = b'{' ∷ b'}' ∷ []

  unfoldable pub append_event :
      {P : Type 0} → (P → Option Bytes) → Answer → Event P → Tables → Tables × Bool
  append_event marshal a ev t = ended a t (record t {
    engine_events =
        t.engine_events
        ++ (record {
          sequence = ev.id;
          type = ev.type;
          venue = ev.venue;
          symbol = ev.symbol;
          aggregate_id = ev.aggregate_id;
          payload = payload_or_empty (marshal ev.payload);
          occurred_at = ev.occurred_at;
        }
            ∷ []);
  })

  -- The two statements of `SavePortfolio`.
  unfoldable pub put_balance : Balance → Tables → Option Tables
  put_balance b t = stored (string b.available) >>? λ available.
      stored (string b.reserved) >>? λ reserved. some (record t {
        balances =
            insert (b.venue, b.asset) (record { available = available; reserved = reserved })
              t.balances;
      })

  unfoldable pub put_position : Position → Tables → Option Tables
  put_position p t = stored (string p.qty) >>? λ qty. stored (string p.avg_cost) >>? λ avg_cost.
      some (record t {
        positions =
            insert (p.venue, p.symbol) (record { qty = qty; avg_cost = avg_cost }) t.positions;
      })

  -- Its loops, on the tables as the transaction sees them; each statement has its answer, by its
  -- number, and any error ends the loop.
  unfoldable pub put_each {ℓ} :
      {A : Type ℓ}
      → (A → Tables → Option Tables)
      → (ℕ → Answer)
      → List A
      → ℕ
      → Tables
      → Option (ℕ × Tables)
  put_each put answers [] i t = some (i, t)
  put_each put answers (x ∷ xs) i t =
      if is_done (answers i) then put x t >>? put_each put answers xs (i + 1) else none

  -- The commit; the deferred rollback undoes all where it is not reached.
  unfoldable pub commit : (ℕ → Answer) → Tables → Option (ℕ × Tables) → Tables × Bool
  commit answers t none = (t, false)
  commit answers t (some (i, t')) = ended (answers i) t t'

  -- `SavePortfolio`; the first answer is to `Begin`.
  unfoldable pub save_portfolio :
      (ℕ → Answer) → List Balance → List Position → Tables → Tables × Bool
  unfolding put_each put_balance put_position commit
  save_portfolio answers bals poss t =
      if not (is_done (answers 0))
      then (t, false)
      else commit answers t (
          put_each put_balance answers bals 1 t >>? λ r. put_each put_position answers poss r.0 r.1)

  -- `LoadBalances`: a row's text of the reserved amount that does not parse counts as zero.
  abbrev pub or_zero : Try ParseError Fixed → Fixed
  or_zero (ok f) = f
  or_zero (fails _) = pos 0

  -- The loop over the rows, in the order in which the query lists them.
  unfoldable pub load_rows : List ((String × String) × BalanceRow) → Try ParseError (List Balance)
  load_rows [] = ok []
  load_rows ((k, row) ∷ rows) = do
    available ← parse (text row.available)
    rest ← load_rows rows
    ok (
        record {
          venue = k.0;
          asset = k.1;
          available = available;
          reserved = or_zero (parse (text row.reserved));
        }
        ∷ rest)

  -- `LoadBalances`, whose query names no order: PostgreSQL lists the rows of the table in one of its
  -- own. `none` is an error of the driver.
  unfoldable pub load_balances :
      Answer
      → (Dict (String × String) BalanceRow → List ((String × String) × BalanceRow))
      → Tables
      → Option (Try ParseError (List Balance))
  unfolding load_rows
  load_balances a listed t = if is_done a then some (load_rows (listed t.balances)) else none

  -- `SaveSystemState` and `LoadSystemState`, on what encoding/json makes of the value; a row that
  -- is not found and an error of the driver are one.
  unfoldable pub save_system_state : Answer → String → Option Bytes → Tables → Tables × Bool
  save_system_state a key none t = (t, false)
  save_system_state a key (some json) t =
      ended a t (record t { system_state = insert key json t.system_state })

  unfoldable pub load_system_state : Answer → String → Tables → Option Bytes
  load_system_state a key t = if is_done a then lookup key t.system_state else none
