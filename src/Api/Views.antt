-- ===== src/Api/Views.antt =====
-- The views of internal/api/api.go: what its handlers encode as JSON. A decimal is its text's bytes.
-- The identifier of an opportunity or an order is its number.
use crossvenue.Base.{ℕ, ◌^◌, Bool, true, List, [], ◌∷◌, map, String, if◌then◌else◌, ◌==◌, string_eq}
use crossvenue.Base.Int.{ℤ}
use crossvenue.Base.Texts.{is_before}
use crossvenue.Decimal.Text.{Bytes, string}
use crossvenue.Domain.{Venue, Time, Side, buy, sell, Level}
use crossvenue.Book.{SnapshotView}
use crossvenue.Manager.{Duration, since}
use crossvenue.Opportunity.{Opportunity, quot}
use crossvenue.Execution.{
  Order, OrderType, OrderState, market, ioc_limit, pending, accepted, partially_filled, filled,
  cancel_pending, cancelled, rejected, expired,
}
use crossvenue.Portfolio.{Balance, Position}
use crossvenue.Venue.Connection.{Health}

-- `Duration.Milliseconds`
abbrev pub milliseconds : Duration → ℤ
milliseconds d = quot d (10 ^ 6)

pub record VenueView : Type 0 where
  pub venue : Venue
  pub enabled : Bool
  pub connected : Bool
  pub stale : Bool
  pub reconnects : ℕ
  pub sequence_gaps : ℕ
  pub last_message_at : Time

-- An adapter is its venue and what its `Health` returns.
abbrev pub venue_view : Venue × Health → VenueView
venue_view (v, h) = record {
  venue = v;
  enabled = true;
  connected = h.connected;
  stale = h.stale;
  reconnects = h.reconnects;
  sequence_gaps = h.sequence_gaps;
  last_message_at = h.last_message_at;
}

pub record LevelText : Type 0 where
  pub price : Bytes
  pub qty : Bytes

abbrev pub level_text : Level → LevelText
level_text l = record { price = string l.price; qty = string l.qty }

pub record BookView : Type 0 where
  pub venue : Venue
  pub symbol : String
  pub ready : Bool
  pub stale : Bool
  pub seq : ℤ
  pub age_ms : ℤ
  pub bids : List LevelText
  pub asks : List LevelText

-- `toBookView`, with the reading of the clock by `time.Since`.
unfoldable pub to_book_view : Time → SnapshotView → BookView
unfolding since
to_book_view now b = record {
  venue = b.venue;
  symbol = b.symbol;
  ready = b.state.ready;
  stale = b.state.stale;
  seq = b.state.sequence;
  age_ms = milliseconds (since now b.state.last_updated_at);
  bids = map level_text b.bids;
  asks = map level_text b.asks;
}

unfoldable pub before : BookView → BookView → Bool
unfolding is_before
before a b = if a.symbol == b.symbol then is_before a.venue b.venue else is_before a.symbol b.symbol

-- `sort.Slice` leaves the views in the order of `before`; no two books share symbol and venue, so
-- that order is unique.
unfoldable pub insert_view : BookView → List BookView → List BookView
unfolding before
insert_view v [] = v ∷ []
insert_view v (w ∷ ws) = if before v w then v ∷ w ∷ ws else w ∷ insert_view v ws

unfoldable pub sort_views : List BookView → List BookView
unfolding insert_view
sort_views [] = []
sort_views (v ∷ vs) = insert_view v (sort_views vs)

pub record OpportunityView : Type 0 where
  pub id : ℕ
  pub symbol : String
  pub buy_venue : Venue
  pub sell_venue : Venue
  pub quantity : Bytes
  pub buy_vwap : Bytes
  pub sell_vwap : Bytes
  pub gross_pnl : Bytes
  pub fees : Bytes
  pub slippage : Bytes
  pub latency : Bytes
  pub net_pnl : Bytes
  pub edge_bps : ℤ
  pub buy_age_ms : ℤ
  pub sell_age_ms : ℤ
  pub detected_at : Time

-- `toOppView`
unfoldable pub to_opportunity_view : Opportunity → OpportunityView
to_opportunity_view o = record {
  id = o.id;
  symbol = o.symbol;
  buy_venue = o.buy_venue;
  sell_venue = o.sell_venue;
  quantity = string o.quantity;
  buy_vwap = string o.buy_vwap;
  sell_vwap = string o.sell_vwap;
  gross_pnl = string o.gross_pnl;
  fees = string o.fees;
  slippage = string o.slippage_penalty;
  latency = string o.latency_penalty;
  net_pnl = string o.expected_net_pnl;
  edge_bps = o.edge_bps;
  buy_age_ms = milliseconds o.buy_quote_age;
  sell_age_ms = milliseconds o.sell_quote_age;
  detected_at = o.detected_at;
}

-- The `String` methods of sides, order types and order states.
abbrev pub side_text : Side → String
side_text buy = "buy"
side_text sell = "sell"

abbrev pub type_text : OrderType → String
type_text market = "market"
type_text ioc_limit = "ioc_limit"

abbrev pub state_text : OrderState → String
state_text pending = "pending"
state_text accepted = "accepted"
state_text partially_filled = "partially_filled"
state_text filled = "filled"
state_text cancel_pending = "cancel_pending"
state_text cancelled = "cancelled"
state_text rejected = "rejected"
state_text expired = "expired"

pub record OrderView : Type 0 where
  pub id : ℕ
  pub client_id : String
  pub venue : Venue
  pub symbol : String
  pub side : String
  pub type : String
  pub qty : Bytes
  pub filled : Bytes
  pub avg_price : Bytes
  pub state : String
  pub created_at : Time

unfoldable pub order_view : Order → OrderView
order_view o = record {
  id = o.id;
  client_id = o.client_order_id;
  venue = o.venue;
  symbol = o.symbol;
  side = side_text o.side;
  type = type_text o.type;
  qty = string o.quantity;
  filled = string o.filled_quantity;
  avg_price = string o.avg_fill_price;
  state = state_text o.state;
  created_at = o.created_at;
}

pub record PositionView : Type 0 where
  pub venue : Venue
  pub symbol : String
  pub qty : Bytes
  pub avg_cost : Bytes

abbrev pub position_view : Position → PositionView
position_view p = record {
  venue = p.venue;
  symbol = p.symbol;
  qty = string p.qty;
  avg_cost = string p.avg_cost;
}

pub record BalanceView : Type 0 where
  pub venue : Venue
  pub asset : String
  pub available : Bytes
  pub reserved : Bytes

abbrev pub balance_view : Balance → BalanceView
balance_view b = record {
  venue = b.venue;
  asset = b.asset;
  available = string b.available;
  reserved = string b.reserved;
}
