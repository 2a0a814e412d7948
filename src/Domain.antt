-- ===== src/Domain.antt =====
-- internal/domain/types.go: the normalized event model of all venues. A time is its count of
-- nanoseconds since the Unix epoch.
use crossvenue.Base.{String, List}
use crossvenue.Base.Int.{ℤ}
use crossvenue.Decimal.{Fixed}

abbrev pub Price : Type 0
Price = Fixed

abbrev pub Quantity : Type 0
Quantity = Fixed

abbrev pub Money : Type 0
Money = Fixed

abbrev pub Time : Type 0
Time = ℤ

abbrev pub Venue : Type 0
Venue = String

abbrev pub venue_binance : Venue
venue_binance = "binance"

abbrev pub venue_okx : Venue
venue_okx = "okx"

abbrev pub venue_bybit : Venue
venue_bybit = "bybit"

abbrev pub venue_synthetic : Venue
venue_synthetic = "synthetic"

pub data Side : Type 0 where
  buy sell : Side

abbrev pub opposite : Side → Side
opposite buy = sell
opposite sell = buy

pub record Level : Type 0 where
  pub price : Price
  pub qty : Quantity

pub record BookSnapshot : Type 0 where
  pub venue : Venue
  pub symbol : String
  pub bids : List Level
  pub asks : List Level
  pub sequence : ℤ
  pub exchange_time : Time
  pub receive_time : Time

pub record BookDelta : Type 0 where
  pub venue : Venue
  pub symbol : String
  pub bids : List Level
  pub asks : List Level
  pub sequence : ℤ
  pub prev_sequence : ℤ
  pub exchange_time : Time
  pub receive_time : Time

pub record Trade : Type 0 where
  pub venue : Venue
  pub symbol : String
  pub price : Price
  pub qty : Quantity
  pub aggressor : Side
  pub exchange_time : Time
  pub receive_time : Time

-- The event's type with the payload that its pointer holds; `other` is a type outside the three.
pub data MarketEvent : Type 0 where
  snapshot : BookSnapshot → MarketEvent
  delta : BookDelta → MarketEvent
  trade : Trade → MarketEvent
  other : MarketEvent

abbrev pub venue_of : MarketEvent → Venue
venue_of (snapshot s) = s.venue
venue_of (delta d) = d.venue
venue_of (trade t) = t.venue
venue_of other = ""

abbrev pub symbol_of : MarketEvent → String
symbol_of (snapshot s) = s.symbol
symbol_of (delta d) = d.symbol
symbol_of (trade t) = t.symbol
symbol_of other = ""
