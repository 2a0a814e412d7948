-- ===== src/Venue/Bybit.antt =====
-- internal/venue/bybit/bybit.go: the messages of the orderbook topics.
use Prim.Native.String.{◌++◌}
use crossvenue.Base.{
  not, ◌||◌, Option, none, some, List, [], ◌∷◌, String, if◌then◌else◌, ◌==◌, string_eq,
}
use crossvenue.Base.Int.{ℤ, pos, ◌-ℤ◌}
use crossvenue.Base.Try.{Try, ok, fails, ◌>>=◌}
use crossvenue.Decimal.{wrap64}
use crossvenue.Domain.{Time, Level, MarketEvent, snapshot, delta, venue_bybit}
use crossvenue.Venue.{
  WireError, RawLevel, bad_json, parse_levels, unix_milli, to_upper, trim_suffix, has_prefix,
}

pub record Msg : Type 0 where
  pub topic : String
  pub type : String
  pub ts : ℤ
  pub symbol : String
  pub bids : List RawLevel
  pub asks : List RawLevel
  pub u : ℤ

-- The loop of `normalizeSymbol`.
split_quote : List String → String → String
unfolding trim_suffix
split_quote [] s = s
split_quote (quote ∷ quotes) s = elim (trim_suffix quote s) [
  | none ↦ split_quote quotes s
  | some base ↦ base ++ ("-" ++ quote)
]

unfoldable pub normalize_symbol : String → String
unfolding split_quote to_upper
normalize_symbol s = split_quote ("USDT" ∷ "USDC" ∷ []) (to_upper s)

-- The switch on the type.
event_for : Time → Msg → List Level → List Level → List MarketEvent
unfolding normalize_symbol
event_for recv m bids asks =
    if m.type == "snapshot"
    then snapshot (record {
      venue = venue_bybit;
      symbol = normalize_symbol m.symbol;
      bids = bids;
      asks = asks;
      sequence = m.u;
      exchange_time = unix_milli m.ts;
      receive_time = recv;
    })
      ∷ []
    else if m.type == "delta"
    then delta (record {
      venue = venue_bybit;
      symbol = normalize_symbol m.symbol;
      bids = bids;
      asks = asks;
      sequence = m.u;
      prev_sequence = wrap64 (m.u -ℤ pos 1);
      exchange_time = unix_milli m.ts;
      receive_time = recv;
    })
      ∷ []
    else []

handle_msg : Time → Option Msg → Try WireError (List MarketEvent)
unfolding has_prefix parse_levels event_for
handle_msg recv none = fails bad_json
handle_msg recv (some m) =
    if m.topic == "" || not (has_prefix "orderbook." m.topic)
    then ok []
    else do bids ← parse_levels m.bids; asks ← parse_levels m.asks; ok (event_for recv m bids asks)

-- `handle`, on the bytes of a message and the time it is received.
unfoldable pub handle : (String → Option Msg) → Time → String → Try WireError (List MarketEvent)
unfolding handle_msg
handle unmarshal recv raw = handle_msg recv (unmarshal raw)
