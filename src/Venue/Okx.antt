-- ===== src/Venue/Okx.antt =====
-- internal/venue/okx/okx.go: the messages of the books channel.
use crossvenue.Base.{
  not, ◌||◌, Option, none, some, List, [], ◌∷◌, String, if◌then◌else◌, ◌==◌, string_eq,
}
use crossvenue.Base.Int.{ℤ}
use crossvenue.Base.Try.{Try, ok, fails, ◌>>=◌}
use crossvenue.Domain.{Time, Level, MarketEvent, snapshot, delta, venue_okx}
use crossvenue.Venue.{WireError, RawLevel, bad_json, parse_levels, unix_milli, to_upper}

-- An element of `data`; `ts` is the number that fmt.Sscanf reads from its text, or zero.
pub record Data : Type 0 where
  pub bids : List RawLevel
  pub asks : List RawLevel
  pub ts : ℤ
  pub seq_id : ℤ
  pub prev_seq_id : ℤ

pub record Msg : Type 0 where
  pub event : String
  pub channel : String
  pub inst_id : String
  pub action : String
  pub data_list : List Data

-- The switch on the action.
event_for : Time → String → Data → List Level → List Level → String → List MarketEvent
event_for recv symbol d bids asks action =
    if action == "snapshot"
    then snapshot (record {
      venue = venue_okx;
      symbol = symbol;
      bids = bids;
      asks = asks;
      sequence = d.seq_id;
      exchange_time = unix_milli d.ts;
      receive_time = recv;
    })
      ∷ []
    else if action == "update"
    then delta (record {
      venue = venue_okx;
      symbol = symbol;
      bids = bids;
      asks = asks;
      sequence = d.seq_id;
      prev_sequence = d.prev_seq_id;
      exchange_time = unix_milli d.ts;
      receive_time = recv;
    })
      ∷ []
    else []

handle_data : Time → Msg → List Data → Try WireError (List MarketEvent)
unfolding parse_levels event_for to_upper
handle_data recv m [] = ok []
handle_data recv m (d ∷ _) = do
  bids ← parse_levels d.bids
  asks ← parse_levels d.asks
  ok (event_for recv (to_upper m.inst_id) d bids asks m.action)

handle_msg : Time → Option Msg → Try WireError (List MarketEvent)
unfolding handle_data
handle_msg recv none = fails bad_json
handle_msg recv (some m) =
    if not (m.event == "") || not (m.channel == "books")
    then ok []
    else handle_data recv m m.data_list

-- `handle`, on the bytes of a message and the time it is received.
unfoldable pub handle : (String → Option Msg) → Time → String → Try WireError (List MarketEvent)
unfolding handle_msg
handle unmarshal recv raw = if raw == "pong" then ok [] else handle_msg recv (unmarshal raw)
