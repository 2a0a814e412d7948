-- ===== src/Replay.antt =====
-- internal/replay/replay.go: the recording envelope, the recorder and the reader. The encoding of
-- an envelope (encoding/json) and the checksum (hash/fnv) are parameters; a file is the list of
-- its lines. The type of an envelope comes with the payload that goes with it, and `unknown` is a
-- type outside the three with no payload.
pub mod RoundTrip
use crossvenue.Base.{
  ℕ, ◌+◌, ◌%◌, ◌^◌, Bool, true, false, not, List, [], ◌∷◌, ◌++◌, Option, none, some, if◌then◌else◌,
  eqb, ltb, String, ◌≡◌, ◌<◌,
}
use crossvenue.Base.Int.{ℤ, pos}
use crossvenue.Base.Try.{Try, ok, fails, ◌>>=◌}
use crossvenue.Base.Lists.{All}
use crossvenue.Decimal.{Fixed, IsInt64, wrap64}
use crossvenue.Domain.{
  Venue, Time, Side, buy, sell, Level, BookSnapshot, BookDelta, Trade, MarketEvent, snapshot, delta,
  trade, other,
}

-- `Version`
abbrev pub version : ℕ
version = 1

pub record LevelJson : Type 0 where
  pub price : ℤ
  pub qty : ℤ

pub record SnapshotJson : Type 0 where
  pub bids : List LevelJson
  pub asks : List LevelJson
  pub sequence : ℤ

pub record DeltaJson : Type 0 where
  pub bids : List LevelJson
  pub asks : List LevelJson
  pub sequence : ℤ
  pub prev_sequence : ℤ

pub record TradeJson : Type 0 where
  pub price : ℤ
  pub qty : ℤ
  pub aggressor : ℕ

pub data Payload : Type 0 where
  snapshot_payload : SnapshotJson → Payload
  delta_payload : DeltaJson → Payload
  trade_payload : TradeJson → Payload
  unknown : Payload

pub record RecordedEvent : Type 0 where
  pub version : ℕ
  pub sequence : ℕ
  pub venue : Venue
  pub symbol : String
  pub exchange_time : ℤ
  pub receive_time : ℤ
  pub payload : Payload

pub data ReplayError : Type 0 where
  unknown_event_type unsupported_version malformed end_of_file line_too_long read_failed :
      ReplayError

-- `UnixNano`, an int64, and `unixNano`.
abbrev pub unix_nano : Time → ℤ
unix_nano t = wrap64 t

abbrev pub from_unix_nano : ℤ → Time
from_unix_nano ns = ns

unfoldable pub levels_to_json : List Level → List LevelJson
levels_to_json [] = []
levels_to_json (l ∷ ls) = record { price = l.price; qty = l.qty } ∷ levels_to_json ls

unfoldable pub levels_from_json : List LevelJson → List Level
levels_from_json [] = []
levels_from_json (l ∷ ls) = record { price = l.price; qty = l.qty } ∷ levels_from_json ls

-- `uint8(t.Aggressor)` and `domain.Side(…)`: `Buy` is 1 and `Sell` is 2. A number outside the two
-- is no side of the model, and `Side.String` prints it as a sell.
abbrev pub side_code : Side → ℕ
side_code buy = 1
side_code sell = 2

abbrev pub side_of : ℕ → Side
side_of n = if eqb n 1 then buy else sell

unfoldable pub from_event : ℕ → MarketEvent → Try ReplayError RecordedEvent
unfolding levels_to_json
from_event seq (snapshot s) = ok (record {
  version = version;
  sequence = seq;
  venue = s.venue;
  symbol = s.symbol;
  exchange_time = unix_nano s.exchange_time;
  receive_time = unix_nano s.receive_time;
  payload = snapshot_payload (record {
    bids = levels_to_json s.bids;
    asks = levels_to_json s.asks;
    sequence = s.sequence;
  });
})
from_event seq (delta d) = ok (record {
  version = version;
  sequence = seq;
  venue = d.venue;
  symbol = d.symbol;
  exchange_time = unix_nano d.exchange_time;
  receive_time = unix_nano d.receive_time;
  payload = delta_payload (record {
    bids = levels_to_json d.bids;
    asks = levels_to_json d.asks;
    sequence = d.sequence;
    prev_sequence = d.prev_sequence;
  });
})
from_event seq (trade t) = ok (record {
  version = version;
  sequence = seq;
  venue = t.venue;
  symbol = t.symbol;
  exchange_time = unix_nano t.exchange_time;
  receive_time = unix_nano t.receive_time;
  payload =
      trade_payload (record { price = t.price; qty = t.qty; aggressor = side_code t.aggressor });
})
from_event seq other = fails unknown_event_type

-- The switch of `ToEvent`.
event_of : RecordedEvent → Payload → Try ReplayError MarketEvent
unfolding levels_from_json
event_of re (snapshot_payload s) = ok (
    snapshot (record {
      venue = re.venue;
      symbol = re.symbol;
      bids = levels_from_json s.bids;
      asks = levels_from_json s.asks;
      sequence = s.sequence;
      exchange_time = from_unix_nano re.exchange_time;
      receive_time = from_unix_nano re.receive_time;
    }))
event_of re (delta_payload d) = ok (
    delta (record {
      venue = re.venue;
      symbol = re.symbol;
      bids = levels_from_json d.bids;
      asks = levels_from_json d.asks;
      sequence = d.sequence;
      prev_sequence = d.prev_sequence;
      exchange_time = from_unix_nano re.exchange_time;
      receive_time = from_unix_nano re.receive_time;
    }))
event_of re (trade_payload t) = ok (
    trade (record {
      venue = re.venue;
      symbol = re.symbol;
      price = t.price;
      qty = t.qty;
      aggressor = side_of t.aggressor;
      exchange_time = from_unix_nano re.exchange_time;
      receive_time = from_unix_nano re.receive_time;
    }))
event_of re unknown = fails unknown_event_type

unfoldable pub to_event : RecordedEvent → Try ReplayError MarketEvent
unfolding event_of
to_event re =
    if not (eqb re.version version) then fails unsupported_version else event_of re re.payload

-- The numbers of an envelope fit the types of its fields.
abbrev pub LevelFits : LevelJson → Type 0
LevelFits l = IsInt64 l.price × IsInt64 l.qty

abbrev pub PayloadFits : Payload → Type 0
PayloadFits (snapshot_payload s) = All LevelFits s.bids × All LevelFits s.asks × IsInt64 s.sequence
PayloadFits (delta_payload d) =
    All LevelFits d.bids × All LevelFits d.asks × IsInt64 d.sequence × IsInt64 d.prev_sequence
PayloadFits (trade_payload t) = IsInt64 t.price × IsInt64 t.qty × (t.aggressor < 2 ^ 8)
PayloadFits unknown = Unit

pub record EnvelopeFits (re : RecordedEvent) : Type 0 where
  pub version : re.version < 2 ^ 16
  pub sequence : re.sequence < 2 ^ 64
  pub exchange_time : IsInt64 re.exchange_time
  pub receive_time : IsInt64 re.receive_time
  pub payload : PayloadFits re.payload

-- The size of the scanner's buffer.
abbrev pub max_token : ℕ
max_token = 2 ^ 22

-- What the source takes of encoding/json and hash/fnv: a line for an envelope, an envelope or an
-- error for a line, the size of a line, and the running checksum. An envelope that fits its types is read back.
pub record Codec : Type 1 where
  pub Line : Type 0
  pub marshal : RecordedEvent → Line
  pub unmarshal : Line → Option RecordedEvent
  pub size : Line → ℕ  -- in bytes, without the newline
  pub hash_start : ℕ
  pub hash_write : ℕ → Line → ℕ
  pub unmarshal-marshal : (re : RecordedEvent) → EnvelopeFits re → unmarshal (marshal re) ≡ some re

module _ (c : Codec) where
  open c use {Line, marshal, unmarshal, size, hash_start, hash_write}

  -- `Recorder`, with the lines written to its file. Writes to the file succeed.
  pub record Recorder : Type 0 where
    pub seq : ℕ  -- uint64
    pub lines : List Line
    pub hash : ℕ

  -- `NewRecorder`
  abbrev pub new_recorder : Recorder
  new_recorder = record { seq = 0; lines = []; hash = hash_start }

  write_line : Recorder → Try ReplayError RecordedEvent → Recorder × Option ReplayError
  write_line r (fails e) = (r, some e)
  write_line r (ok re) = (
    record r { lines = r.lines ++ (marshal re ∷ []); hash = hash_write r.hash (marshal re) },
    none,
  )

  -- `Record`: the number is taken before the event is looked at.
  unfoldable pub record_event : MarketEvent → Recorder → Recorder × Option ReplayError
  unfolding write_line from_event
  record_event ev r =
      let n = (r.seq + 1) % 2 ^ 64 in write_line (record r { seq = n }) (from_event n ev)

  -- The supervisor's calls of `Record`, whose errors it logs.
  unfoldable pub record_all : List MarketEvent → Recorder → Recorder
  unfolding record_event
  record_all [] r = r
  record_all (ev ∷ evs) r = record_all evs (record_event ev r).0

  decode : Option RecordedEvent → Try ReplayError MarketEvent
  unfolding to_event
  decode none = fails malformed
  decode (some re) = to_event re

  -- `Next`, on the lines that are left of a file, behind which the reading of the file may fail. The
  -- scanner's buffer of 4 MiB takes a line with its newline, or else it stops for good.
  unfoldable pub next : Bool → List Line → List Line × Try ReplayError MarketEvent
  unfolding decode
  next broken [] = ([], fails (if broken then read_failed else end_of_file))
  next broken (l ∷ ls) =
      if ltb (size l) max_token then (ls, decode (unmarshal l)) else ([], fails line_too_long)

  unfoldable pub stream_next :
      (List MarketEvent × Option ReplayError)
      → Try ReplayError MarketEvent
      → List MarketEvent × Option ReplayError
  stream_next rest (fails e) = ([], some e)
  stream_next rest (ok ev) = (ev ∷ rest.0, rest.1)

  -- `Stream` of `ReplaySource` (internal/engine/source.go): the events sent, and the error that
  -- ended it, if it was not the end of the file. The waits between events are in Engine/Source.
  unfoldable pub stream : Bool → List Line → List MarketEvent × Option ReplayError
  unfolding stream_next next
  stream broken [] = ([], if broken then some read_failed else none)
  stream broken (l ∷ ls) = stream_next (stream broken ls) (next broken (l ∷ ls)).1
