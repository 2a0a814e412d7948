-- ===== src/Venue/Binance.antt =====
-- internal/venue/binance/binance.go: the messages of the combined stream.
use Prim.Native.Char.{code}
use Prim.Native.String.{◌++◌, [] as no_text, ◌∷◌ as in_front}
use crossvenue.Base.{
  ℕ, ◌+◌, ◌*◌, ◌-◌, ◌^◌, Bool, false, not, ◌||◌, ◌&&◌, Option, none, some, List, [], ◌∷◌, String,
  if◌then◌else◌, eqb, leb, ◌==◌, string_eq,
}
use crossvenue.Base.Int.{ℤ}
use crossvenue.Base.Try.{Try, ok, fails, ◌>>=◌}
use crossvenue.Domain.{Time, MarketEvent, snapshot, delta, venue_binance}
use crossvenue.Venue.{
  WireError, RawLevel, bad_json, not_combined, unexpected_stream, parse_levels, unix_milli,
  to_upper, trim_suffix, has_prefix,
}

pub record Depth20 : Type 0 where
  pub last_update_id : ℤ
  pub bids : List RawLevel
  pub asks : List RawLevel

pub record DepthUpdate : Type 0 where
  pub event_time : ℤ
  pub first_id : ℤ
  pub last_id : ℤ
  pub bids : List RawLevel
  pub asks : List RawLevel

-- A combined message: the stream, and its data as either of the two is read from it.
pub record Combined : Type 0 where
  pub stream : String
  pub depth20 : Option Depth20
  pub update : Option DepthUpdate

-- `strings.SplitN(s, "@", 2)`, if it gives two parts.
cut_at : String → Option (String × String)
cut_at no_text = none
cut_at (in_front c s) =
    if eqb (code c) b'@'
    then some ("", s)
    else elim (cut_at s) [ none ↦ none | some (before, after) ↦ some (in_front c before, after) ]

-- What strconv.Atoi reads without an error: a sign or none, and digits of an int64.
read_digits : String → ℕ → Option ℕ
read_digits no_text n = some n
read_digits (in_front c s) n =
    if leb b'0' (code c) && leb (code c) b'9'
    then read_digits s (n * 10 + (code c - b'0'))
    else none

is_within : ℕ → Option ℕ → Bool
is_within most none = false
is_within most (some n) = leb n most

is_number : String → Bool
unfolding read_digits is_within
is_number no_text = false
is_number (in_front c s) =
    if eqb (code c) b'-'
    then not (s == "") && is_within (2 ^ 63) (read_digits s 0)
    else if eqb (code c) b'+'
    then not (s == "") && is_within (2 ^ 63 - 1) (read_digits s 0)
    else is_within (2 ^ 63 - 1) (read_digits (in_front c s) 0)

-- The loop of `normalizeSymbol`.
split_quote : List String → String → String
unfolding trim_suffix is_number
split_quote [] s = s
split_quote (quote ∷ quotes) s =
    let rest = split_quote quotes s in
    elim (trim_suffix quote s) [
      | none ↦ rest
      | some base ↦ if is_number base then rest else base ++ ("-" ++ quote)
    ]

unfoldable pub normalize_symbol : String → String
unfolding split_quote to_upper
normalize_symbol s = split_quote ("USDT" ∷ "USDC" ∷ "FDUSD" ∷ []) (to_upper s)

-- The two cases of the switch.
on_depth20 : Time → String → Option Depth20 → Try WireError (List MarketEvent)
unfolding parse_levels
on_depth20 recv symbol none = fails bad_json
on_depth20 recv symbol (some m) = do
  bids ← parse_levels m.bids
  asks ← parse_levels m.asks
  ok (
      snapshot (record {
        venue = venue_binance;
        symbol = symbol;
        bids = bids;
        asks = asks;
        sequence = m.last_update_id;
        exchange_time = recv;
        receive_time = recv;
      })
      ∷ [])

on_update : Time → String → Option DepthUpdate → Try WireError (List MarketEvent)
unfolding parse_levels
on_update recv symbol none = fails bad_json
on_update recv symbol (some m) = do
  bids ← parse_levels m.bids
  asks ← parse_levels m.asks
  ok (
      delta (record {
        venue = venue_binance;
        symbol = symbol;
        bids = bids;
        asks = asks;
        sequence = m.last_id;
        prev_sequence = m.first_id;
        exchange_time = unix_milli m.event_time;
        receive_time = recv;
      })
      ∷ [])

handle_stream : Time → Combined → Option (String × String) → Try WireError (List MarketEvent)
unfolding normalize_symbol has_prefix on_depth20 on_update
handle_stream recv m none = fails (unexpected_stream m.stream)
handle_stream recv m (some (name, kind)) =
    if has_prefix "depth20" kind
    then on_depth20 recv (normalize_symbol name) m.depth20
    else if kind == "depth@100ms" || kind == "depth"
    then on_update recv (normalize_symbol name) m.update
    else ok []

handle_msg : Time → Option Combined → Try WireError (List MarketEvent)
unfolding cut_at handle_stream
handle_msg recv none = fails not_combined
handle_msg recv (some m) =
    if m.stream == "" then fails not_combined else handle_stream recv m (cut_at m.stream)

-- `handle`, on the bytes of a message and the time it is received. `lastSeq`, which it also
-- stores, is never read.
unfoldable pub handle :
    (String → Option Combined) → Time → String → Try WireError (List MarketEvent)
unfolding handle_msg
handle unmarshal recv raw = handle_msg recv (unmarshal raw)
