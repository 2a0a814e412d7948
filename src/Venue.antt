-- ===== src/Venue.antt =====
-- What the adapters of internal/venue share: the levels of a message, symbols, and the results of
-- a handler. A message is what encoding/json reads from the bytes of the wire, which is a parameter
-- of each handler. Letters outside ASCII, which no symbol has, keep their case here.
pub mod Okx
pub mod Bybit
pub mod Binance
pub mod Synthetic
pub mod Connection
pub mod Session
pub mod Reconnecting
use Prim.Native.Char.{Char, code}
use Prim.Native.String.{char_at, [] as no_text, ◌∷◌ as in_front}
use crossvenue.Base.{
  ℕ, ◌-◌, Bool, true, false, ◌&&◌, Option, none, some, List, [], ◌∷◌, String, if◌then◌else◌, leb,
  eqb, ◌==◌, string_eq,
}
use crossvenue.Base.Int.{ℤ, pos, ◌*ℤ◌}
use crossvenue.Base.Try.{Try, ok, fails, ◌>>=◌}
use crossvenue.Decimal.{Fixed}
use crossvenue.Decimal.Text.{ParseError, parse}
use crossvenue.Domain.{Level, Time}
use crossvenue.Fnv.{Bytes}

pub data WireError : Type 0 where
  bad_json not_combined : WireError
  unexpected_stream : String → WireError
  bad_price bad_quantity : ParseError → WireError

-- A level's price and quantity; further texts of a level are not read.
pub record RawLevel : Type 0 where
  pub price : Bytes
  pub qty : Bytes

abbrev pub tagged : (ParseError → WireError) → Try ParseError Fixed → Try WireError Fixed
tagged f (ok v) = ok v
tagged f (fails e) = fails (f e)

-- `parseLevels`, which the three adapters write alike.
unfoldable pub parse_levels : List RawLevel → Try WireError (List Level)
unfolding parse
parse_levels [] = ok []
parse_levels (l ∷ ls) = do
  px ← tagged bad_price (parse l.price)
  qty ← tagged bad_quantity (parse l.qty)
  rest ← parse_levels ls
  ok (record { price = px; qty = qty } ∷ rest)

-- `time.UnixMilli`
abbrev pub unix_milli : ℤ → Time
unix_milli ms = ms *ℤ pos 1000000

-- `strings.ToUpper` and `strings.ToLower`
abbrev upper_char : Char → Char
upper_char c =
    if leb b'a' (code c) && leb (code c) b'z'
    then char_at "ABCDEFGHIJKLMNOPQRSTUVWXYZ" (code c - b'a')
    else c

unfoldable pub to_upper : String → String
to_upper no_text = no_text
to_upper (in_front c s) = in_front (upper_char c) (to_upper s)

-- `strings.HasSuffix` with `strings.TrimSuffix`: what stands before the suffix, if it is there.
before_char : Char → Option String → Option String
before_char c none = none
before_char c (some s) = some (in_front c s)

unfoldable pub trim_suffix : String → String → Option String
unfolding before_char
trim_suffix suffix no_text = if suffix == "" then some "" else none
trim_suffix suffix (in_front c s) =
    let rest = before_char c (trim_suffix suffix s) in
    if suffix == in_front c s then some "" else rest

-- `strings.HasPrefix`
unfoldable pub has_prefix : String → String → Bool
has_prefix no_text _ = true
has_prefix (in_front c p) no_text = false
has_prefix (in_front c p) (in_front d s) =
    let rest = has_prefix p s in
    if leb (code c) (code d) && leb (code d) (code c) then rest else false

-- `strings.TrimPrefix`: what stands behind the prefix, if it is there.
unfoldable pub after_prefix : String → String → Option String
after_prefix no_text s = some s
after_prefix (in_front c p) no_text = none
after_prefix (in_front c p) (in_front d s) =
    let rest = after_prefix p s in if eqb (code c) (code d) then rest else none
