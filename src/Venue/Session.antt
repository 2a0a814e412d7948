-- ===== src/Venue/Session.antt =====
-- The sessions of the adapters (internal/venue/wsbase/wsbase.go), and what a Bybit session gives the
-- tracker of its lane.
use crossvenue.Base.{
  suc, ◌^◌, ◌<◌, Bool, true, false, List, [], ◌∷◌, ◌++◌, map, Option, some, String, if◌then◌else◌,
  ◌==◌, string_eq, ◌≡◌, refl, ap, ◌∙◌, arith,
}
use crossvenue.Base.Int.{ℤ, pos, neg_part, ◌+ℤ◌, ◌-ℤ◌, +ℤ_parts, int_laws}
use crossvenue.Base.Lists.{All, length}
use crossvenue.Base.Try.{Try, ok, fails}
use crossvenue.Decimal.{Fixed, IsInt64, wrap64}
use crossvenue.Decimal.Exact.{wrap64_id}
use crossvenue.Decimal.Text.{string}
use crossvenue.Decimal.Text.RoundTrip.{parse-string}
use crossvenue.Domain.{Time, Level, MarketEvent, BookDelta, delta, venue_bybit}
use crossvenue.Seq.{Tracker, apply}
use crossvenue.Seq.Gaps.{Contiguous, feed, feed-Contiguous}
use crossvenue.Venue.{WireError, RawLevel, parse_levels, has_prefix, unix_milli}
use crossvenue.Venue.Connection.{Conn, note_message, note_events, take_resync, request_resync}
use crossvenue.Venue.Bybit as bybit
use crossvenue.Venue.Bybit.{Msg, normalize_symbol}

-- What the read loop of a session meets: a message, with whether the channel of events has room, or
-- a resync request that another goroutine makes. One reading of the clock serves each message.
pub data Input : Type 0 where
  message : Time → String → Bool → Input
  resync : Input

-- The loop over a message's events: a full channel drops them, and the handlers give at most one.
unfoldable pub noted :
    Time → Bool → Try WireError (List MarketEvent) → Conn → Conn × List MarketEvent
unfolding note_events
noted recv room (ok evs) c = (note_events recv evs c, if room then evs else [])
noted recv room (fails _) c = (c, [])

-- The read loop of `session`, up to the message at which it ends for a resync or the last one, with
-- the events that it sent.
unfoldable pub session :
    (Time → String → Try WireError (List MarketEvent)) → List Input → Conn → Conn × List MarketEvent
unfolding noted take_resync request_resync
session handle [] c = (c, [])
session handle (resync ∷ ins) c = session handle ins (request_resync c)
session handle (message recv raw room ∷ ins) c =
    let (c1, dropped) = take_resync c in
    let (c2, evs) = noted recv room (handle recv raw) c1 in
    let (c3, later) = session handle ins c2 in if dropped then (c1, []) else (c3, evs ++ later)

-- A level as the wire writes it.
abbrev pub raw_of : Level → RawLevel
raw_of l = record { price = string l.price; qty = string l.qty }

abbrev pub Printable : Fixed → Type 0
Printable f = IsInt64 f × (neg_part f < 2 ^ 63)

abbrev pub LevelIsPrintable : Level → Type 0
LevelIsPrintable l = Printable l.price × Printable l.qty

parse_levels_back :
    (ls : List Level) → All LevelIsPrintable ls → parse_levels (map raw_of ls) ≡ ok ls
unfolding parse_levels
parse_levels_back [] h = refl
parse_levels_back (l ∷ ls) h =
    rw
      (
        parse-string l.price h.0.0.0 h.0.0.1,
        parse-string l.qty h.0.1.0 h.0.1.1,
        parse_levels_back ls h.1,
      )
      refl

-- A delta message of an orderbook topic whose levels are printed numbers.
pub record IsDelta (m : Msg) : Type 0 where
  pub topic : (m.topic == "") ≡ false
  pub orderbook : has_prefix "orderbook." m.topic ≡ true
  pub type : m.type ≡ "delta"
  pub bids : List Level
  pub bids_of : m.bids ≡ map raw_of bids
  pub bids_print : All LevelIsPrintable bids
  pub asks : List Level
  pub asks_of : m.asks ≡ map raw_of asks
  pub asks_print : All LevelIsPrintable asks

-- The delta that a message stands for.
abbrev pub delta_for : Time → (m : Msg) → IsDelta m → BookDelta
delta_for recv m i = record {
  venue = venue_bybit;
  symbol = normalize_symbol m.symbol;
  bids = i.bids;
  asks = i.asks;
  sequence = m.u;
  prev_sequence = wrap64 (m.u -ℤ pos 1);
  exchange_time = unix_milli m.ts;
  receive_time = recv;
}

handle-IsDelta :
    (unmarshal : String → Option Msg) (recv : Time) (raw : String) (m : Msg) (i : IsDelta m)
    → unmarshal raw ≡ some m
    → bybit.handle unmarshal recv raw ≡ ok (delta (delta_for recv m i) ∷ [])
unfolding bybit.handle
handle-IsDelta unmarshal recv raw m i e =
    rw
      (
        e,
        i.topic,
        i.orderbook,
        i.bids_of,
        i.asks_of,
        parse_levels_back i.bids i.bids_print,
        parse_levels_back i.asks i.asks_print,
        i.type,
      )
      refl

-- A message that arrives while the channel has room.
abbrev pub arrive : Time × String → Input
arrive (recv, raw) = message recv raw true

-- Messages that are deltas, each numbered one above the last within an int64.
abbrev pub Numbered : (String → Option Msg) → ℤ → List (Time × String) → Type 0
Numbered unmarshal n [] = Unit
Numbered unmarshal n ((recv, raw) ∷ msgs) =
    (m : Msg) × IsDelta m
    × (unmarshal raw ≡ some m)
    × (m.u ≡ n +ℤ pos 1)
    × IsInt64 m.u
    × Numbered unmarshal m.u msgs

back : (n : ℤ) → n +ℤ pos 1 -ℤ pos 1 ≡ n
back n = omega int_laws

before : (n u : ℤ) → u ≡ n +ℤ pos 1 → u -ℤ pos 1 ≡ n
before n u e = rw e (back n)

-- A message that gives events leaves the rest of the session to the connection that noted them.
session-message :
    (handle : Time → String → Try WireError (List MarketEvent))
    → (recv : Time) (raw : String) (evs : List MarketEvent) (ins : List Input) (c : Conn)
    → handle recv raw ≡ ok evs
    → c.force_reconnect ≡ false
    → (session handle (message recv raw true ∷ ins) c).1
      ≡ evs ++ (session handle ins (note_events recv evs (record c { force_reconnect = false }))).1
unfolding session noted
session-message handle recv raw evs ins c e f = rw (e, f) refl

note_event-keeps :
    (recv : Time) (ev : MarketEvent) (c : Conn)
    → (note_events recv (ev ∷ []) (record c { force_reconnect = false })).force_reconnect ≡ false
unfolding note_events note_message
note_event-keeps recv ev c = refl

session-Numbered :
    (unmarshal : String → Option Msg) (msgs : List (Time × String)) (c : Conn) (n : ℤ)
    → c.force_reconnect ≡ false
    → IsInt64 n
    → Numbered unmarshal n msgs
    → (ds : List BookDelta) × ((session (bybit.handle unmarshal) (map arrive msgs) c).1
        ≡ map delta ds)
      × (length ds ≡ length msgs)
      × Contiguous n ds
unfolding session
session-Numbered unmarshal [] c n f i h = ([], refl, refl, tt)
session-Numbered unmarshal ((recv, raw) ∷ msgs) c n f i (m, is_delta, e, next, fits, rest) =
    let ev = delta (delta_for recv m is_delta) in
    let c' = note_events recv (ev ∷ []) (record c { force_reconnect = false }) in
    let (ds, same, len, k) =
      session-Numbered unmarshal msgs c' m.u (note_event-keeps recv ev c) fits rest in
    let prev : wrap64 (m.u -ℤ pos 1) ≡ n = rw (before n m.u next) (wrap64_id n i) in
    (
      delta_for recv m is_delta ∷ ds,
      session-message (bybit.handle unmarshal) recv raw (ev ∷ []) (map arrive msgs) c
            (handle-IsDelta unmarshal recv raw m is_delta e) f
          ∙ ap (λ evs. ev ∷ evs) same,
      ap suc len,
      (next, fits, rw (prev, next) (omega (arith, +ℤ_parts n (pos 1))), k),
    )

-- A Bybit session of deltas that are numbered one above the last gives its tracker only deltas
-- that it applies: none of the messages is dropped, refused or taken for a gap, when their levels
-- are printed numbers, the tracker stands at the number before the first, no resync is asked for
-- and the channel of events has room.
pub session-applied :
    (unmarshal : String → Option Msg) (msgs : List (Time × String)) (c : Conn) (t : Tracker)
    → c.force_reconnect ≡ false
    → t.ready ≡ true
    → IsInt64 t.last_seq
    → Numbered unmarshal t.last_seq msgs
    → (ds : List BookDelta) × ((session (bybit.handle unmarshal) (map arrive msgs) c).1
        ≡ map delta ds)
      × (length ds ≡ length msgs)
      × All (λ v. v ≡ apply) (feed ds t).1
session-applied unmarshal msgs c t f r i h =
    let (ds, same, len, k) = session-Numbered unmarshal msgs c t.last_seq f i h in
    (ds, same, len, feed-Contiguous ds t r k)
