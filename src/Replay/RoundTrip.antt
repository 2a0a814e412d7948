-- ===== src/Replay/RoundTrip.antt =====
-- A recording of internal/replay/replay.go, read back.
use crossvenue.Base.{
  ltb, ◌∙◌, ℕ, ◌+◌, ◌%◌, ◌^◌, ◌<◌, Bool, true, false, List, [], ◌∷◌, ◌++◌, Option, none,
  if◌then◌else◌, ◌≡◌, refl, sym, ap, arith, Bool-cases, inl, inr,
}
use crossvenue.Base.Lists.{All, append_nil, append_assoc}
use crossvenue.Base.Try.{Try, ok, fails}
use crossvenue.Decimal.{IsInt64}
use crossvenue.Decimal.Exact.{wrap64_id, wrap64-IsInt64}
use crossvenue.Domain.{Side, buy, sell, Level, MarketEvent, snapshot, delta, trade, other}
use crossvenue.Replay.{
  RecordedEvent, LevelFits, EnvelopeFits, Codec, ReplayError, levels_to_json, levels_from_json,
  from_event, to_event, Recorder, new_recorder, write_line, record_event, record_all, decode, next,
  stream_next, stream, side_of, side_code, unknown_event_type, max_token,
}

-- Prices, quantities, sequence numbers and times that are int64s.
abbrev pub LevelInRange : Level → Type 0
LevelInRange l = IsInt64 l.price × IsInt64 l.qty

abbrev pub InRange : MarketEvent → Type 0
InRange (snapshot s) =
    IsInt64 s.exchange_time
    × IsInt64 s.receive_time
    × All LevelInRange s.bids
    × All LevelInRange s.asks
    × IsInt64 s.sequence
InRange (delta d) =
    IsInt64 d.exchange_time
    × IsInt64 d.receive_time
    × All LevelInRange d.bids
    × All LevelInRange d.asks
    × IsInt64 d.sequence
    × IsInt64 d.prev_sequence
InRange (trade t) =
    IsInt64 t.exchange_time × IsInt64 t.receive_time × IsInt64 t.price × IsInt64 t.qty
InRange other = Unit

levels_round : (ls : List Level) → levels_from_json (levels_to_json ls) ≡ ls
unfolding levels_from_json levels_to_json
levels_round [] = refl
levels_round (l ∷ ls) = ap (λ m. l ∷ m) (levels_round ls)

levels_to_json-Fits : (ls : List Level) → All LevelInRange ls → All LevelFits (levels_to_json ls)
unfolding levels_to_json
levels_to_json-Fits [] h = tt
levels_to_json-Fits (l ∷ ls) h = (h.0, levels_to_json-Fits ls h.1)

-- The events that have an envelope.
abbrev pub is_known : MarketEvent → Bool
is_known other = false
is_known _ = true

abbrev pub known : List MarketEvent → List MarketEvent
known [] = []
known (ev ∷ evs) = if is_known ev then ev ∷ known evs else known evs

side_round : (s : Side) → side_of (side_code s) ≡ s
side_round buy = refl
side_round sell = refl

side_code-lt : (s : Side) → side_code s < 2 ^ 8
side_code-lt buy = omega arith
side_code-lt sell = omega arith

-- An event in range has an envelope that fits its types and gives the event back, under every
-- number; an event of an unknown type has none.
pub to_event-from_event :
    (n : ℕ) (ev : MarketEvent)
    → InRange ev
    → n < 2 ^ 64
    → is_known ev ≡ true
    → (re : RecordedEvent) × (from_event n ev ≡ ok re)
      × EnvelopeFits re
      × (re.sequence ≡ n)
      × (to_event re ≡ ok ev)
unfolding from_event to_event
to_event-from_event n (snapshot s) h b k = (
  _,
  refl,
  record {
    version = omega arith;
    sequence = b;
    exchange_time = wrap64-IsInt64 s.exchange_time;
    receive_time = wrap64-IsInt64 s.receive_time;
    payload = (levels_to_json-Fits s.bids h.2, levels_to_json-Fits s.asks h.3, h.4);
  },
  refl,
  rw
      (
        wrap64_id s.exchange_time h.0,
        wrap64_id s.receive_time h.1,
        levels_round s.bids,
        levels_round s.asks,
      )
      refl,
)
to_event-from_event n (delta d) h b k = (
  _,
  refl,
  record {
    version = omega arith;
    sequence = b;
    exchange_time = wrap64-IsInt64 d.exchange_time;
    receive_time = wrap64-IsInt64 d.receive_time;
    payload = (levels_to_json-Fits d.bids h.2, levels_to_json-Fits d.asks h.3, h.4, h.5);
  },
  refl,
  rw
      (
        wrap64_id d.exchange_time h.0,
        wrap64_id d.receive_time h.1,
        levels_round d.bids,
        levels_round d.asks,
      )
      refl,
)
to_event-from_event n (trade t) h b k = (
  _,
  refl,
  record {
    version = omega arith;
    sequence = b;
    exchange_time = wrap64-IsInt64 t.exchange_time;
    receive_time = wrap64-IsInt64 t.receive_time;
    payload = (h.2, h.3, side_code-lt t.aggressor);
  },
  refl,
  rw (wrap64_id t.exchange_time h.0, wrap64_id t.receive_time h.1, side_round t.aggressor) refl,
)
to_event-from_event n other h b k = cc

unknown_has_none :
    (n : ℕ) (ev : MarketEvent) → is_known ev ≡ false → from_event n ev ≡ fails unknown_event_type
unfolding from_event
unknown_has_none n (snapshot s) k = cc
unknown_has_none n (delta d) k = cc
unknown_has_none n (trade t) k = cc
unknown_has_none n other k = refl

module _ (c : Codec) where
  open c use {Line, marshal, unmarshal, size, unmarshal-marshal}

  -- The envelope of the event, under any number, is a line that the scanner takes.
  abbrev pub IsShort : MarketEvent → Type 0
  IsShort ev =
      (n : ℕ) (re : RecordedEvent)
      → n < 2 ^ 64
      → from_event n ev ≡ ok re
      → size (marshal re) < max_token

  -- The lines are read whole, and give these events.
  abbrev Reads : List Line → List MarketEvent → Type 0
  Reads ls evs = stream c false ls ≡ (evs, none)

  stream_next-none :
      (rest : List MarketEvent × Option ReplayError) (t : Try ReplayError MarketEvent)
      (evs : List MarketEvent)
      → stream_next c rest t ≡ (evs, none)
      → (ev : MarketEvent) × (t ≡ ok ev) × (rest.1 ≡ none) × (evs ≡ ev ∷ rest.0)
  unfolding stream_next
  stream_next-none rest (fails e) evs h = cc
  stream_next-none rest (ok ev) evs h = (ev, refl, cc, cc)

  -- What is read of a line does not depend on the lines behind it.
  next_head : (m : Line) (ls js : List Line) → (next c false (m ∷ ls)).1 ≡ (next c false (m ∷ js)).1
  unfolding next
  next_head m ls js = elim (Bool-cases (ltb (size m) max_token)) [
    | inl small ↦ rw small refl
    | inr long ↦ rw long refl
  ]

  Reads-cons :
      (m : Line) (ls js : List Line) (x : MarketEvent) (evs : List MarketEvent)
      → (next c false (m ∷ ls)).1 ≡ ok x
      → Reads js evs
      → Reads (m ∷ js) (x ∷ evs)
  unfolding stream stream_next
  Reads-cons m ls js x evs e h = rw (next_head m js ls ∙ e, h) refl

  Reads-snoc :
      (ls : List Line) (l : Line) (evs : List MarketEvent) (ev : MarketEvent)
      → Reads ls evs
      → size l < max_token
      → decode c (unmarshal l) ≡ ok ev
      → Reads (ls ++ (l ∷ [])) (evs ++ (ev ∷ []))
  unfolding stream next stream_next
  Reads-snoc [] l evs ev h b k = ground arith
  Reads-snoc (m ∷ ls) l evs ev h b k =
      let (x, e, f, g) = stream_next-none (stream c false ls) (next c false (m ∷ ls)).1 evs h in
      let r : Reads ls (stream c false ls).0 = cc in
      let ih = Reads-snoc ls l (stream c false ls).0 ev r b k in
      rw g (Reads-cons m ls (ls ++ (l ∷ [])) x _ e ih)

  -- One event recorded: its line reads back as the event, and an event with no envelope leaves the
  -- lines as they are.
  record_event-Reads :
      (ev : MarketEvent) (r : Recorder c) (evs : List MarketEvent)
      → InRange ev
      → IsShort ev
      → Reads r.lines evs
      → Reads (record_event c ev r).0.lines (evs ++ known (ev ∷ []))
  unfolding record_event write_line decode
  record_event-Reads ev r evs h short reads =
      let n = (r.seq + 1) % 2 ^ 64 in
      elim (Bool-cases (is_known ev)) [
        | inl k ↦
            let (re, e, fits, m, back) = to_event-from_event n ev h (omega arith) k in
            let read : decode c (unmarshal (marshal re)) ≡ ok ev =
              rw (unmarshal-marshal re fits) back in
            rw (e, k)
              (Reads-snoc r.lines (marshal re) evs ev reads (short n re (omega arith) e) read)
        | inr k ↦ rw (unknown_has_none n ev k, k, append_nil evs) reads
      ]

  known_cons :
      (ev : MarketEvent) (new : List MarketEvent) → known (ev ∷ new) ≡ known (ev ∷ []) ++ known new
  known_cons ev new = ground arith

  record_all-Reads :
      (new : List MarketEvent) (r : Recorder c) (evs : List MarketEvent)
      → All InRange new
      → All IsShort new
      → Reads r.lines evs
      → Reads (record_all c new r).lines (evs ++ known new)
  unfolding record_all
  record_all-Reads [] r evs h short reads = rw (append_nil evs) reads
  record_all-Reads (ev ∷ new) r evs h short reads =
      let ih =
        record_all-Reads new (record_event c ev r).0 (evs ++ known (ev ∷ [])) h.1 short.1
          (record_event-Reads ev r evs h.0 short.0 reads) in
      rw (known_cons ev new, sym (append_assoc evs (known (ev ∷ [])) (known new))) ih

  -- A recording is read back whole: where the file can be read, the stream of the lines written for
  -- events whose numbers are int64s and whose envelopes are shorter than 4 MiB gives those that have
  -- an envelope, in the order in which they were recorded, and ends without an error.
  pub stream-record_all :
      (evs : List MarketEvent)
      → All InRange evs
      → All IsShort evs
      → stream c false (record_all c evs (new_recorder c)).lines ≡ (known evs, none)
  unfolding stream
  stream-record_all evs h short = record_all-Reads evs (new_recorder c) [] h short refl
