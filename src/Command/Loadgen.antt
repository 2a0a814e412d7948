-- ===== src/Command/Loadgen.antt =====
-- cmd/loadgen/main.go: recordings of generated feeds. The flag of the duration is its whole seconds;
-- generators keep their own time, so no clock is read.
pub mod Replayed
use Prim.Native.String.{◌++◌}
use crossvenue.Base.{
  ℕ, zero, suc, ◌+◌, ◌*◌, ◌-◌, Bool, true, false, List, [], ◌∷◌, ◌++◌ as append, String,
  if◌then◌else◌, eqb,
}
use crossvenue.Base.Int.{ℤ, pos, ◌+ℤ◌}
use crossvenue.Base.Lists.{take}
use crossvenue.Base.Outcome.{Outcome, returns, ◌>>=◌}
use crossvenue.Decimal.{wrap64}
use crossvenue.Domain.{Venue, MarketEvent, venue_binance, venue_okx, venue_bybit, venue_synthetic}
use crossvenue.Replay.{Codec, Recorder, new_recorder, record_all}
use crossvenue.Engine.State.{number_text}
use crossvenue.Venue.Synthetic.{Rng, Options, Generator, new_generator, snapshot_of, delta_of}

pub record Load : Type 0 where
  pub venues : ℕ
  pub symbols : ℕ
  pub events_per_second : ℕ
  pub seconds : ℕ
  pub seed : ℤ

abbrev pub venue_names : List Venue
venue_names = venue_binance ∷ venue_okx ∷ venue_bybit ∷ venue_synthetic ∷ []

-- `SYM%d-USDT`, but for the first symbol.
unfoldable pub symbol_name : ℕ → String
unfolding number_text
symbol_name i = if eqb i 0 then "BTC-USDT" else "SYM" ++ number_text i i "-USDT"

-- The generator of the venue and the symbol with these numbers.
abbrev pub load_options : Load → ℕ → Venue → ℕ → Options
load_options l v name i = record {
  venue = name;
  seed = wrap64 (wrap64 (l.seed +ℤ pos (v * 7919)) +ℤ pos (i * 104729));
  base_price = pos (100000 + i * 1000);
  events_per_sec = pos l.events_per_second;
  volatility_bps = pos 0;
  depth_levels = pos 0;
  gap_every = pos 0;
  manual_time = true;
  start_time = pos 0;
  has_start = false;
}

module _ (rng : Rng) where
  -- The loop over `Delta`.
  unfoldable pub deltas : ℕ → String → Generator rng → Outcome (List MarketEvent)
  unfolding delta_of
  deltas zero symbol g = returns []
  deltas (suc left) symbol g = do
    r ← delta_of rng symbol (pos 0) g
    rest ← deltas left symbol r.0
    returns (r.1 ∷ rest)

  -- A snapshot, and then the deltas.
  unfoldable pub feed_of : Options → String → ℕ → Outcome (List MarketEvent)
  unfolding snapshot_of deltas new_generator
  feed_of o symbol count = do
    r ← snapshot_of rng symbol (pos 0) (new_generator rng o)
    ds ← deltas count symbol r.0
    returns (r.1 ∷ ds)

  -- The loops over the symbols and the venues.
  unfoldable pub symbol_feeds : Load → ℕ → Venue → ℕ → ℕ → Outcome (List MarketEvent)
  unfolding feed_of symbol_name
  symbol_feeds l v name i zero = returns []
  symbol_feeds l v name i (suc left) = do
    evs ← feed_of (load_options l v name i) (symbol_name i) (l.events_per_second * l.seconds)
    rest ← symbol_feeds l v name (i + 1) left
    returns (append evs rest)

  unfoldable pub venue_feeds : Load → ℕ → List Venue → Outcome (List MarketEvent)
  unfolding symbol_feeds
  venue_feeds l v [] = returns []
  venue_feeds l v (name ∷ names) = do
    evs ← symbol_feeds l v name 0 l.symbols
    rest ← venue_feeds l (v + 1) names
    returns (append evs rest)

  -- `main`, whose recorder can be made and written: generated events have an envelope.
  unfoldable pub generate : (c : Codec) → Load → Outcome (Recorder c)
  unfolding venue_feeds record_all
  generate c l = do
    evs ← venue_feeds l 0 (take l.venues venue_names)
    returns (record_all c evs (new_recorder c))
