-- ===== src/Venue/Synthetic.antt =====
-- internal/venue/synthetic/synthetic.go: the generated feed. The lock makes each method one step.
-- The random numbers (math/rand) are a parameter: a state, and `Intn` as a number below its bound
-- with the next state. The double of the volatility and a bound on the depth fit an int.
pub mod Feed
use crossvenue.Base.{
  ℕ, zero, suc, ◌+◌, ◌-◌, ◌*◌, ◌/◌, ◌%◌, ◌^◌, ◌<◌, Bool, true, false, not, ◌&&◌, List, [], ◌∷◌,
  String, if◌then◌else◌, eqb,
}
use crossvenue.Base.Int.{ℤ, pos, sub_ℕ, pos_part, magnitude, ◌+ℤ◌, ◌-ℤ◌, ltb_ℤ, leb_ℤ}
use crossvenue.Base.Outcome.{Outcome, returns, ◌>>=◌}
use crossvenue.Decimal.{Fixed, wrap64, from_int, add, sub, mul_int, mul_bps, div}
use crossvenue.Domain.{
  Venue, Time, Side, buy, sell, Level, MarketEvent, BookDelta, BookSnapshot, snapshot, delta,
}

pub record Rng : Type 1 where
  pub State : Type 0
  pub seeded : ℤ → State
  pub intn : ℕ → State → ℕ × State
  pub intn-lt : (n : ℕ) (r : State) → 0 < n → (intn n r).0 < n

-- `Options`.
pub record Options : Type 0 where
  pub venue : Venue
  pub seed : ℤ
  pub base_price : ℤ
  pub events_per_sec : ℤ
  pub volatility_bps : ℤ
  pub depth_levels : ℤ
  pub gap_every : ℤ
  pub manual_time : Bool
  pub start_time : Time
  pub has_start : Bool  -- `!StartTime.IsZero()`

abbrev or_default : ℤ → ℤ → ℤ
or_default n d = if leb_ℤ n (pos 0) then d else n

-- A bid lies below the mid price by the offset, an ask above it.
abbrev price_of : Side → Fixed → Outcome Fixed → Outcome Fixed
price_of buy above below = below
price_of sell above below = returns above

module _ (rng : Rng) where
  open rng use {seeded, intn}

  pub record Generator : Type 0 where
    pub opts : Options
    pub rng_state : rng.State
    pub seq : ℤ  -- int64
    pub mid : Fixed
    pub healthy : Bool
    pub last_msg : ℤ
    pub emitted : ℕ  -- uint64
    pub now : Time

  -- The defaults of `New`.
  unfoldable pub with_defaults : Options → Options
  with_defaults o = record o {
    events_per_sec = or_default o.events_per_sec (pos 100);
    depth_levels = or_default o.depth_levels (pos 10);
    base_price = or_default o.base_price (pos 100000);
    volatility_bps = or_default o.volatility_bps (pos 5);
    start_time = if o.has_start then o.start_time else pos 1700000000000000000;
    has_start = true;
  }

  -- `New`
  unfoldable pub new_generator : Options → Generator
  unfolding with_defaults
  new_generator opts =
      let o = with_defaults opts in
      record {
        opts = o;
        rng_state = seeded o.seed;
        seq = pos 0;
        mid = from_int o.base_price;
        healthy = true;
        last_msg = pos 0;
        emitted = 0;
        now = o.start_time;
      }

  -- `Close`
  abbrev pub close : Generator → Generator
  close g = record g { healthy = false }

  -- `tickNow`, with the reading of the clock that it makes when time is not manual.
  unfoldable pub tick_now : Time → Generator → Generator × Time
  tick_now clock g =
      if g.opts.manual_time
      then (let t = g.now +ℤ pos (1000000000 / pos_part g.opts.events_per_sec) in
          (record g { now = t }, t))
      else (g, clock)

  -- A level's quantity: a number of parts.
  abbrev quantity_of : ℕ → ℤ → Outcome Fixed
  quantity_of n parts = div (from_int (pos n)) (from_int parts)

  -- The loop of `sideLocked`, from the level with a number on, for the levels that are left.
  unfoldable pub side_from : Side → Fixed → ℕ → ℕ → rng.State → Outcome (List Level × rng.State)
  side_from side mid zero i r = returns ([], r)
  side_from side mid (suc left) i r = do
    offset ← mul_int (from_int (pos (i + 1))) (pos 10)
    above ← add mid offset
    px ← price_of side above (sub mid offset)
    let (k, r1) = intn 5 r
    qty ← quantity_of (k + 1) (pos 10)
    rest ← side_from side mid left (i + 1) r1
    returns (record { price = px; qty = qty } ∷ rest.0, rest.1)

  -- `Snapshot`
  unfoldable pub snapshot_of : String → Time → Generator → Outcome (Generator × MarketEvent)
  unfolding tick_now side_from
  snapshot_of symbol clock g = do
    let n = wrap64 (g.seq +ℤ pos 1)
    let (g1, ts) = tick_now clock (record g { seq = n })
    let depth = pos_part g.opts.depth_levels
    bids ← side_from buy g.mid depth 0 g1.rng_state
    asks ← side_from sell g.mid depth 0 bids.1
    returns (
      record g1 { last_msg = wrap64 ts; rng_state = asks.1 },
      snapshot (record {
        venue = g.opts.venue;
        symbol = symbol;
        sequence = n;
        bids = bids.0;
        asks = asks.0;
        exchange_time = ts;
        receive_time = ts;
      }),
    )

  -- The random walk of the mid price, which stays at 1000 or above.
  unfoldable pub walk_mid : Generator → Outcome (Fixed × rng.State)
  walk_mid g = do
    let vol = pos_part g.opts.volatility_bps
    let (k, r) = intn (vol * 2 + 1) g.rng_state
    step ← mul_bps g.mid (sub_ℕ k vol)
    mid ← add g.mid step
    returns (if ltb_ℤ mid (from_int (pos 1000)) then from_int (pos 1000) else mid, r)

  -- The number of the next delta: a gap is injected at the multiples of `GapEvery`.
  unfoldable pub next_seq : Options → ℤ → ℤ
  next_seq o last =
      let n = wrap64 (last +ℤ pos 1) in
      if ltb_ℤ (pos 0) o.gap_every && eqb (magnitude n % pos_part o.gap_every) 0
      then wrap64 (n +ℤ pos 2)
      else n

  -- The loop over the levels that a delta touches.
  unfoldable pub touch : Fixed → ℕ → ℕ → rng.State → Outcome (List Level × List Level × rng.State)
  touch mid depth zero r = returns ([], [], r)
  touch mid depth (suc left) r = do
    let (k, r1) = intn depth r
    off ← mul_int (from_int (pos (k + 1))) (pos 10)
    let (m, r2) = intn 50 r1
    some_qty ← quantity_of (m + 1) (pos 100)
    let (z, r3) = intn 10 r2
    let qty = if eqb z 0 then pos 0 else some_qty
    below ← sub mid off
    above ← add mid off
    rest ← touch mid depth left r3
    returns (
      record { price = below; qty = qty } ∷ rest.0,
      record { price = above; qty = qty } ∷ rest.1,
      rest.2,
    )

  -- `Delta`
  unfoldable pub delta_of : String → Time → Generator → Outcome (Generator × MarketEvent)
  unfolding walk_mid next_seq tick_now touch
  delta_of symbol clock g = do
    w ← walk_mid g
    let n = next_seq g.opts g.seq
    let (g1, ts) = tick_now clock (record g { mid = w.0; rng_state = w.1; seq = n })
    let (k, r) = intn 3 g1.rng_state
    ls ← touch w.0 (pos_part g.opts.depth_levels) (k + 1) r
    returns (
      record g1 { last_msg = wrap64 ts; emitted = (g.emitted + 1) % 2 ^ 64; rng_state = ls.2 },
      delta (record {
        venue = g.opts.venue;
        symbol = symbol;
        bids = ls.0;
        asks = ls.1;
        sequence = n;
        prev_sequence = wrap64 (n -ℤ pos 1);
        exchange_time = ts;
        receive_time = ts;
      }),
    )
