-- ===== src/Witnesses/Feeds.antt =====
-- The theorems on the feeds of the venues at concrete inputs.
use crossvenue.Base.{
  ◌%◌, ◌^◌, ◌+◌, false, ℕ, List, [], ◌∷◌, map, Option, some, true, if◌then◌else◌, String, ◌==◌,
  string_eq, ◌≡◌, refl, arith,
}
use crossvenue.Base.Int.{ℤ, pos, ◌+ℤ◌, ◌-ℤ◌, ◌*ℤ◌, ◌≤ℤ◌, neg}
use crossvenue.Base.Lists.{All, length}
use crossvenue.Base.Outcome.{Outcome, returns, panics}
use crossvenue.Decimal.{
  from_int, mul_bps, mul_int, add, sub, div, wrap64, mul_div, abs64, mul64, div64, negate,
}
use crossvenue.Domain.{MarketEvent, BookDelta, Time, delta, other}
use crossvenue.Seq.{Tracker, bybit, check, apply, gap}
use crossvenue.Seq.Gaps.{feed}
use crossvenue.Venue.{has_prefix}
use crossvenue.Venue.Bybit.{Msg, handle}
use crossvenue.Venue.Connection.{new_conn}
use crossvenue.Base.Int.{pos_part}
use crossvenue.Venue.Reconnecting.{Round, run_conn}
use crossvenue.Venue.Reconnecting.Backoff.{Scheduled, run_conn-Scheduled}
use crossvenue.Venue.Session.{session, arrive, raw_of, Numbered, IsDelta, session-applied}
use crossvenue.Venue.Synthetic.{Rng, Options, Generator, delta_of}
use crossvenue.Venue.Synthetic.Feed.{at, delta_of-verdict}
use crossvenue.Witnesses.{level}

-- Random numbers that are always zero.
abbrev pub zeros : Rng
zeros = record { State = ℕ; seeded = λ s. 0; intn = λ n r. (0, r); intn-lt = λ n r h. h }

abbrev pub options : Options
options = record {
  venue = "synthetic";
  seed = pos 42;
  base_price = pos 100000;
  events_per_sec = pos 200;
  volatility_bps = pos 5;
  depth_levels = pos 10;
  gap_every = pos 3;
  manual_time = true;
  start_time = pos 0;
  has_start = true;
}

-- A generator whose next number is the third, at which it skips two.
abbrev third : Generator zeros
third = record {
  opts = options;
  rng_state = 0;
  seq = pos 2;
  mid = pos 10000000000000;
  healthy = true;
  last_msg = pos 0;
  emitted = 1;
  now = pos 0;
}

unfoldable outcome_of : Outcome (Generator zeros × MarketEvent) → Generator zeros × MarketEvent
outcome_of (returns r) = r
outcome_of (panics _) = (third, other)

unfoldable generated : Generator zeros × MarketEvent
unfolding delta_of
generated = outcome_of (delta_of zeros "BTC-USDT" (pos 0) third)

generates : delta_of zeros "BTC-USDT" (pos 0) third ≡ returns (generated.0, generated.1)
unfolding delta_of generated outcome_of from_int mul_bps mul_int add sub div wrap64 mul_div abs64
    mul64 div64 negate neg ◌+ℤ◌ ◌-ℤ◌ ◌*ℤ◌
generates = refl

delta_of-verdict_example :
    (d : BookDelta) × (generated.1 ≡ delta d)
    × (check d (at 2) ≡ (at 2, gap))
    × (generated.0.seq ≡ pos 5)
    × (from_int (pos 1000) ≤ℤ generated.0.mid)
delta_of-verdict_example =
    delta_of-verdict zeros "BTC-USDT" (pos 0) third generated.0 2 generated.1 refl (omega arith)
      generates

-- Two messages of a session, numbered 11 and 12.
abbrev message : ℤ → Msg
message u = record {
  topic = "orderbook.50.BTCUSDT";
  type = "delta";
  ts = pos 1700000000000;
  symbol = "BTCUSDT";
  bids = map raw_of (level (pos 9900000000) (pos 150000000) ∷ []);
  asks = [];
  u = u;
}

abbrev unmarshal : String → Option Msg
unmarshal raw = if raw == "first" then some (message (pos 11)) else some (message (pos 12))

abbrev messages : List (Time × String)
messages = (pos 1, "first") ∷ (pos 2, "second") ∷ []

message-IsDelta : (u : ℤ) → IsDelta (message u)
unfolding has_prefix
message-IsDelta u = record {
  topic = refl;
  orderbook = refl;
  type = refl;
  bids = level (pos 9900000000) (pos 150000000) ∷ [];
  bids_of = refl;
  bids_print = ground arith;
  asks = [];
  asks_of = refl;
  asks_print = tt;
}

abbrev tracker : Tracker
tracker = record { kind = bybit; ready = true; last_seq = pos 10 }

messages-Numbered : Numbered unmarshal (pos 10) messages
unfolding ◌+ℤ◌
messages-Numbered = (
  message (pos 11),
  message-IsDelta (pos 11),
  refl,
  refl,
  ground arith,
  (message (pos 12), message-IsDelta (pos 12), refl, refl, ground arith, tt),
)

session-applied_example :
    (ds : List BookDelta) × ((session
        (handle unmarshal)
        (map arrive messages)
        (new_conn (pos 0) (pos 0) (pos 0))).1
      ≡ map delta ds)
    × (length ds ≡ 2)
    × All (λ v. v ≡ apply) (feed ds tracker).1
unfolding new_conn
session-applied_example =
    session-applied unmarshal messages (new_conn (pos 0) (pos 0) (pos 0)) tracker refl refl
      (ground arith) messages-Numbered

-- A session of the two messages, which is then lost; the jitter is zero.
abbrev lost_session : Round
lost_session = record {
  done_before = false;
  subscribes = true;
  inputs = map arrive messages;
  closes = false;
  done_after = false;
  int63n = λ n. 0;
  int63n-lt = λ n h. h;
  done_waiting = false;
}

run_conn-Scheduled_example :
    let c = new_conn (pos 0) (pos 0) (pos 0) in
    let ran = run_conn (handle unmarshal) (lost_session ∷ lost_session ∷ []) c in
    Scheduled (pos_part c.max_backoff) 0 ran.waits
    × (ran.conn.reconnects % 2 ^ 64 ≡ (c.reconnects + length ran.waits) % 2 ^ 64)
unfolding new_conn
run_conn-Scheduled_example =
    run_conn-Scheduled (handle unmarshal) (lost_session ∷ lost_session ∷ [])
      (new_conn (pos 0) (pos 0) (pos 0)) (omega arith)
