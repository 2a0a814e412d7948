-- ===== src/Witnesses/Operating.antt =====
-- The theorems on the database and the commands at concrete inputs.
use mathlib.Core.List.{Perm, Permᴰ}
use crossvenue.Base.{
  ℕ, true, false, if◌then◌else◌, String, List, [], ◌∷◌, map, none, some, ◌==◌, string_eq, nat_eq,
  pair_eq, ◌≡◌, ◌≢◌, ◌⊎◌, refl, arith,
}
use crossvenue.Base.Int.{pos, ◌+ℤ◌, ◌-ℤ◌, ◌*ℤ◌, neg}
use crossvenue.Base.Lists.{All, length}
use crossvenue.Base.Outcome.{Outcome, returns, panics}
use crossvenue.Base.Try.{Try, ok, fails}
use crossvenue.Decimal.{
  Fixed, add, sub, mul_int, mul_bps, mul_div, div, from_int, wrap64, abs64, mul64, div64, negate,
}
use crossvenue.Decimal.Text.{Bytes, parse}
use crossvenue.Domain.{MarketEvent, BookDelta, BookSnapshot, delta, snapshot}
use crossvenue.Seq.{Tracker, binance, apply, on_snapshot, new_for_venue}
use crossvenue.Seq.Gaps.{feed}
use crossvenue.Portfolio.{Balance, Position}
use crossvenue.Config.{default}
use crossvenue.Storage.{Numeric, Answer, done, lost, Tables, save_portfolio, load_balances}
use crossvenue.Storage.Portfolio.{written, save_portfolio-atomic}
use crossvenue.Storage.Recovery.{overwrite_all, load_balances-save_portfolio}
use crossvenue.Command.{Flags, Outside, Started, start, no_source}
use crossvenue.Command.Loadgen.{feed_of}
use crossvenue.Command.Loadgen.Replayed.{feed_of-applied}
use crossvenue.Witnesses.Running.{running}
use crossvenue.Witnesses.Feeds.{zeros, options}

stores : (t : Bytes) → some t ≢ none
stores t h = cc

keeps : (t : Bytes) (f : Fixed) (v : Bytes) → parse t ≡ ok f → some t ≡ some v → parse v ≡ ok f
keeps t f v e k = ground arith

-- A column that keeps every text.
abbrev texts : Numeric
texts = record {
  Value = Bytes;
  stored = λ t. some t;
  text = λ v. v;
  stored_if_parsed = λ t f e. stores t;
  kept = λ t f v e k. keeps t f v e k;
}

abbrev balance_of : String → ℕ → Balance
balance_of asset n = record { venue = "okx"; asset = asset; available = pos n; reserved = pos 0 }

abbrev saved : List Balance
saved = balance_of "USDT" 99900 ∷ balance_of "BTC" 7 ∷ []

abbrev held : List Position
held = record { venue = "okx"; symbol = "BTC-USDT"; qty = pos 7; avg_cost = pos 100 } ∷ []

abbrev no_tables : Tables texts
no_tables = record {
  orders = [];
  fills = [];
  balances = [];
  positions = [];
  engine_events = [];
  system_state = [];
}

-- Every call is answered but the last, the commit.
abbrev answers : ℕ → Answer
answers n = if n == 4 then lost else done

save_portfolio-atomic_example :
    (((save_portfolio texts answers saved held no_tables).1 ≡ true)
      × (written texts saved held no_tables
          ≡ some (save_portfolio texts answers saved held no_tables).0))
    ⊎ (((save_portfolio texts answers saved held no_tables).1 ≡ false)
        × (((save_portfolio texts answers saved held no_tables).0 ≡ no_tables)
            ⊎ (written texts saved held no_tables
                ≡ some (save_portfolio texts answers saved held no_tables).0)))
save_portfolio-atomic_example = save_portfolio-atomic texts answers saved held no_tables

-- The query lists the first two rows the other way round.
abbrev listed_one {ℓ} : {A : Type ℓ} → List A → List A
listed_one (x ∷ y ∷ rest) = y ∷ x ∷ rest
listed_one rest = rest

listed_any : {A : Type 0} (rows : List A) → Permᴰ (listed_one rows) rows
listed_any [] = Permᴰ.nil
listed_any (x ∷ []) = Permᴰ.cons refl Permᴰ.nil
listed_any (x ∷ y ∷ rest) = Permᴰ.swap refl refl

load_balances-save_portfolio_example :
    ((save_portfolio texts (λ n. done) saved held no_tables).1 ≡ true)
    × ((loaded : List Balance) × (load_balances texts done listed_one
            (save_portfolio texts (λ n. done) saved held no_tables).0
          ≡ some (ok loaded))
        × Perm loaded (overwrite_all saved []))
load_balances-save_portfolio_example =
    load_balances-save_portfolio texts (λ n. done) saved held no_tables [] listed_one (λ i. refl)
      (omega arith) (omega arith) tt listed_any

abbrev flags : Flags
flags = record { mode = ""; recording = ""; speed = "max"; seed = pos 7; record_events = false }

abbrev pub outside : Outside
outside = record {
  environment = record { postgres_url = ""; api_listen = ""; mode = ""; live = false };
  store_opens = true;
  schema_found = true;
  migrates = true;
  directory_made = true;
  recorder_opens = true;
  default_recording = "data/recordings/crossvenue-0.recording";
}

unfoldable started_as : Try ℕ Started → Started
started_as (ok st) = st
started_as (fails _) = record {
  cfg = default;
  supervisor = running;
  source = no_source;
  has_store = false;
  recording = none;
}

unfoldable started : Started
unfolding start
started = started_as (start outside flags (pos 0) default)

unfoldable events_of : Outcome (List MarketEvent) → List MarketEvent
events_of (returns evs) = evs
events_of (panics _) = []

unfoldable fed : List MarketEvent
unfolding feed_of
fed = events_of (feed_of zeros (record options { gap_every = pos 0 }) "BTC-USDT" 2)

feeds : feed_of zeros (record options { gap_every = pos 0 }) "BTC-USDT" 2 ≡ returns fed
unfolding feed_of fed events_of from_int mul_bps mul_int add sub div wrap64 mul_div abs64 mul64
    div64 negate neg ◌+ℤ◌ ◌-ℤ◌ ◌*ℤ◌
feeds = refl

abbrev fresh_binance : Tracker
fresh_binance = record { kind = binance; ready = false; last_seq = pos 0 }

lane_of : new_for_venue "binance" ≡ some fresh_binance
unfolding new_for_venue
lane_of = refl

feed_of-applied_example :
    (s : BookSnapshot) × (ds : List BookDelta) × (fed ≡ snapshot s ∷ map delta ds)
    × (length ds ≡ 2)
    × All (λ x. x ≡ apply) (feed ds (on_snapshot s.sequence fresh_binance)).1
feed_of-applied_example =
    feed_of-applied zeros (record options { gap_every = pos 0 }) "BTC-USDT" 2 fed "binance"
      fresh_binance (omega arith) (omega arith) lane_of feeds
