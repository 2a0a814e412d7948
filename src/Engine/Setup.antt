-- ===== src/Engine/Setup.antt =====
-- `New` of internal/engine/engine.go: a supervisor from a configuration.
use crossvenue.Base.{Option, none, some, List, [], ◌∷◌, String, if◌then◌else◌, ◌==◌, string_eq}
use crossvenue.Base.Int.{ℤ, pos}
use crossvenue.Base.Dict.{Dict, lookup}
use crossvenue.Base.Try.{Try, ok, fails, ◌>>=◌}
use crossvenue.Decimal.{Fixed}
use crossvenue.Decimal.Text.{ParseError, parse, is_empty}
use crossvenue.Domain.{Venue, Time}
use crossvenue.Fnv.{Bytes}
use crossvenue.Config.{Config, VenueConfig, max_quote_age, enabled_venues, mode_replay}
use crossvenue.Manager.{new_manager}
use crossvenue.Opportunity.{Fees, Engine}
use crossvenue.Risk.{Limits, new_state}
use crossvenue.Execution.Simulating.{new_simulator}
use crossvenue.Portfolio.{Ledger, new_ledger, set_balance}
use crossvenue.Journal.{Journal}
use crossvenue.Pipeline.{Pipeline, new_pipeline, register}
use crossvenue.Engine.State.{Supervisor, Payload, base_asset}

pub data SetupError : Type 0 where
  initial_quote initial_base : String → ParseError → SetupError
  no_tracker : Venue → String → SetupError
  trade_quantity min_profit : ParseError → SetupError

abbrev pub tagged : (ParseError → SetupError) → Try ParseError Fixed → Try SetupError Fixed
tagged f (ok v) = ok v
tagged f (fails e) = fails (f e)

-- `decimal.Parse`, with the error that the caller returns.
unfoldable pub parse_for : (ParseError → SetupError) → Bytes → Try SetupError Fixed
unfolding parse
parse_for f s = tagged f (parse s)

-- `mustDecimal`
unfoldable pub must_decimal : Bytes → Fixed
unfolding parse
must_decimal s = if is_empty s then pos 0 else elim (parse s) [ ok v ↦ v | fails _ ↦ pos 0 ]

unfoldable pub seed_base : Venue → Fixed → List String → Ledger → Ledger
unfolding set_balance base_asset
seed_base v b [] l = l
seed_base v b (symbol ∷ symbols) l = seed_base v b symbols (set_balance v (base_asset symbol) b l)

unfoldable pub seed_quote : String → Bytes → Ledger → Try SetupError Ledger
unfolding parse_for set_balance
seed_quote name text l =
    if is_empty text
    then ok l
    else do q ← parse_for (initial_quote name) text; ok (set_balance name "USDT" q l)

unfoldable pub seed_bases : String → Bytes → List String → Ledger → Try SetupError Ledger
unfolding parse_for seed_base
seed_bases name text symbols l =
    if is_empty text
    then ok l
    else do b ← parse_for (initial_base name) text; ok (seed_base name b symbols l)

-- The inventory of each enabled venue.
unfoldable pub seed_venues : List String → Dict String VenueConfig → Ledger → Try SetupError Ledger
unfolding seed_quote seed_bases
seed_venues symbols [] l = ok l
seed_venues symbols ((name, vc) ∷ vs) l = do
  l' ←
      if vc.enabled
      then (do l1 ← seed_quote name vc.initial_quote l; seed_bases name vc.initial_base symbols l1)
      else ok l
  seed_venues symbols vs l'

abbrev pub registered : Venue → String → Option Pipeline → Try SetupError Pipeline
registered v symbol none = fails (no_tracker v symbol)
registered v symbol (some p) = ok p

unfoldable pub register_symbols : Time → Venue → List String → Pipeline → Try SetupError Pipeline
unfolding register
register_symbols t v [] p = ok p
register_symbols t v (symbol ∷ symbols) p = do
  p' ← registered v symbol (register t v symbol p)
  register_symbols t v symbols p'

unfoldable pub register_venues :
    Time → List Venue → List String → Pipeline → Try SetupError Pipeline
unfolding register_symbols
register_venues t [] symbols p = ok p
register_venues t (v ∷ vs) symbols p = do
  p' ← register_symbols t v symbols p
  register_venues t vs symbols p'

-- What the maps of the fees and of the latencies hold for a venue.
fees_of : Option VenueConfig → Fees
fees_of none = record { taker_bps = pos 0; maker_bps = pos 0 }
fees_of (some vc) = record { taker_bps = vc.taker_bps; maker_bps = vc.maker_bps }

outbound_of : Option VenueConfig → ℤ
outbound_of none = pos 0
outbound_of (some vc) = vc.outbound_us

unfoldable pub limits_of : Config → Fixed → Limits
unfolding must_decimal max_quote_age
limits_of cfg edge = record {
  max_trade_notional = must_decimal cfg.risk.max_trade_notional_usd;
  max_symbol_exposure = must_decimal cfg.risk.max_symbol_exposure_usd;
  max_venue_exposure = must_decimal cfg.risk.max_venue_exposure_usd;
  max_total_exposure = must_decimal cfg.risk.max_total_exposure_usd;
  min_expected_edge = edge;
  max_quote_age = max_quote_age cfg;
  max_book_age = max_quote_age cfg;
  max_outstanding = cfg.risk.max_outstanding_orders;
  max_consecutive_fails = cfg.risk.max_consecutive_fails;
  daily_loss_limit = must_decimal cfg.risk.daily_loss_limit_usd;
  kill_switch = cfg.risk.kill_switch;
}

-- The opportunity engine; the penalty of its latency model is left at zero.
engine_of : Config → Fixed → Fixed → Engine
unfolding fees_of outbound_of max_quote_age
engine_of cfg quantity profit = record {
  fees = λ v. fees_of (lookup v cfg.venues);
  latency = record {
    penalty_bps_per_ms = pos 0;
    outbound_us = λ v. outbound_of (lookup v cfg.venues);
    decision_us = pos 250;
  };
  cfg = record {
    min_profit = profit;
    min_edge_bps = cfg.risk.min_edge_bps;
    max_quote_age = max_quote_age cfg;
    trade_quantity = quantity;
    slippage_bps = cfg.execution.slippage_bps;
  };
}

-- The supervisor that `New` fills in, from the parts that can fail.
unfoldable pub supervisor_of :
    Config → Journal Payload → Ledger → Pipeline → Fixed → Fixed → Supervisor
unfolding enabled_venues limits_of engine_of fees_of
supervisor_of cfg journal ledger pipe quantity profit =
    let limits = limits_of cfg profit in
    record {
      cfg = cfg;
      pipe = pipe;
      opp = engine_of cfg quantity profit;
      opp_ctr = 0;
      limits = limits;
      risk = new_state limits;
      exec = new_simulator;
      fee_bps = λ v. (fees_of (lookup v cfg.venues)).taker_bps;
      ledger = ledger;
      journal = journal;
      opps = [];
      opp_index = [];
      rejections = [];
      executed_count = 0;
      max_recent = 256;
      venues = enabled_venues cfg;
      adapters = [];
      resyncs = [];
      deterministic = cfg.mode == mode_replay;
    }

-- `New`, at the time that the first books are made, with the journal that is passed.
unfoldable pub new : Time → Config → Journal Payload → Try SetupError Supervisor
unfolding seed_venues register_venues enabled_venues max_quote_age parse_for supervisor_of
new t cfg journal = do
  ledger ← seed_venues cfg.symbols cfg.venues new_ledger
  pipe ←
      register_venues t (enabled_venues cfg) cfg.symbols
        (new_pipeline (pos 4096) (max_quote_age cfg) new_manager)
  quantity ← parse_for trade_quantity cfg.execution.trade_qty
  profit ← parse_for min_profit cfg.risk.min_profit_usd
  ok (supervisor_of cfg journal ledger pipe quantity profit)
