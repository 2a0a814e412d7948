-- ===== src/Config.antt =====
-- internal/config/config.go: the configuration, its defaults, its validation and what the engine
-- reads of it. A text that `decimal.Parse` reads is its bytes; the others are texts. The YAML file
-- is read by gopkg.in/yaml.v3, so `load` starts from the configuration that it left.
pub mod Valid
use crossvenue.Base.{
  ℕ, Bool, true, false, not, ◌&&◌, ◌||◌, Option, none, some, List, [], ◌∷◌, map, String,
  if◌then◌else◌, ◌==◌, string_eq,
}
use crossvenue.Base.Int.{ℤ, pos, ◌*ℤ◌}
use crossvenue.Base.Dict.{Dict, lookup}
use crossvenue.Base.Try.{Try, ok, fails}
use crossvenue.Decimal.{Fixed, wrap64}
use crossvenue.Decimal.Text.{ParseError, parse, is_empty}
use crossvenue.Domain.{Venue, venue_binance, venue_okx, venue_bybit, venue_synthetic}
use crossvenue.Fnv.{Bytes, bytes_of}
use crossvenue.Manager.{Duration}

abbrev pub Mode : Type 0
Mode = String

abbrev pub mode_live_sim : Mode
mode_live_sim = "live-market-sim"

abbrev pub mode_replay : Mode
mode_replay = "replay"

abbrev pub mode_synthetic : Mode
mode_synthetic = "synthetic"

pub record VenueConfig : Type 0 where
  pub enabled : Bool
  pub taker_bps : ℤ
  pub maker_bps : ℤ
  pub outbound_us : ℤ
  pub initial_base : Bytes
  pub initial_quote : Bytes

pub record RiskSection : Type 0 where
  pub max_trade_notional_usd : Bytes
  pub max_symbol_exposure_usd : Bytes
  pub max_venue_exposure_usd : Bytes
  pub max_total_exposure_usd : Bytes
  pub max_quote_age_ms : ℤ
  pub min_edge_bps : ℤ
  pub min_profit_usd : Bytes
  pub max_outstanding_orders : ℤ
  pub max_consecutive_fails : ℤ
  pub daily_loss_limit_usd : Bytes
  pub kill_switch : Bool

pub record ExecutionSection : Type 0 where
  pub mode : String
  pub latency_mode : String
  pub policy : String
  pub trade_qty : Bytes
  pub slippage_bps : ℤ
  pub seed : ℤ

pub record RecordingSection : Type 0 where
  pub enabled : Bool
  pub path : String

pub record ReplaySection : Type 0 where
  pub file : String
  pub speed : String

pub record SyntheticSection : Type 0 where
  pub seed : ℤ
  pub events_per_sec : ℤ
  pub gap_every : ℤ

pub record Config : Type 0 where
  pub mode : Mode
  pub symbols : List String
  pub venues : Dict String VenueConfig
  pub risk : RiskSection
  pub execution : ExecutionSection
  pub postgres_url : String
  pub recording : RecordingSection
  pub replay : ReplaySection
  pub synthetic : SyntheticSection
  pub api_listen : String

default_venue : ℤ → ℤ → ℤ → String → String → VenueConfig
unfolding bytes_of
default_venue taker maker outbound base quote = record {
  enabled = true;
  taker_bps = taker;
  maker_bps = maker;
  outbound_us = outbound;
  initial_base = bytes_of base;
  initial_quote = bytes_of quote;
}

-- `Default`
unfoldable pub default : Config
unfolding default_venue bytes_of
default = record {
  mode = mode_synthetic;
  symbols = "BTC-USDT" ∷ [];
  venues =
      ("binance", default_venue (pos 10) (pos 10) (pos 5000) "2" "100000")
      ∷ ("okx", default_venue (pos 10) (pos 8) (pos 7000) "3" "200000")
      ∷ ("bybit", default_venue (pos 10) (pos 10) (pos 6000) "1" "150000")
      ∷ [];
  risk = record {
    max_trade_notional_usd = bytes_of "10000";
    max_symbol_exposure_usd = bytes_of "25000";
    max_venue_exposure_usd = bytes_of "50000";
    max_total_exposure_usd = bytes_of "100000";
    max_quote_age_ms = pos 750;
    min_edge_bps = pos 3;
    min_profit_usd = bytes_of "1";
    max_outstanding_orders = pos 64;
    max_consecutive_fails = pos 10;
    daily_loss_limit_usd = bytes_of "1000";
    kill_switch = false;
  };
  execution = record {
    mode = "simulation";
    latency_mode = "fixed";
    policy = "parallel";
    trade_qty = bytes_of "0.01";
    slippage_bps = pos 1;
    seed = pos 0;
  };
  postgres_url = "";
  recording = record { enabled = false; path = "" };
  replay = record { file = ""; speed = "" };
  synthetic = record { seed = pos 42; events_per_sec = pos 200; gap_every = pos 0 };
  api_listen = "127.0.0.1:8471";
}

pub data ConfigError : Type 0 where
  unknown_mode : Mode → ConfigError
  no_symbols no_venues : ConfigError
  unknown_venue : String → ConfigError
  initial_base initial_quote : String → ParseError → ConfigError
  trade_quantity : ParseError → ConfigError
  live_execution : ConfigError

-- The modes and the venues that the two switches name.
abbrev pub is_mode : Mode → Bool
is_mode m = m == mode_live_sim || (m == mode_replay || m == mode_synthetic)

abbrev pub is_venue : String → Bool
is_venue v = v == venue_binance || (v == venue_okx || (v == venue_bybit || v == venue_synthetic))

abbrev pub any_enabled : Dict String VenueConfig → Bool
any_enabled [] = false
any_enabled ((_, v) ∷ vs) = v.enabled || any_enabled vs

abbrev pub error_of : Try ParseError Fixed → Option ParseError
error_of (ok _) = none
error_of (fails e) = some e

-- The error of a text that `decimal.Parse` refuses; the caller goes on after none.
unfoldable pub refusal : Bytes → Option ParseError
unfolding parse
refusal s = error_of (parse s)

abbrev pub refusal_unless_empty : Bytes → Option ParseError
refusal_unless_empty s = if is_empty s then none else refusal s

abbrev pub or_else : Option ConfigError → Option ConfigError → Option ConfigError
or_else (some e) _ = some e
or_else none next = next

abbrev pub wrapped : (ParseError → ConfigError) → Option ParseError → Option ConfigError
wrapped f none = none
wrapped f (some e) = some (f e)

abbrev pub check_venue : String → VenueConfig → Option ConfigError
check_venue k v =
    if not (is_venue k)
    then some (unknown_venue k)
    else or_else (wrapped (initial_base k) (refusal_unless_empty v.initial_base))
        (wrapped (initial_quote k) (refusal_unless_empty v.initial_quote))

unfoldable pub check_venues : Dict String VenueConfig → Option ConfigError
check_venues [] = none
check_venues ((k, v) ∷ vs) = or_else (check_venue k v) (check_venues vs)

abbrev pub no_names : List String → Bool
no_names [] = true
no_names (_ ∷ _) = false

-- `Validate`
unfoldable pub validate : Config → Option ConfigError
unfolding check_venues
validate c =
    if not (is_mode c.mode)
    then some (unknown_mode c.mode)
    else if no_names c.symbols
    then some no_symbols
    else if not (any_enabled c.venues)
    then some no_venues
    else or_else (check_venues c.venues) (wrapped trade_quantity (refusal c.execution.trade_qty))

-- The environment: an unset variable is empty, and `live` is what strings.EqualFold says of
-- `ENABLE_LIVE_EXECUTION` and `true`.
pub record Environment : Type 0 where
  pub postgres_url : String
  pub api_listen : String
  pub mode : String
  pub live : Bool

abbrev pub overridden : String → String → String
overridden value old = if value == "" then old else value

abbrev pub override : Environment → Config → Config
override env c = record c {
  postgres_url = overridden env.postgres_url c.postgres_url;
  api_listen = overridden env.api_listen c.api_listen;
  mode = overridden env.mode c.mode;
}

load_checked : Config → Option ConfigError → Try ConfigError Config
load_checked c none = ok c
load_checked c (some e) = fails e

-- `Load`, after the file.
unfoldable pub load : Environment → Config → Try ConfigError Config
unfolding validate load_checked
load env file =
    let c = override env file in
    if env.live then fails live_execution else load_checked c (validate c)

-- `MaxQuoteAge`
unfoldable pub max_quote_age : Config → Duration
max_quote_age c = wrap64 (c.risk.max_quote_age_ms *ℤ pos 1000000)

abbrev pub is_enabled : Option VenueConfig → Bool
is_enabled none = false
is_enabled (some v) = v.enabled

enabled_among : Dict String VenueConfig → List Venue → List Venue
enabled_among vs [] = []
enabled_among vs (v ∷ rest) =
    if is_enabled (lookup v vs) then v ∷ enabled_among vs rest else enabled_among vs rest

-- `EnabledVenues`
abbrev pub venue_order : List Venue
venue_order = venue_binance ∷ venue_okx ∷ venue_bybit ∷ venue_synthetic ∷ []

unfoldable pub enabled_venues : Config → List Venue
unfolding enabled_among
enabled_venues c = enabled_among c.venues venue_order
