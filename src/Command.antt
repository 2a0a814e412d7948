-- ===== src/Command.antt =====
-- cmd/crossvenue/main.go: what happens before and after `Supervisor.Run`. An exit is its code. What
-- the operating system and the database answer is a parameter, `Outside`.
pub mod Starting
pub mod Loadgen
pub mod Replaying
use crossvenue.Base.{
  ℕ, ◌*◌, ◌+◌, Bool, true, false, not, ◌&&◌, ◌||◌, Option, none, some, List, [], ◌∷◌, map, String,
  if◌then◌else◌, ◌==◌, string_eq,
}
use crossvenue.Base.Int.{ℤ, pos, ◌+ℤ◌, eqb_ℤ}
use crossvenue.Base.Try.{Try, ok, fails, ◌>>=◌}
use crossvenue.Decimal.{wrap64}
use crossvenue.Domain.{Venue, Time, venue_binance, venue_okx, venue_bybit}
use crossvenue.Config.{
  Config, ConfigError, Environment, mode_live_sim, mode_replay, mode_synthetic, load, validate,
  enabled_venues,
}
use crossvenue.Journal.{new as new_journal}
use crossvenue.Venue.Synthetic.{Options}
use crossvenue.Portfolio.{balances, positions}
use crossvenue.Storage.{Numeric, Answer, Tables, save_portfolio}
use crossvenue.Engine.State.{Supervisor}
use crossvenue.Engine.Setup.{SetupError, new}
use crossvenue.Engine.Loop.{attach_adapters}

pub record Flags : Type 0 where
  pub mode : String
  pub recording : String
  pub speed : String
  pub seed : ℤ
  pub record_events : Bool

pub record Outside : Type 0 where
  pub environment : Environment
  pub store_opens : Bool
  pub schema_found : Bool
  pub migrates : Bool
  pub directory_made : Bool
  pub recorder_opens : Bool
  pub default_recording : String  -- the path with the time in it

-- The event source of a mode.
pub data Source : Type 0 where
  live : List Venue → List String → Source
  generated : List Options → List String → Source
  recorded : String → String → Source
  no_source : Source

pub record Started : Type 0 where
  pub cfg : Config
  pub supervisor : Supervisor
  pub source : Source
  pub has_store : Bool
  pub recording : Option String

-- The overrides of the flags.
unfoldable pub apply_flags : Flags → Config → Config
apply_flags f c = record c {
  mode = if f.mode == "" then c.mode else f.mode;
  synthetic = if eqb_ℤ f.seed (pos 0) then c.synthetic else record c.synthetic { seed = f.seed };
  replay = record {
    file = if f.recording == "" then c.replay.file else f.recording;
    speed = if f.speed == "" then c.replay.speed else f.speed;
  };
}

abbrev pub exit_on {ℓ κ} : {E : Type ℓ} {A : Type κ} → ℕ → Try E A → Try ℕ A
exit_on code (ok a) = ok a
exit_on code (fails e) = fails code

abbrev pub checked : Config → Option ConfigError → Try ℕ Config
checked c none = ok c
checked c (some e) = fails 2

-- The database, if it is configured: the numbers of the journal's sinks.
unfoldable pub open_storage : Outside → Config → Try ℕ (List ℕ)
open_storage out c =
    if c.postgres_url == ""
    then ok []
    else if not out.store_opens
    then fails 1
    else if out.schema_found && not out.migrates
    then fails 1
    else ok (0 ∷ [])

-- The recorder, if it is asked for, and its path.
unfoldable pub open_recording : Outside → Flags → Config → Try ℕ (Option String)
open_recording out f c =
    if f.record_events || c.recording.enabled
    then (if out.directory_made && out.recorder_opens
        then ok (some (if c.replay.file == "" then out.default_recording else c.replay.file))
        else fails 1)
    else ok none

-- The adapters of the live mode.
abbrev pub is_real : Venue → Bool
is_real v = v == venue_binance || (v == venue_okx || v == venue_bybit)

unfoldable pub real_venues : List Venue → List Venue
real_venues [] = []
real_venues (v ∷ vs) = if is_real v then v ∷ real_venues vs else real_venues vs

-- The generators of the synthetic mode, with the number of the venue in the list.
abbrev pub options_for : Config → ℕ → Venue → Options
options_for c i v = record {
  venue = v;
  seed = wrap64 (c.synthetic.seed +ℤ pos (i * 7919));
  base_price = pos 0;
  events_per_sec = c.synthetic.events_per_sec;
  volatility_bps = pos 0;
  depth_levels = pos 0;
  gap_every = c.synthetic.gap_every;
  manual_time = false;
  start_time = pos 0;
  has_start = false;
}

unfoldable pub generators : Config → ℕ → List Venue → List Options
generators c i [] = []
generators c i (v ∷ vs) = options_for c i v ∷ generators c (i + 1) vs

live_source : Config → List Venue → Try ℕ Source
live_source c [] = fails 2
live_source c (v ∷ vs) = ok (live (v ∷ vs) c.symbols)

-- The switch on the mode.
unfoldable pub choose_source : Config → Try ℕ Source
unfolding live_source real_venues generators
choose_source c =
    if c.mode == mode_live_sim
    then live_source c (real_venues (enabled_venues c))
    else if c.mode == mode_synthetic
    then ok (generated (generators c 0 (enabled_venues c)) c.symbols)
    else if c.mode == mode_replay
    then (if c.replay.file == "" then fails 2 else ok (recorded c.replay.file c.replay.speed))
    else ok no_source

abbrev pub venues_of : Source → List Venue
venues_of (live vs _) = vs
venues_of (generated os _) = map (λ o. o.venue) os
venues_of (recorded _ _) = []
venues_of no_source = []

-- `main`, from the flags to the configuration, on what the file holds.
unfoldable pub configure : Outside → Flags → Config → Try ℕ Config
unfolding load validate apply_flags
configure out f file = do
  loaded ← exit_on 2 (load out.environment file)
  checked (apply_flags f loaded) (validate (apply_flags f loaded))

-- From there to the call of `Run`.
unfoldable pub wire : Outside → Flags → Time → Config → Try ℕ Started
unfolding open_storage open_recording choose_source new
wire out f now cfg = do
  sinks ← open_storage out cfg
  s ← exit_on 1 (new now cfg (new_journal sinks))
  recording ← open_recording out f cfg
  source ← choose_source cfg
  ok (record {
    cfg = cfg;
    supervisor = attach_adapters (venues_of source) s;
    source = source;
    has_store = not (cfg.postgres_url == "");
    recording = recording;
  })

unfoldable pub start : Outside → Flags → Time → Config → Try ℕ Started
unfolding configure wire
start out f now file = do cfg ← configure out f file; wire out f now cfg

-- `main` after `Run`: the portfolio is saved if there is a database, and an error of the run that
-- no signal brought about is the exit code.
unfoldable pub persist : (n : Numeric) → (ℕ → Answer) → Bool → Supervisor → Tables n → Tables n
unfolding save_portfolio balances positions
persist n answers has_store s t =
    if has_store then (save_portfolio n answers (balances s.ledger) (positions s.ledger) t).0 else t

abbrev pub exit_code : Bool → Bool → ℕ
exit_code run_failed interrupted = if run_failed && not interrupted then 1 else 0
