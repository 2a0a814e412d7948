-- ===== src/Command/Starting.antt =====
-- What a start of cmd/crossvenue/main.go has settled before the supervisor runs.
use crossvenue.Base.{[], map, string_eq, ◌≡◌, ◌≢◌, ◌⊎◌}
use crossvenue.Base.Lists.{All}
use crossvenue.Journal.{new as new_journal}
use crossvenue.Base.Try.{Try}
use crossvenue.Domain.{venue_binance, venue_okx, venue_bybit}
use crossvenue.Config.{Config, mode_live_sim, mode_replay, mode_synthetic, enabled_venues}
use crossvenue.Journal.{Journal}
use crossvenue.Engine.Setup.{new}
use crossvenue.Command.{Source, live, generated, recorded, no_source, Started, venues_of}

-- The source fits the mode: real venues, at least one; or a generator for each enabled venue; or
-- the recording that is named.
abbrev pub Fits : Config → Source → Type 0
Fits c (live vs symbols) =
    (c.mode ≡ mode_live_sim)
    × (vs ≢ [])
    × All (λ v. (v ≡ venue_binance) ⊎ ((v ≡ venue_okx) ⊎ (v ≡ venue_bybit))) vs
    × (symbols ≡ c.symbols)
Fits c (generated os symbols) =
    (c.mode ≡ mode_synthetic) × (map (λ o. o.venue) os ≡ enabled_venues c) × (symbols ≡ c.symbols)
Fits c (recorded file speed) = (c.mode ≡ mode_replay) × (file ≢ "") × (file ≡ c.replay.file)
Fits c no_source = ⊥

-- What a start has wired.
pub record Wired (c : Config) (st : Started) : Type 0 where
  pub cfg : st.cfg ≡ c
  pub source : Fits c st.source
  pub adapters : st.supervisor.adapters ≡ venues_of st.source
  pub venues : st.supervisor.venues ≡ enabled_venues c
