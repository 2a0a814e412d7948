-- ===== src/Engine/Source.antt =====
-- internal/engine/source.go: the replay source, which waits between the events of a recording. What
-- it takes of float64 and of fmt.Sscanf is a parameter; a context is what each `select` finds it.
pub mod Sent
use crossvenue.Base.{
  ℕ, ◌+◌, Bool, true, false, not, ◌&&◌, List, [], ◌∷◌, ◌++◌, Option, none, some, String,
  if◌then◌else◌, ◌==◌, string_eq, ◌≡◌, ◌⊎◌, inl, inr, refl, sym, ap, ◌∙◌, arith, Bool-cases,
}
use crossvenue.Base.Int.{ℤ, pos, ltb_ℤ}
use crossvenue.Base.Try.{Try, ok, fails}
use crossvenue.Domain.{Time, MarketEvent, snapshot, delta, trade, other}
use crossvenue.Manager.{Duration, since}
use crossvenue.Replay.{Codec, ReplayError, read_failed, next, stream, stream_next}
use crossvenue.Venue.{trim_suffix}

pub record Floats : Type 1 where
  pub Float : Type 0
  pub one : Float
  pub is_positive : Float → Bool
  pub scan : String → Option Float  -- `%f`
  pub shorten : Duration → Float → Duration

-- `eventRecv`; a reader gives no event of an unknown type.
unfoldable pub event_recv : MarketEvent → Time
event_recv (snapshot s) = s.receive_time
event_recv (delta d) = d.receive_time
event_recv (trade t) = t.receive_time
event_recv other = pos 0

-- How a stream ended, with what it sent and the waits before the sends.
pub data Ending : Type 0 where
  finished : Ending
  failed : ReplayError → Ending
  cancelled : Ending

abbrev pub error_of : Ending → Option ReplayError
error_of finished = none
error_of (failed e) = some e
error_of cancelled = none

pub record Played : Type 0 where
  pub sent : List MarketEvent
  pub waits : List Duration
  pub ended : Ending

abbrev pub waited : Option Duration → Played → Played
waited none p = p
waited (some d) p = record p { waits = d ∷ p.waits }

-- The two `select`s of a round, whose context is done or not, before the rounds that follow.
unfoldable pub round : Option Duration → Bool → Bool → MarketEvent → Played → Played
round wait ends_waiting ends_sending ev rest =
    if (elim wait [ none ↦ false | some _ ↦ ends_waiting ])
    then record { sent = []; waits = []; ended = cancelled }
    else if ends_sending
    then waited wait (record { sent = []; waits = []; ended = cancelled })
    else waited wait (record rest { sent = ev ∷ rest.sent })

module _ (f : Floats) where
  open f use {Float, one, is_positive, scan, shorten}

  scanned : Option Float → Float
  scanned none = one
  scanned (some x) = x

  -- The number before a last `x`, if something stands before it.
  multiplier_from : Option String → Float
  unfolding scanned
  multiplier_from none = one
  multiplier_from (some number) = if number == "" then one else scanned (scan number)

  -- `speedMultiplier`
  unfoldable pub speed_multiplier : String → Float
  unfolding multiplier_from trim_suffix
  speed_multiplier s =
      let mult = multiplier_from (trim_suffix "x" s) in if is_positive mult then mult else one

  -- The wait before an event: none for the first one, at full speed, or without a gap.
  unfoldable pub wait_before : String → Option Time → Time → Option Duration
  unfolding speed_multiplier since
  wait_before speed none recv = none
  wait_before speed (some prev) recv =
      if not (speed == "max") && ltb_ℤ (pos 0) (since recv prev)
      then some (shorten (since recv prev) (speed_multiplier speed))
      else none

  -- A round, on what the reader gives and the rounds after an event received at a time.
  unfoldable pub play_next :
      String → Bool × Bool → Option Time → (Time → Played) → Try ReplayError MarketEvent → Played
  unfolding round wait_before event_recv
  play_next speed done prev rest (fails e) = record { sent = []; waits = []; ended = failed e }
  play_next speed done prev rest (ok ev) =
      round (wait_before speed prev (event_recv ev)) done.0 done.1 ev (rest (event_recv ev))

  -- `Stream`, on the lines that are left from a round on.
  unfoldable pub play :
      (c : Codec) → Bool → String → (ℕ → Bool × Bool) → ℕ → Option Time → List c.Line → Played
  unfolding play_next next
  play c broken speed done k prev [] = record {
    sent = [];
    waits = [];
    ended = if broken then failed read_failed else finished;
  }
  play c broken speed done k prev (l ∷ ls) =
      play_next speed (done k) prev (λ recv. play c broken speed done (k + 1) (some recv) ls)
        (next c broken (l ∷ ls)).1
