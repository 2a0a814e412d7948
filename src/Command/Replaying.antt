-- ===== src/Command/Replaying.antt =====
-- cmd/replay/main.go: a recording through the supervisor, and what is printed of it. What the file
-- system answers and the order in which Go lists the keys of a map are arguments.
pub mod Printed
use crossvenue.Base.{
  ℕ, zero, suc, ◌+◌, Bool, true, false, not, List, [], ◌∷◌, ◌++◌, map, Option, none, some, String,
  if◌then◌else◌, ◌==◌, string_eq,
}
use crossvenue.Base.Dict.{Dict, lookup}
use crossvenue.Base.Outcome.{Outcome, returns, ◌>>=◌}
use crossvenue.Base.Texts.{sort_texts}
use crossvenue.Base.Try.{Try, ok, fails, ◌>>=◌ as when_ok}
use crossvenue.Decimal.Text.{Bytes, string}
use crossvenue.Domain.{Time, MarketEvent}
use crossvenue.Config.{Config, Environment, mode_replay, load}
use crossvenue.Journal.{new as new_journal, digest}
use crossvenue.Replay.{Codec, ReplayError}
use crossvenue.Engine.State.{Times, Supervisor}
use crossvenue.Engine.Setup.{new}
use crossvenue.Engine.Loop.{run_deterministic, book_digests}
use crossvenue.Engine.Source.{Floats, Played, error_of, play}
use crossvenue.Command.{exit_on}

-- What the three calls of Printf print, by their arguments.
pub data Line : Type 0 where
  book_line : String → ℕ → Line
  journal_line : ℕ → Line
  realized_line : Bytes → Line

abbrev or_none : Option ℕ → ℕ
or_none none = 0
or_none (some n) = n

-- The output, with the keys of the digests as the loop over the map lists them.
unfoldable pub report : List String → Times → Supervisor → List Line
unfolding book_digests digest string sort_texts
report keys t s =
    map (λ k. book_line k (or_none (lookup k (book_digests t s)))) (sort_texts keys)
    ++ (journal_line (digest s.journal) ∷ realized_line (string s.ledger.realized) ∷ [])

-- Each event, with the readings of the clocks in its pass.
unfoldable pub timed : (ℕ → Times) → ℕ → List MarketEvent → List (Times × MarketEvent)
timed clocks k [] = []
timed clocks k (ev ∷ evs) = (clocks k, ev) ∷ timed clocks (k + 1) evs

-- The configuration with the flags in it, and the supervisor that it makes. It is not validated
-- again.
unfoldable pub prepare : Environment → String → String → Time → Config → Try ℕ Supervisor
unfolding load new
prepare env path speed now file =
    if path == ""
    then fails 2
    else when_ok (exit_on 2 (load env file)) λ cfg. exit_on 1 (
        new now (record cfg { mode = mode_replay; replay = record { file = path; speed = speed } })
          (new_journal []))

-- The error of the run is the exit code 1.
abbrev pub printed : Option ReplayError → List Line → Try ℕ (List Line)
printed none out = ok out
printed (some _) out = fails 1

module _ (f : Floats) (c : Codec) where
  -- `Run` of a supervisor that is deterministic, on a recording that opens, whose reading may
  -- fail behind its lines, and is never interrupted, and what follows it.
  unfoldable pub replay :
      Bool
      → String
      → (ℕ → Times)
      → List c.Line
      → List String
      → Times
      → Supervisor
      → Outcome (Try ℕ (List Line))
  unfolding play run_deterministic timed report
  replay broken speed clocks lines keys t s =
      let p = play f c broken speed (λ _. (false, false)) 0 none lines in
      run_deterministic c (timed clocks 0 p.sent) none s >>= λ r.
      returns (printed (error_of p.ended) (report keys t r.1))

  unfoldable pub replay_from :
      Bool
      → Bool
      → String
      → (ℕ → Times)
      → List c.Line
      → List String
      → Times
      → Try ℕ Supervisor
      → Outcome (Try ℕ (List Line))
  unfolding replay
  replay_from opens broken speed clocks lines keys t (fails code) = returns (fails code)
  replay_from opens broken speed clocks lines keys t (ok s) =
      if opens then replay broken speed clocks lines keys t s else returns (fails 1)

  -- `main`: what is printed, or the exit code.
  unfoldable pub replay_main :
      Environment
      → Config
      → String
      → String
      → Time
      → Bool
      → Bool
      → (ℕ → Times)
      → List c.Line
      → List String
      → Times
      → Outcome (Try ℕ (List Line))
  unfolding prepare replay_from
  replay_main env file path speed now opens broken clocks lines keys t =
      replay_from opens broken speed clocks lines keys t (prepare env path speed now file)
