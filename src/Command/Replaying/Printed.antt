-- ===== src/Command/Replaying/Printed.antt =====
-- What cmd/replay/main.go prints of a recording.
use crossvenue.Base.{ℕ, true, false, List, none, String, ◌≡◌, inl, inr, refl, sym, ap, ◌∙◌}
use mathlib.Core.List.{Perm}
use crossvenue.Base.Lists.{All}
use crossvenue.Base.Outcome.{returns, ◌>>=◌}
use crossvenue.Base.Texts.{sort_texts-perm}
use crossvenue.Base.Try.{ok}
use crossvenue.Domain.{Time, MarketEvent}
use crossvenue.Replay.{Codec, new_recorder, record_all, stream}
use crossvenue.Replay.RoundTrip.{InRange, IsShort, known, stream-record_all}
use crossvenue.Engine.State.{Times, Supervisor}
use crossvenue.Engine.Loop.{run_deterministic}
use crossvenue.Engine.Source.{Floats, Played, error_of, play}
use crossvenue.Engine.Source.Sent.{Follows, play-Follows}
use crossvenue.Command.Replaying.{report, timed, replay, replay_from, replay_main, prepare, printed}
use crossvenue.Config.{Config, Environment}

report-perm :
    (ks ls : List String) (t : Times) (s : Supervisor) → Perm ks ls → report ks t s ≡ report ls t s
unfolding report
report-perm ks ls t s p = rw (sort_texts-perm ks ls p) refl

-- A recording is replayed as the events themselves, without an error.
play-record_all :
    (f : Floats) (c : Codec) (speed : String) (evs : List MarketEvent) (p : Played)
    → All InRange evs
    → All (IsShort c) evs
    → Follows (λ _. (false, false)) (stream c false (record_all c evs (new_recorder c)).lines) p
    → (p.sent ≡ known evs) × (error_of p.ended ≡ none)
play-record_all f c speed evs p h short (_, inl (_, (j, inl e))) = cc
play-record_all f c speed evs p h short (_, inl (_, (j, inr e))) = cc
play-record_all f c speed evs p h short (_, inr same) =
    let e = sym same ∙ stream-record_all c evs h short in (ap (λ w. w.0) e, ap (λ w. w.1) e)

-- A replay command that gets as far as the run, on the file of a recorder that can be read and
-- whose lines are shorter than 4 MiB, prints (or panics) as a run of the recorded events themselves
-- would with the same readings of the clocks, whatever waits its speed puts between the events, and
-- in whatever order Go lists the map of the books' digests.
pub replay_main-record_all :
    (f : Floats) (c : Codec) (env : Environment) (file : Config) (path speed : String) (now : Time)
    (clocks : ℕ → Times) (evs : List MarketEvent) (ks ls : List String) (t : Times) (s : Supervisor)
    → prepare env path speed now file ≡ ok s
    → All InRange evs
    → All (IsShort c) evs
    → Perm ks ls
    → replay_main f c env file path speed now true false clocks
        (record_all c evs (new_recorder c)).lines
        ks
        t
      ≡ (run_deterministic c (timed clocks 0 (known evs)) none s >>= λ r.
          returns (ok (report ls t r.1)))
unfolding replay_main replay_from replay
replay_main-record_all f c env file path speed now clocks evs ks ls t s made h short p =
    let lines = (record_all c evs (new_recorder c)).lines in
    let played = play f c false speed (λ _. (false, false)) 0 none lines in
    let (sent, ended) =
      play-record_all f c speed evs played h short
        (play-Follows f c false speed (λ _. (false, false)) 0 none lines) in
    rw made (λ i. run_deterministic c (timed clocks 0 (sent i)) none s >>= λ r.
    returns (printed (ended i) (report-perm ks ls t r.1 p i)))
