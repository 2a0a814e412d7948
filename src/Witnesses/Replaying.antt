-- ===== src/Witnesses/Replaying.antt =====
-- The theorems on the replay of a recording at concrete inputs.
use mathlib.Core.List.{Perm, Permᴰ}
use crossvenue.Base.{
  ℕ, false, true, String, List, [], ◌∷◌, Bool, none, some, string_eq, ltb, ◌≡◌, refl, arith,
}
use crossvenue.Base.Int.{pos}
use crossvenue.Base.Dict.{insert, lookup}
use crossvenue.Base.Outcome.{returns, ◌>>=◌}
use crossvenue.Base.Try.{Try, ok, fails}
use crossvenue.Decimal.Text.{parse, scale_up}
use crossvenue.Config.{default, validate, refusal}
use crossvenue.Replay.{record_all, new_recorder, stream}
use crossvenue.Replay.RoundTrip.{known}
use crossvenue.Seq.{new_for_venue}
use crossvenue.Engine.State.{Supervisor}
use crossvenue.Engine.Loop.{run_deterministic}
use crossvenue.Engine.Source.{Floats, play}
use crossvenue.Engine.Source.Sent.{Follows, play-Follows}
use crossvenue.Command.Replaying.{prepare, replay_main, timed, report}
use crossvenue.Command.Replaying.Printed.{replay_main-record_all}
use crossvenue.Witnesses.Texts.{plain, recorded, recorded-IsShort}
use crossvenue.Witnesses.Running.{running, times}
use crossvenue.Witnesses.Operating.{outside}

-- Floats that leave every wait as it is.
abbrev whole : Floats
whole = record {
  Float = ℕ;
  one = 1;
  is_positive = λ n. ltb 0 n;
  scan = λ s. some 10;
  shorten = λ d n. d;
}

abbrev done_later : ℕ → Bool × Bool
done_later k = (false, ltb 0 k)

play-Follows_example :
    Follows done_later (stream plain true (record_all plain recorded (new_recorder plain)).lines) (
      play whole plain true "10x" done_later 0 none
        (record_all plain recorded (new_recorder plain)).lines)
play-Follows_example =
    play-Follows whole plain true "10x" done_later 0 none
      (record_all plain recorded (new_recorder plain)).lines

unfoldable supervisor_from : Try ℕ Supervisor → Supervisor
supervisor_from (ok s) = s
supervisor_from (fails _) = running

unfoldable prepared : Supervisor
unfolding supervisor_from prepare
prepared = supervisor_from (prepare outside.environment "day.recording" "10x" (pos 0) default)

prepares : prepare outside.environment "day.recording" "10x" (pos 0) default ≡ ok prepared
unfolding prepare prepared supervisor_from default parse validate refusal scale_up lookup
    new_for_venue insert
prepares = refl

abbrev books : List String
books = "okx|BTC-USDT" ∷ "bybit|BTC-USDT" ∷ []

abbrev books_again : List String
books_again = "bybit|BTC-USDT" ∷ "okx|BTC-USDT" ∷ []

any_order : Perm books books_again
any_order = ∣ Permᴰ.swap refl refl ∣₁

replay_main-record_all_example :
    replay_main whole plain outside.environment default "day.recording" "10x"
      (pos 0)
      true
      false
      (λ k. times)
      (record_all plain recorded (new_recorder plain)).lines
      books
      times
    ≡ (run_deterministic plain (timed (λ k. times) 0 (known recorded)) none prepared >>= λ r.
        returns (ok (report books_again times r.1)))
replay_main-record_all_example =
    replay_main-record_all whole plain outside.environment default "day.recording" "10x" (pos 0)
      (λ k. times) recorded books books_again times prepared prepares (ground arith)
      recorded-IsShort any_order
