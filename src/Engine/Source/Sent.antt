-- ===== src/Engine/Source/Sent.antt =====
-- What the replay source of internal/engine/source.go sends, whatever its speed.
use crossvenue.Base.{
  ℕ, ◌+◌, Bool, true, false, List, [], ◌∷◌, ◌++◌, Option, none, some, String, ◌≡◌, ◌⊎◌, inl, inr,
  refl, ap,
}
use crossvenue.Base.Try.{Try-cases}
use crossvenue.Domain.{Time, MarketEvent}
use crossvenue.Manager.{Duration}
use crossvenue.Replay.{Codec, ReplayError, next, stream, stream_next}
use crossvenue.Engine.Source.{
  Floats, cancelled, error_of, Played, round, wait_before, event_recv, play, play_next,
}

-- The context was done at a `select`.
abbrev pub IsDone : (ℕ → Bool × Bool) → Type 0
IsDone done = (j : ℕ) × (((done j).0 ≡ true) ⊎ ((done j).1 ≡ true))

-- What was sent begins the events of the stream; the stream ended there, with the same error, or
-- the context was done.
abbrev pub Follows : (ℕ → Bool × Bool) → List MarketEvent × Option ReplayError → Played → Type 0
Follows done whole p =
    ((rest : List MarketEvent) × (whole.0 ≡ p.sent ++ rest))
    × (((p.ended ≡ cancelled) × IsDone done) ⊎ (whole ≡ (p.sent, error_of p.ended)))

one_more :
    (done : ℕ → Bool × Bool) (ev : MarketEvent) (whole : List MarketEvent × Option ReplayError)
    (p : Played)
    → Follows done whole p
    → Follows done (ev ∷ whole.0, whole.1) (record p { sent = ev ∷ p.sent })
one_more done ev whole p ((rest, h), inl stopped) = ((rest, ap (λ es. ev ∷ es) h), inl stopped)
one_more done ev whole p ((rest, h), inr same) =
    ((rest, ap (λ es. ev ∷ es) h), inr (ap (λ w. (ev ∷ w.0, w.1)) same))

round-Follows :
    (done : ℕ → Bool × Bool) (w : Option Duration) (a b : Bool) (ev : MarketEvent)
    (whole : List MarketEvent × Option ReplayError) (p : Played)
    → (a ≡ true → IsDone done)
    → (b ≡ true → IsDone done)
    → Follows done whole p
    → Follows done (ev ∷ whole.0, whole.1) (round w a b ev p)
unfolding round
round-Follows done none a true ev whole p i j h = ((_, refl), inl (refl, j refl))
round-Follows done none a false ev whole p i j h = one_more done ev whole p h
round-Follows done (some d) true b ev whole p i j h = ((_, refl), inl (refl, i refl))
round-Follows done (some d) false true ev whole p i j h = ((_, refl), inl (refl, j refl))
round-Follows done (some d) false false ev whole p i j h = one_more done ev whole p h

-- At any speed, the events that the source sends begin those of the recording, in their order: all
-- of them, with the error that ends the recording, if any, unless its context was done.
pub play-Follows :
    (f : Floats) (c : Codec) (broken : Bool) (speed : String) (done : ℕ → Bool × Bool) (k : ℕ)
    (prev : Option Time) (ls : List c.Line)
    → Follows done (stream c broken ls) (play f c broken speed done k prev ls)
unfolding play stream stream_next play_next
play-Follows f c true speed done k prev [] = (([], refl), inr refl)
play-Follows f c false speed done k prev [] = (([], refl), inr refl)
play-Follows f c broken speed done k prev (l ∷ ls) = elim (Try-cases (next c broken (l ∷ ls)).1) [
  | inl (ev, h) ↦
      let at = event_recv ev in
      rw h (
        round-Follows done (wait_before f speed prev at) (done k).0 (done k).1 ev
          (stream c broken ls) (play f c broken speed done (k + 1) (some at) ls) (λ e. (k, inl e))
          (λ e. (k, inr e)) (play-Follows f c broken speed done (k + 1) (some at) ls))
  | inr (e, h) ↦ rw h (([], refl), inr refl)
]
