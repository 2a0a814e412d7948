-- ===== src/Venue/Reconnecting/Backoff.antt =====
-- The waits between the sessions of internal/venue/wsbase/wsbase.go.
use crossvenue.Base.{
  ℕ, suc, ◌+◌, ◌*◌, ◌/◌, ◌%◌, ◌^◌, ◌≤◌, ◌<◌, min, Bool, true, false, ◌||◌, List, [], ◌∷◌, String,
  ◌≡◌, refl, ap, ◌∙◌, arith, inl, inr, Bool-cases,
}
use Prim.Native.Nat.pow
use mathlib.Core.Path.{subst}
use crossvenue.Base.Int.{pos_part}
use crossvenue.Base.Lists.{length}
use crossvenue.Base.Try.{Try, ok, fails}
use crossvenue.Domain.{Time, MarketEvent}
use crossvenue.Venue.{WireError}
use crossvenue.Venue.Connection.{
  Conn, set_connected, note_reconnect, note_message, note_events, take_resync, request_resync,
  close_conn, wait, next_backoff, first_backoff,
}
use crossvenue.Venue.Session.{Input, message, resync, session, noted}
use crossvenue.Venue.Reconnecting.{Round, session_of, run, run_conn}

-- The backoff before the wait with this number: 250 ms doubled so often, up to the cap.
abbrev pub backoff_at : ℕ → ℕ → ℕ
backoff_at most k = min (first_backoff * 2 ^ k) most

-- Each wait lies between half of its backoff and the whole of it.
abbrev pub Scheduled : ℕ → ℕ → List ℕ → Type 0
Scheduled most k [] = Unit
Scheduled most k (w ∷ ws) =
    (backoff_at most k / 2 ≤ w) × (w ≤ backoff_at most k) × Scheduled most (k + 1) ws

twice : (k : ℕ) → 2 ^ (k + 1) ≡ 2 ^ k * 2
twice k = ap (λ n. 2 ^ n) {x = k + 1} {y = suc k} (omega arith) ∙ pow.suc 2 k

next_at : (most k : ℕ) → next_backoff most (backoff_at most k) ≡ backoff_at most (k + 1)
unfolding next_backoff
next_at most k = rw (twice k) (ground arith)

wait-lt : (b j : ℕ) → j < b / 2 + 1 → (b / 2 ≤ wait b j) × (wait b j ≤ b)
unfolding wait
wait-lt b j h = omega arith

note_events-reconnects :
    (now : Time) (evs : List MarketEvent) (c : Conn)
    → (note_events now evs c).reconnects ≡ c.reconnects
unfolding note_events note_message
note_events-reconnects now [] c = refl
note_events-reconnects now (ev ∷ evs) c = note_events-reconnects now evs _

count : (a b n : ℕ) → a ≡ b → ((a + 1) % 2 ^ 64 + n) % 2 ^ 64 ≡ (b + suc n) % 2 ^ 64
count a b n e = rw e (omega arith)

noted-reconnects :
    (recv : Time) (room : Bool) (t : Try WireError (List MarketEvent)) (c : Conn)
    → (noted recv room t c).0.reconnects ≡ c.reconnects
unfolding noted
noted-reconnects recv room (ok evs) c = note_events-reconnects recv evs c
noted-reconnects recv room (fails e) c = refl

module _ (handle : Time → String → Try WireError (List MarketEvent)) where
  session-reconnects :
      (ins : List Input) (c : Conn) → (session handle ins c).0.reconnects ≡ c.reconnects
  unfolding session take_resync request_resync noted
  session-reconnects [] c = refl
  session-reconnects (resync ∷ ins) c = session-reconnects ins _
  session-reconnects (message recv raw room ∷ ins) c =
      let c1 = record c { force_reconnect = false } in
      elim (Bool-cases c.force_reconnect) [
        | inl dropped ↦ rw dropped refl
        | inr kept ↦ rw kept (
            session-reconnects ins (noted recv room (handle recv raw) c1).0
            ∙ noted-reconnects recv room (handle recv raw) c1)
      ]

  session_of-reconnects :
      (r : Round) (c : Conn) → (session_of handle r c).0.reconnects ≡ c.reconnects
  unfolding session_of set_connected close_conn
  session_of-reconnects r c = ground (arith, session-reconnects r.inputs (set_connected true c))

  run-Scheduled :
      (most k b : ℕ) (rs : List Round) (c : Conn)
      → b ≡ backoff_at most k
      → Scheduled most k (run handle most b rs c).waits
        × ((run handle most b rs c).conn.reconnects % 2 ^ 64
            ≡ (c.reconnects + length (run handle most b rs c).waits) % 2 ^ 64)
  unfolding run set_connected note_reconnect
  run-Scheduled most k b [] c e = (tt, ground arith)
  run-Scheduled most k b (r ∷ rs) c e =
      let ended = session_of handle r c in
      let dropped = note_reconnect ended.0 in
      let pause = wait-lt b (r.int63n (b / 2 + 1)) (r.int63n-lt (b / 2 + 1) (omega arith)) in
      let w = wait b (r.int63n (b / 2 + 1)) in
      let inside = subst (λ x. (x / 2 ≤ w) × (w ≤ x)) e pause in
      let same = session_of-reconnects r c in
      let ih =
        run-Scheduled most (k + 1) (next_backoff most b) rs dropped
          (ap (next_backoff most) e ∙ next_at most k) in
      elim (Bool-cases (r.done_before || c.closed)) [
        | inl over ↦ rw over (tt, ground arith)
        | inr goes_on ↦ elim (Bool-cases (r.done_after || ended.0.closed)) [
          | inl over ↦ rw (goes_on, over) (tt, rw same (omega arith))
          | inr lost ↦ elim (Bool-cases r.done_waiting) [
            | inl over ↦ rw (goes_on, lost, over) ((inside.0, inside.1, tt), rw same (omega arith))
            | inr again ↦
                rw (goes_on, lost, again)
                  (
                    (inside.0, inside.1, ih.0),
                    ih.1
                        ∙ count ended.0.reconnects c.reconnects
                            (length (run handle most (next_backoff most b) rs dropped).waits) same,
                  )
          ]
        ]
      ]

  -- The waits of a connection whose cap is at least 250 ms, whatever its sessions do: the backoff
  -- of each is 250 ms doubled as often as there were waits before it, up to the cap, and the wait
  -- lies between half of its backoff and the whole of it. Each wait is one reconnect that the
  -- counter of 64 bits counts.
  pub run_conn-Scheduled :
      (rs : List Round) (c : Conn)
      → first_backoff ≤ pos_part c.max_backoff
      → Scheduled (pos_part c.max_backoff) 0 (run_conn handle rs c).waits
        × ((run_conn handle rs c).conn.reconnects % 2 ^ 64
            ≡ (c.reconnects + length (run_conn handle rs c).waits) % 2 ^ 64)
  unfolding run_conn
  run_conn-Scheduled rs c h =
      run-Scheduled (pos_part c.max_backoff) 0 first_backoff rs c (ground arith)
