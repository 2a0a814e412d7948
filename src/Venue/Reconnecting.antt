-- ===== src/Venue/Reconnecting.antt =====
-- `Run` of internal/venue/wsbase/wsbase.go: the sessions of a connection, one after the other. What
-- the network and the other goroutines do in a round is an argument.
pub mod Backoff
use crossvenue.Base.{
  ℕ, ◌+◌, ◌/◌, ◌<◌, Bool, true, false, ◌||◌, List, [], ◌∷◌, ◌++◌, String, if◌then◌else◌,
}
use crossvenue.Base.Int.{pos_part}
use crossvenue.Base.Try.{Try}
use crossvenue.Domain.{Time, MarketEvent}
use crossvenue.Venue.{WireError}
use crossvenue.Venue.Connection.{
  Conn, set_connected, note_reconnect, close_conn, wait, next_backoff, first_backoff,
}
use crossvenue.Venue.Session.{Input, session}

pub record Round : Type 0 where
  pub done_before : Bool  -- whether the context is done at the head of the loop
  pub subscribes : Bool  -- whether the server is dialled and takes the frames
  pub inputs : List Input
  pub closes : Bool  -- whether `Close` is called in the session
  pub done_after : Bool
  pub int63n : ℕ → ℕ
  pub int63n-lt : (n : ℕ) → 0 < n → int63n n < n
  pub done_waiting : Bool

pub record Ran : Type 0 where
  pub conn : Conn
  pub sent : List MarketEvent
  pub waits : List ℕ

abbrev closed_if : Bool → Conn → Conn
closed_if b c = if b then close_conn c else c

module _ (handle : Time → String → Try WireError (List MarketEvent)) where
  -- `session`
  unfoldable pub session_of : Round → Conn → Conn × List MarketEvent
  unfolding session set_connected close_conn
  session_of r c =
      let ended = session handle r.inputs (set_connected true c) in
      if r.subscribes then (closed_if r.closes ended.0, ended.1) else (closed_if r.closes c, [])

  -- The loop, up to a cap, from a backoff on.
  unfoldable pub run : ℕ → ℕ → List Round → Conn → Ran
  unfolding session_of set_connected note_reconnect wait next_backoff
  run most backoff [] c = record { conn = c; sent = []; waits = [] }
  run most backoff (r ∷ rs) c =
      let ended = session_of r c in
      let pause = wait backoff (r.int63n (backoff / 2 + 1)) in
      let dropped = note_reconnect ended.0 in
      let rest = run most (next_backoff most backoff) rs dropped in
      if r.done_before || c.closed
      then record { conn = c; sent = []; waits = [] }
      else if r.done_after || ended.0.closed
      then record { conn = set_connected false ended.0; sent = ended.1; waits = [] }
      else if r.done_waiting
      then record { conn = dropped; sent = ended.1; waits = pause ∷ [] }
      else record { conn = rest.conn; sent = ended.1 ++ rest.sent; waits = pause ∷ rest.waits }

  -- `Run`; the cap that `New` leaves is positive.
  unfoldable pub run_conn : List Round → Conn → Ran
  unfolding run
  run_conn rs c = run (pos_part c.max_backoff) first_backoff rs c
