-- ===== src/Venue/Connection.antt =====
-- internal/venue/wsbase/wsbase.go: the state of a reconnecting connection and its waits. The
-- WebSocket (github.com/coder/websocket) and the heartbeat goroutine are left out; the read loop is
-- Venue/Session. Each method that takes the lock is one step.
use crossvenue.Base.{
  ℕ, ◌+◌, ◌*◌, ◌/◌, ◌%◌, ◌^◌, ◌≤◌, ◌<◌, Bool, true, false, List, [], ◌∷◌, if◌then◌else◌, ltb, arith,
}
use crossvenue.Base.Int.{ℤ, pos, leb_ℤ}
use crossvenue.Domain.{Time, MarketEvent, snapshot, delta, trade, other}
use crossvenue.Manager.{Duration}

-- `domain.VenueHealth`; a time that was never set is zero.
pub record Health : Type 0 where
  pub connected : Bool
  pub last_message_at : Time
  pub last_book_update : Time
  pub reconnects : ℕ  -- uint64
  pub sequence_gaps : ℕ
  pub resyncs : ℕ
  pub stale : Bool

-- `Conn`: the signal that the channel holds, and the two atomics.
pub record Conn : Type 0 where
  pub ping_interval : Duration
  pub max_backoff : Duration
  pub out_queue : ℤ
  pub health : Health
  pub reconnects : ℕ
  pub closed : Bool
  pub force_reconnect : Bool

abbrev or_default : ℤ → ℤ → ℤ
or_default n d = if leb_ℤ n (pos 0) then d else n

-- `New`, on the three numbers of its configuration that have defaults.
unfoldable pub new_conn : Duration → Duration → ℤ → Conn
new_conn ping backoff queue = record {
  ping_interval = or_default ping (pos 30000000000);
  max_backoff = or_default backoff (pos 30000000000);
  out_queue = or_default queue (pos 4096);
  health = record {
    connected = false;
    last_message_at = pos 0;
    last_book_update = pos 0;
    reconnects = 0;
    sequence_gaps = 0;
    resyncs = 0;
    stale = false;
  };
  reconnects = 0;
  closed = false;
  force_reconnect = false;
}

-- `RequestResync`: a second signal before the first is taken is dropped.
unfoldable pub request_resync : Conn → Conn
request_resync c = record c { force_reconnect = true }

-- The `select` of the read loop: whether the session ends for a resync.
unfoldable pub take_resync : Conn → Conn × Bool
take_resync c = (record c { force_reconnect = false }, c.force_reconnect)

-- `Health`
unfoldable pub health_of : Conn → Health
health_of c = record c.health { reconnects = c.reconnects }

-- `setConnected`
unfoldable pub set_connected : Bool → Conn → Conn
set_connected b c =
    let h = record c.health { connected = b } in
    record c { health = if b then h else record h { stale = true } }

-- `noteMessage`, with the reading of the clock.
unfoldable pub note_message : Time → Bool → Conn → Conn
note_message now is_book c =
    let h = record c.health { last_message_at = now } in
    record c { health = if is_book then record h { last_book_update = now; stale = false } else h }

-- What the read loop notes of an event.
abbrev is_book_event : MarketEvent → Bool
is_book_event (snapshot _) = true
is_book_event (delta _) = true
is_book_event (trade _) = false
is_book_event other = false

unfoldable pub note_events : Time → List MarketEvent → Conn → Conn
unfolding note_message
note_events now [] c = c
note_events now (ev ∷ evs) c = note_events now evs (note_message now (is_book_event ev) c)

-- A session that ended, in the loop of `Run`.
unfoldable pub note_reconnect : Conn → Conn
unfolding set_connected
note_reconnect c =
    let c' = set_connected false c in record c' { reconnects = (c'.reconnects + 1) % 2 ^ 64 }

-- The waits of `Run`, in nanoseconds: the first backoff, the wait with the random number below
-- half of the backoff and one, and the backoff that follows.
abbrev pub first_backoff : ℕ
first_backoff = 250000000

unfoldable pub wait : ℕ → ℕ → ℕ
wait backoff jitter = backoff / 2 + jitter

unfoldable pub next_backoff : ℕ → ℕ → ℕ
next_backoff most backoff = if ltb most (backoff * 2) then most else backoff * 2

-- `Close`
unfoldable pub close_conn : Conn → Conn
close_conn c = record c { closed = true }

-- Each wait lies between half of its backoff and the whole of it, and the backoff that follows
-- is at most the cap and at least the one before, up to the cap.
pub next_backoff-wait :
    (most backoff jitter : ℕ)
    → jitter < backoff / 2 + 1
    → backoff ≤ most
    → (backoff / 2 ≤ wait backoff jitter)
      × (wait backoff jitter ≤ backoff)
      × (next_backoff most backoff ≤ most)
      × (backoff ≤ next_backoff most backoff)
unfolding wait next_backoff
next_backoff-wait most backoff jitter h k = ground arith
