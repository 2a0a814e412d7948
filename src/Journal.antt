-- ===== src/Journal.antt =====
-- internal/journal/journal.go: the bounded event log. The lock makes each method one step,
-- but for the calls of the sinks, which `RecordFull` makes when it has given the lock back. The type
-- of payloads, Go's map of any values, is a parameter; a durable sink is its number, and the
-- calls of `Append` are kept in their order, since an error of a sink is dropped.
pub mod Bounded
pub mod Concurrent
use crossvenue.Base.{
  ℕ, zero, suc, ◌+◌, ◌-◌, ◌*◌, ◌%◌, ◌^◌, Bool, true, false, ◌&&◌, List, [], ◌∷◌, ◌++◌, map, String,
  if◌then◌else◌, ltb,
}
use crossvenue.Base.Int.{ℤ, pos, pos_part, ltb_ℤ}
use crossvenue.Base.Lists.{length, drop}
use crossvenue.Decimal.Text.{format_int}
use crossvenue.Domain.{Venue, Time}
use crossvenue.Fnv.{Bytes, bytes_of, start, mix_text}

-- An aggregate's id: the empty text, `opp-` and a number, or `ord-` and a number.
pub data Aggregate : Type 0 where
  no_aggregate : Aggregate
  opportunity_id order_id : ℕ → Aggregate

unfoldable pub aggregate_bytes : Aggregate → Bytes
unfolding bytes_of format_int
aggregate_bytes no_aggregate = []
aggregate_bytes (opportunity_id n) = bytes_of "opp-" ++ format_int (pos n)
aggregate_bytes (order_id n) = bytes_of "ord-" ++ format_int (pos n)

module _ (P : Type 0) where
  pub record Event : Type 0 where
    pub id : ℕ  -- uint64
    pub type : String
    pub venue : Venue
    pub symbol : String
    pub aggregate_id : Aggregate
    pub payload : P
    pub occurred_at : Time
    pub recorded_at : Time

  pub record Journal : Type 0 where
    pub seq : ℕ  -- uint64
    pub events : List Event
    pub sinks : List ℕ
    pub max_events : ℤ
    pub appended : List (ℕ × Event)

  -- What is asked to be recorded, with the time `time.Now()` gives.
  pub record Entry : Type 0 where
    pub type : String
    pub venue : Venue
    pub symbol : String
    pub aggregate_id : Aggregate
    pub payload : P
    pub now : Time

  -- Calls of `RecordFull` by several goroutines: one is entered, or the call with a number makes the
  -- first of the sends that are left to it.
  pub data Call : Type 0 where
    enters : Entry → Call
    sends : ℕ → Call

  -- The journal, and what is left to each call.
  abbrev pub Calling : Type 0
  Calling = Journal × List (List (ℕ × Event))

-- The first of what is left to the call with a number, and what is left behind it.
unfoldable pub take_send {ℓ} : {A : Type ℓ} → ℕ → List (List A) → List A × List (List A)
take_send k [] = ([], [])
take_send zero ([] ∷ qs) = ([], [] ∷ qs)
take_send zero ((x ∷ q) ∷ qs) = (x ∷ [], q ∷ qs)
take_send (suc k) (q ∷ qs) = let (sent, rest) = take_send k qs in (sent, q ∷ rest)

module _ {P : Type 0} where
  -- `New`
  abbrev pub new : List ℕ → Journal P
  new sinks = record { seq = 0; events = []; sinks = sinks; max_events = pos 0; appended = [] }

  abbrev pub event_of : ℕ → Entry P → Event P
  event_of n e = record {
    id = n;
    type = e.type;
    venue = e.venue;
    symbol = e.symbol;
    aggregate_id = e.aggregate_id;
    payload = e.payload;
    occurred_at = e.now;
    recorded_at = e.now;
  }

  -- `events[len(events)-max:]` where there are more than the bound.
  unfoldable pub trim : ℤ → List (Event P) → List (Event P)
  trim max_events es =
      if ltb_ℤ (pos 0) max_events && ltb_ℤ max_events (pos (length es))
      then drop (length es - pos_part max_events) es
      else es

  -- What `RecordFull` does under its lock: the event, and the journal with it.
  abbrev pub record_locked : Entry P → Journal P → Event P × Journal P
  record_locked e j =
      let n = (j.seq + 1) % 2 ^ 64 in
      let ev = event_of n e in
      (ev, record j { seq = n; events = trim j.max_events (j.events ++ (ev ∷ [])) })

  -- The calls of `Append` that are left to it when it has given the lock back.
  abbrev pub sends_of : Event P → List ℕ → List (ℕ × Event P)
  sends_of ev sinks = map (λ s. (s, ev)) sinks

  -- `RecordFull`, if no other call sends between.
  unfoldable pub record_full : Entry P → Journal P → Journal P
  unfolding trim
  record_full e j =
      let (ev, j') = record_locked e j in
      record j' { appended = j'.appended ++ sends_of ev j'.sinks }

  unfoldable pub calls : List (Call P) → Calling P → Calling P
  unfolding trim take_send
  calls [] (j, left) = (j, left)
  calls (enters e ∷ cs) (j, left) =
      let (ev, j') = record_locked e j in calls cs (j', left ++ (sends_of ev j'.sinks ∷ []))
  calls (sends k ∷ cs) (j, left) =
      let (sent, rest) = take_send k left in
      calls cs (record j { appended = j.appended ++ sent }, rest)

  -- `Record`
  abbrev pub record_plain : String → Venue → String → P → Time → Journal P → Journal P
  record_plain t v s payload now j =
      record_full
        (record {
          type = t;
          venue = v;
          symbol = s;
          aggregate_id = no_aggregate;
          payload = payload;
          now = now;
        })
        j

  -- `Events`
  abbrev pub events : Journal P → List (Event P)
  events j = j.events

  -- The loop of `Digest`.
  mix_events : List (Event P) → ℕ → ℕ
  unfolding mix_text bytes_of aggregate_bytes
  mix_events [] h = h
  mix_events (e ∷ es) h = mix_events es (
      mix_text (aggregate_bytes e.aggregate_id)
        (mix_text (bytes_of e.symbol) (mix_text (bytes_of e.venue) (mix_text (bytes_of e.type) h))))

  unfoldable pub digest : Journal P → ℕ
  unfolding mix_events
  digest j = mix_events j.events start
