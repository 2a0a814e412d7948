-- ===== src/Witnesses/Texts.antt =====
-- The theorems on texts, recordings, the journal and the configuration at concrete inputs.
use crossvenue.Base.{
  map, false, ℕ, List, [], ◌∷◌, none, some, ◌≡◌, ◌≢◌, min, ◌++◌, ◌↔◌, refl, string_eq, arith,
}
use crossvenue.Base.Int.{pos, negsuc}
use crossvenue.Base.Dict.{lookup, IsMap}
use crossvenue.Base.Lists.{All, length}
use crossvenue.Base.Try.{ok}
use crossvenue.Decimal.Text.{parse, string, scale_up}
use crossvenue.Decimal.Text.RoundTrip.{parse-string}
use crossvenue.Domain.{MarketEvent, snapshot, delta, other}
use crossvenue.Replay.{Codec, RecordedEvent, record_all, new_recorder, stream}
use crossvenue.Replay.RoundTrip.{IsShort, known, stream-record_all}
use crossvenue.Journal.{
  Entry, Event, Journal, new, events, opportunity_id, Call, enters, sends, Calling, calls,
  take_send, trim,
}
use crossvenue.Journal.Bounded.{full_log, fan_out}
use crossvenue.Journal.Concurrent.{all_left, calls-new}
use mathlib.Core.List.{Perm}
use crossvenue.Config.{default, validate, refusal, enabled_venues}
use crossvenue.Config.Valid.{IsValid, Parses, validate-IsValid}
use crossvenue.Engine.State.{Supervisor, Payload}
use crossvenue.Engine.Setup as setup
use crossvenue.Engine.Startup.{new-IsValid}
use crossvenue.Witnesses.{delta_at, full_snapshot}

-- -1.5 is printed and read back.
parse-string_example : parse (string (negsuc 149999999)) ≡ ok (negsuc 149999999)
parse-string_example = parse-string (negsuc 149999999) (omega arith) (omega arith)

-- A codec whose lines are the envelopes.
abbrev pub plain : Codec
plain = record {
  Line = RecordedEvent;
  marshal = λ re. re;
  unmarshal = λ re. some re;
  size = λ re. 300;
  hash_start = 0;
  hash_write = λ h re. h;
  unmarshal-marshal = λ re fits. refl;
}

abbrev pub recorded : List MarketEvent
recorded = snapshot (full_snapshot "okx" (pos 10)) ∷ other ∷ delta (delta_at (pos 11) (pos 10)) ∷ []

pub recorded-IsShort : All (IsShort plain) recorded
recorded-IsShort =
    (λ n re b e. omega arith, (λ n re b e. omega arith, (λ n re b e. omega arith, tt)))

stream-record_all_example :
    stream plain false (record_all plain recorded (new_recorder plain)).lines
    ≡ (known recorded, none)
stream-record_all_example = stream-record_all plain recorded (ground arith) recorded-IsShort

abbrev entry : ℕ → Entry ℕ
entry n = record {
  type = "OrderFilled";
  venue = "okx";
  symbol = "BTC";
  aggregate_id = opportunity_id n;
  payload = n;
  now = pos n;
}

abbrev three_entries : List (Entry ℕ)
three_entries = entry 5 ∷ entry 6 ∷ entry 7 ∷ []

-- Three calls, the second of which sends before the first.
abbrev three_calls : List (Call ℕ)
three_calls = enters (entry 5) ∷ enters (entry 6) ∷ sends 1 ∷ enters (entry 7) ∷ sends 0 ∷ []

abbrev kept : Calling ℕ
kept = calls three_calls (record (new (9 ∷ [])) { max_events = pos 2 }, [])

sent_out_of_order : map (λ x. x.1.id) kept.0.appended ≡ 2 ∷ 1 ∷ []
unfolding calls take_send trim
sent_out_of_order = refl

-- Of three entries a journal bounded by two keeps the last two, and one send is left.
calls-new_example :
    (dropped : List (Event ℕ)) × (full_log 0 three_entries ≡ dropped ++ events kept.0)
    × (length (events kept.0) ≡ min 2 (length three_entries))
    × Perm (kept.0.appended ++ all_left kept.1) (fan_out (9 ∷ []) (full_log 0 three_entries))
calls-new_example = calls-new (9 ∷ []) 2 three_calls (omega arith)

pub default-IsMap : IsMap default.venues
unfolding default lookup
default-IsMap = (refl, (refl, (refl, tt)))

default_is_accepted : validate default ≡ none
unfolding validate default parse refusal scale_up
default_is_accepted = refl

default_profit-Parses : Parses default.risk.min_profit_usd
unfolding default parse scale_up
default_profit-Parses = (pos 100000000, refl)

validate-IsValid_example : (validate default ≡ none) ↔ IsValid default
validate-IsValid_example = validate-IsValid default default-IsMap

abbrev empty_journal : Journal Payload
empty_journal = new []

new-IsValid_example :
    (s : Supervisor) × (setup.new (pos 0) default empty_journal ≡ ok s)
    × (s.cfg ≡ default)
    × (s.venues ≡ enabled_venues default)
    × (s.venues ≢ [])
    × (s.risk.kill ≡ default.risk.kill_switch)
new-IsValid_example =
    new-IsValid (pos 0) default empty_journal default-IsMap default_is_accepted
      default_profit-Parses
