-- ===== src/Engine/Startup.antt =====
-- Which configurations `New` of internal/engine/engine.go starts from.
use crossvenue.Base.{
  true, none, some, List, [], ◌∷◌, String, ◌==◌, string_eq, ◌≡◌, ◌≢◌, refl, arith, Bool-cases, inl,
  inr, ◌⊎◌,
}
use crossvenue.Base.Lists.{All}
use crossvenue.Base.Dict.{Dict, IsMap}
use crossvenue.Base.Try.{ok}
use crossvenue.Decimal.{Fixed}
use crossvenue.Decimal.Text.{ParseError, is_empty}
use crossvenue.Domain.{Venue, Time, venue_binance, venue_okx, venue_bybit, venue_synthetic}
use crossvenue.Fnv.{Bytes}
use crossvenue.Seq.{Tracker, new_for_venue}
use crossvenue.Config.{Config, VenueConfig, validate, is_venue, enabled_venues, max_quote_age}
use crossvenue.Config.Valid.{Parses, EntriesAreValid, validate-IsValid, enabled_venues-known}
use crossvenue.Pipeline.{Pipeline, new_pipeline}
use crossvenue.Manager.{new_manager}
use crossvenue.Base.Int.{pos}
use crossvenue.Pipeline.Registered.{register-known}
use crossvenue.Portfolio.{Ledger, new_ledger}
use crossvenue.Journal.{Journal}
use crossvenue.Engine.State.{Supervisor, Payload}
use crossvenue.Engine.Setup.{
  SetupError, initial_quote, initial_base, trade_quantity, min_profit, limits_of, supervisor_of,
  parse_for, seed_quote, seed_bases, seed_venues, register_symbols, register_venues, new,
}

parse_for-Parses :
    (f : ParseError → SetupError) (s : Bytes) → Parses s → (v : Fixed) × (parse_for f s ≡ ok v)
unfolding parse_for
parse_for-Parses f s (v, e) = (v, rw e refl)

seed_quote-ok :
    (name : String) (text : Bytes) (l : Ledger)
    → (is_empty text ≡ true) ⊎ Parses text
    → (l' : Ledger) × (seed_quote name text l ≡ ok l')
unfolding seed_quote
seed_quote-ok name text l h = elim (Bool-cases (is_empty text)) [
  | inl none_given ↦ (l, rw none_given refl)
  | inr given ↦ elim h [
    | inl e ↦ absurd (ground arith)
    | inr p ↦ let (v, e) = parse_for-Parses (initial_quote name) text p in rw (given, e) (_, refl)
  ]
]

seed_bases-ok :
    (name : String) (text : Bytes) (symbols : List String) (l : Ledger)
    → (is_empty text ≡ true) ⊎ Parses text
    → (l' : Ledger) × (seed_bases name text symbols l ≡ ok l')
unfolding seed_bases
seed_bases-ok name text symbols l h = elim (Bool-cases (is_empty text)) [
  | inl none_given ↦ (l, rw none_given refl)
  | inr given ↦ elim h [
    | inl e ↦ absurd (ground arith)
    | inr p ↦ let (v, e) = parse_for-Parses (initial_base name) text p in rw (given, e) (_, refl)
  ]
]

seed_venues-ok :
    (symbols : List String) (vs : Dict String VenueConfig) (l : Ledger)
    → EntriesAreValid vs
    → (l' : Ledger) × (seed_venues symbols vs l ≡ ok l')
unfolding seed_venues
seed_venues-ok symbols [] l h = (l, refl)
seed_venues-ok symbols ((name, vc) ∷ vs) l h =
    let (l1, e1) = seed_quote-ok name vc.initial_quote l h.0.2 in
    let (l2, e2) = seed_bases-ok name vc.initial_base symbols l1 h.0.1 in
    elim (Bool-cases vc.enabled) [
      | inl on ↦ let (l3, e3) = seed_venues-ok symbols vs l2 h.1 in (l3, rw (on, e1, e2) e3)
      | inr off ↦ let (l3, e3) = seed_venues-ok symbols vs l h.1 in (l3, rw off e3)
    ]

known_has_tracker : (v : Venue) → is_venue v ≡ true → (tr : Tracker) × (new_for_venue v ≡ some tr)
unfolding new_for_venue
known_has_tracker v h = elim (Bool-cases (v == venue_binance)) [
  | inl b ↦ rw b (_, refl)
  | inr nb ↦ elim (Bool-cases (v == venue_okx)) [
    | inl o ↦ rw (nb, o) (_, refl)
    | inr n_o ↦ elim (Bool-cases (v == venue_bybit)) [
      | inl y ↦ rw (nb, n_o, y) (_, refl)
      | inr ny ↦ let s : v == venue_synthetic ≡ true = ground arith in rw (nb, n_o, ny, s) (_, refl)
    ]
  ]
]

register_symbols-known :
    (t : Time) (v : Venue) (symbols : List String) (p : Pipeline)
    → is_venue v ≡ true
    → (p' : Pipeline) × (register_symbols t v symbols p ≡ ok p')
unfolding register_symbols
register_symbols-known t v [] p h = (p, refl)
register_symbols-known t v (symbol ∷ symbols) p h =
    let (tr, k) = known_has_tracker v h in
    let (p1, e1) = register-known t v symbol p tr k in
    let (p2, e2) = register_symbols-known t v symbols p1 h in (p2, rw e1 e2)

register_venues-known :
    (t : Time) (vs : List Venue) (symbols : List String) (p : Pipeline)
    → All (λ v. is_venue v ≡ true) vs
    → (p' : Pipeline) × (register_venues t vs symbols p ≡ ok p')
unfolding register_venues
register_venues-known t [] symbols p h = (p, refl)
register_venues-known t (v ∷ vs) symbols p h =
    let (p1, e1) = register_symbols-known t v symbols p h.0 in
    let (p2, e2) = register_venues-known t vs symbols p1 h.1 in (p2, rw e1 e2)

-- `New` starts from every configuration that `Validate` accepts and whose least profit parses,
-- which `Validate` does not look at. The supervisor has the enabled venues of the configuration,
-- at least one, and a new risk engine with its kill switch as configured.
pub new-IsValid :
    (t : Time) (c : Config) (j : Journal Payload)
    → IsMap c.venues
    → validate c ≡ none
    → Parses c.risk.min_profit_usd
    → (s : Supervisor) × (new t c j ≡ ok s)
      × (s.cfg ≡ c)
      × (s.venues ≡ enabled_venues c)
      × (s.venues ≢ [])
      × (s.risk.kill ≡ c.risk.kill_switch)
unfolding new supervisor_of limits_of
new-IsValid t c j m h (profit, mp) =
    let valid = (validate-IsValid c m).0 h in
    let (ledger, e1) = seed_venues-ok c.symbols c.venues new_ledger valid.entries in
    let (pipe, e2) =
      register_venues-known t (enabled_venues c) c.symbols
        (new_pipeline (pos 4096) (max_quote_age c) new_manager) (enabled_venues-known c) in
    let (quantity, e3) = parse_for-Parses trade_quantity c.execution.trade_qty valid.trade_qty in
    let (edge, e4) = parse_for-Parses min_profit c.risk.min_profit_usd (profit, mp) in
    (
      supervisor_of c j ledger pipe quantity edge,
      rw (e1, e2, e3, e4) refl,
      refl,
      refl,
      valid.venues,
      refl,
    )
