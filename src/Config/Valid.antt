-- ===== src/Config/Valid.antt =====
-- What a configuration that `Validate` accepts promises to the engine.
use crossvenue.Base.{
  true, false, none, List, [], ◌∷◌, String, ◌==◌, string_eq, ◌≡◌, ◌≢◌, ◌↔◌, refl, ap, arith,
  Bool-cases, inl, inr, ◌⊎◌,
}
use crossvenue.Base.Dict.{Dict, lookup, IsMap, key_cases}
use crossvenue.Domain.{Venue, venue_binance, venue_okx, venue_bybit, venue_synthetic}
use crossvenue.Base.Lists.{All}
use crossvenue.Base.Try.{Try, ok, fails}
use crossvenue.Decimal.{Fixed}
use crossvenue.Decimal.Text.{ParseError, parse, is_empty}
use crossvenue.Fnv.{Bytes}
use crossvenue.Config.{
  Config, VenueConfig, validate, check_venues, check_venue, error_of, refusal, is_mode, is_venue,
  any_enabled, no_names, enabled_venues, venue_order, enabled_among, is_enabled,
}

abbrev pub Parses : Bytes → Type 0
Parses s = (f : Fixed) × (parse s ≡ ok f)

-- A venue's entry: a known venue, with texts that are empty or parse.
abbrev pub EntryIsValid : String → VenueConfig → Type 0
EntryIsValid k v =
    (is_venue k ≡ true)
    × ((is_empty v.initial_base ≡ true) ⊎ Parses v.initial_base)
    × ((is_empty v.initial_quote ≡ true) ⊎ Parses v.initial_quote)

abbrev pub EntriesAreValid : Dict String VenueConfig → Type 0
EntriesAreValid [] = Unit
EntriesAreValid ((k, v) ∷ vs) = EntryIsValid k v × EntriesAreValid vs

-- What the engine relies on.
pub record IsValid (c : Config) : Type 0 where
  pub mode : is_mode c.mode ≡ true
  pub symbols : no_names c.symbols ≡ false
  pub venues : enabled_venues c ≢ []
  pub entries : EntriesAreValid c.venues
  pub trade_qty : Parses c.execution.trade_qty

error_of-none : (t : Try ParseError Fixed) → (error_of t ≡ none) ↔ ((f : Fixed) × (t ≡ ok f))
error_of-none (ok f) = (λ _. (f, refl), λ _. refl)
error_of-none (fails e) = (λ h. cc, λ h. let (f, k) = h in cc)

refusal-Parses : (s : Bytes) → (refusal s ≡ none) ↔ Parses s
unfolding refusal
refusal-Parses s = error_of-none (parse s)

check_venue-EntryIsValid :
    (k : String) (v : VenueConfig) → (check_venue k v ≡ none) ↔ EntryIsValid k v
check_venue-EntryIsValid k v =
    let b = refusal-Parses v.initial_base in let q = refusal-Parses v.initial_quote in ground arith

check_venues-EntriesAreValid :
    (vs : Dict String VenueConfig) → (check_venues vs ≡ none) ↔ EntriesAreValid vs
unfolding check_venues
check_venues-EntriesAreValid [] = ground arith
check_venues-EntriesAreValid ((k, v) ∷ vs) =
    let first = check_venue-EntryIsValid k v in
    let rest = check_venues-EntriesAreValid vs in ground arith

found_self : (k : String) → k == k ≡ true
found_self k = (string_eq.same_key_iff k k).1 refl

-- An enabled venue of a known name is listed, and a listed venue is enabled.
any_enabled-lookup :
    (vs : Dict String VenueConfig)
    → EntriesAreValid vs
    → any_enabled vs ≡ true
    → IsMap vs
    → (k : String) × (is_venue k ≡ true) × (is_enabled (lookup k vs) ≡ true)
unfolding lookup
any_enabled-lookup [] e h m = cc
any_enabled-lookup ((k, v) ∷ vs) e h m = elim (Bool-cases v.enabled) [
  | inl on ↦ (k, e.0.0, rw (found_self k) on)
  | inr off ↦
      let (j, known, found) = any_enabled-lookup vs e.1 (ground arith) m.1 in
      elim (key_cases k j) [
        | inl same ↦ absurd (let n = m.0 in let p = ap (λ i. lookup i vs) same in cc)
        | inr other ↦ (j, known, let iff = string_eq.same_key_iff k j in ground arith)
      ]
]

lookup-any_enabled :
    (k : String) (vs : Dict String VenueConfig)
    → is_enabled (lookup k vs) ≡ true
    → any_enabled vs ≡ true
unfolding lookup
lookup-any_enabled k [] h = cc
lookup-any_enabled k ((j, v) ∷ vs) h = let ih = lookup-any_enabled k vs in ground arith

-- What is listed among the venues.
enabled_among-empty :
    (vs : Dict String VenueConfig) (order : List Venue) (k : Venue)
    → is_enabled (lookup k vs) ≡ true
    → enabled_among vs order ≡ []
    → All (λ v. v ≢ k) order
unfolding enabled_among
enabled_among-empty vs [] k on h = tt
enabled_among-empty vs (v ∷ order) k on h = elim (Bool-cases (is_enabled (lookup v vs))) [
  | inl listed ↦ absurd (ground arith)
  | inr off ↦ (
    λ same. let p = ap (λ i. is_enabled (lookup i vs)) same in cc,
    enabled_among-empty vs order k on (ground arith),
  )
]

enabled_among-cons :
    (vs : Dict String VenueConfig) (order : List Venue)
    → enabled_among vs order ≢ []
    → (k : Venue) × (is_enabled (lookup k vs) ≡ true)
unfolding enabled_among
enabled_among-cons vs [] h = absurd (h refl)
enabled_among-cons vs (v ∷ order) h = elim (Bool-cases (is_enabled (lookup v vs))) [
  | inl on ↦ (v, on)
  | inr off ↦ enabled_among-cons vs order (λ e. h (rw off e))
]

known_listed : (k : String) → is_venue k ≡ true → ¬ All (λ v. v ≢ k) venue_order
known_listed k h all =
    let b = string_eq.same_key_iff k venue_binance in
    let o = string_eq.same_key_iff k venue_okx in
    let y = string_eq.same_key_iff k venue_bybit in
    let z = string_eq.same_key_iff k venue_synthetic in ground arith

venues-listed :
    (c : Config)
    → IsMap c.venues
    → EntriesAreValid c.venues
    → (any_enabled c.venues ≡ true) ↔ (enabled_venues c ≢ [])
unfolding enabled_venues
venues-listed c m e = (
  λ on.
      let (k, known, found) = any_enabled-lookup c.venues e on m in
      λ empty. known_listed k known (enabled_among-empty c.venues venue_order k found empty),
  λ listed.
      let (k, found) = enabled_among-cons c.venues venue_order listed in
      lookup-any_enabled k c.venues found,
)

-- `Validate` accepts a configuration exactly when its mode is known, it has symbols, a venue is
-- enabled that `EnabledVenues` lists, every venue is known with quantities that parse or are left
-- out, and the trade quantity parses.
pub validate-IsValid : (c : Config) → IsMap c.venues → (validate c ≡ none) ↔ IsValid c
unfolding validate
validate-IsValid c m =
    let entries = check_venues-EntriesAreValid c.venues in
    let qty = refusal-Parses c.execution.trade_qty in
    let listed = venues-listed c m in
    (
      λ h.
          let all : (is_mode c.mode ≡ true)
              × (no_names c.symbols ≡ false)
              × (any_enabled c.venues ≡ true)
              × (check_venues c.venues ≡ none)
              × (refusal c.execution.trade_qty ≡ none) =
            ground arith in
          record {
            mode = all.0;
            symbols = all.1;
            venues = (listed (entries.0 all.3)).0 all.2;
            entries = entries.0 all.3;
            trade_qty = qty.0 all.4;
          },
      λ v.
          let on = (listed v.entries).1 v.venues in
          rw (v.mode, v.symbols, on, entries.1 v.entries, qty.1 v.trade_qty) refl,
    )

enabled_among-known :
    (vs : Dict String VenueConfig) (order : List Venue)
    → All (λ v. is_venue v ≡ true) order
    → All (λ v. is_venue v ≡ true) (enabled_among vs order)
unfolding enabled_among
enabled_among-known vs [] h = tt
enabled_among-known vs (v ∷ order) h = elim (Bool-cases (is_enabled (lookup v vs))) [
  | inl on ↦ rw on (h.0, enabled_among-known vs order h.1)
  | inr off ↦ rw off (enabled_among-known vs order h.1)
]

-- Every venue that is listed is one of the four.
pub enabled_venues-known : (c : Config) → All (λ v. is_venue v ≡ true) (enabled_venues c)
unfolding enabled_venues
enabled_venues-known c = enabled_among-known c.venues venue_order (ground arith)
