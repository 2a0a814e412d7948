-- ===== src/Base/Dict.antt =====
-- A Go map as an association list without repeated keys; a later write replaces the earlier one.
use mathlib.Core.Path.{◌≡◌, refl, sym, ◌∙◌}
use mathlib.Core.Logic.{◌≢◌, ◌⊎◌, inl, inr}
use mathlib.Core.Option.{Option, none, some}
use mathlib.Core.List.{List, [], ◌∷◌}
use native.Mathlib.Omega.{arith}
use crossvenue.Base.Tests.{Key, ◌==◌, if◌then◌else◌, Bool-cases}

abbrev pub Dict {ℓ κ} : Type ℓ → Type κ → Type (ℓ ⊔ κ)
Dict K V = List (K × V)

pub key_cases {ℓ} : {K : Type ℓ} ⦃e : Key K⦄ (k j : K) → (k ≡ j) ⊎ (k ≢ j)
key_cases ⦃e⦄ k j = elim (Bool-cases (k == j)) [
  | inl h ↦ inl ((e.same_key_iff k j).0 h)
  | inr h ↦ inr (λ p. cc (h, (e.same_key_iff k j).1 p))
]

module _ {ℓ κ} {K : Type ℓ} {V : Type κ} ⦃e : Key K⦄ where
  -- A write in place of the entry with the key, or at the end.
  unfoldable pub insert : K → V → Dict K V → Dict K V
  insert k new [] = (k, new) ∷ []
  insert k new ((i, old) ∷ rest) = if i == k then (k, new) ∷ rest else (i, old) ∷ insert k new rest

  -- `delete(m, k)`
  unfoldable pub erase : K → Dict K V → Dict K V
  erase k [] = []
  erase k ((i, old) ∷ rest) = if i == k then rest else (i, old) ∷ erase k rest

  -- `m[k]`, or nothing.
  unfoldable pub lookup : K → Dict K V → Option V
  lookup k [] = none
  lookup k ((i, found) ∷ rest) = if i == k then some found else lookup k rest

  -- No key is listed twice.
  abbrev pub IsMap : Dict K V → Type κ
  IsMap [] = Unit
  IsMap ((k, _) ∷ m) = (lookup k m ≡ none) × IsMap m

  -- What a reader finds after a write.
  pub lookup-insert :
      (written asked : K) (new : V) (m : Dict K V)
      → lookup asked (insert written new m)
        ≡ (if written == asked then some new else lookup asked m)
  unfolding lookup insert
  lookup-insert k j new [] = refl
  lookup-insert k j new ((i, old) ∷ rest) = ground (
    arith,
    e.same_key_iff k j,
    e.same_key_iff i k,
    e.same_key_iff i j,
    lookup-insert k j new rest,
  )

  pub insert-IsMap : (k : K) (v : V) (m : Dict K V) → IsMap m → IsMap (insert k v m)
  unfolding lookup insert
  insert-IsMap k v [] h = (refl, tt)
  insert-IsMap k v ((i, w) ∷ m) h =
      ground (
        arith,
        e.same_key_iff i k,
        e.same_key_iff k i,
        lookup-insert k i v m,
        insert-IsMap k v m h.1,
      )

  pub lookup-erase :
      (k j : K) (m : Dict K V)
      → IsMap m
      → lookup j (erase k m) ≡ (if k == j then none else lookup j m)
  unfolding lookup erase
  lookup-erase k j [] h = ground arith
  lookup-erase k j ((i, w) ∷ m) h =
      ground
        (arith, e.same_key_iff k j, e.same_key_iff i k, e.same_key_iff i j, lookup-erase k j m h.1)

  pub erase-IsMap : (k : K) (m : Dict K V) → IsMap m → IsMap (erase k m)
  unfolding lookup erase
  erase-IsMap k [] h = tt
  erase-IsMap k ((i, w) ∷ m) h =
      ground
        (arith, e.same_key_iff k i, e.same_key_iff i k, lookup-erase k i m h.1, erase-IsMap k m h.1)

  pub lookup-insert_self : (k : K) (v : V) (m : Dict K V) → lookup k (insert k v m) ≡ some v
  lookup-insert_self k v m = ground (arith, lookup-insert k k v m, e.same_key_iff k k)

  pub lookup-insert_ne :
      (k j : K) (v : V) (m : Dict K V) → k ≢ j → lookup j (insert k v m) ≡ lookup j m
  lookup-insert_ne k j v m h = ground (arith, lookup-insert k j v m, e.same_key_iff k j)

  -- What is found after a write is what was written, or was there before under another key.
  pub found-insert :
      (k j : K) (v w : V) (m : Dict K V)
      → lookup j (insert k v m) ≡ some w
      → ((k ≡ j) × (v ≡ w)) ⊎ ((k ≢ j) × (lookup j m ≡ some w))
  found-insert k j v w m h = elim (key_cases k j) [
    | inl same ↦ inl (same, ground (arith, lookup-insert k j v m, e.same_key_iff k j))
    | inr differs ↦ inr (differs, sym (lookup-insert_ne k j v m differs) ∙ h)
  ]
