-- ===== src/Journal/Bounded.antt =====
-- The journal against the log that forgets nothing.
use crossvenue.Base.{
  ℕ, suc, ◌+◌, ◌-◌, ◌%◌, ◌^◌, ◌<◌, true, ◌&&◌, List, [], ◌∷◌, ◌++◌, map, ◌≡◌, refl, sym, ap, ◌∙◌,
  arith, min, Bool-cases, inl, inr,
}
use crossvenue.Base.Int.{ℤ, pos, negsuc, ltb_ℤ}
use crossvenue.Base.Lists.{
  length, drop, length-append, length-drop, drop-append, drop-drop, drop_nil, take, take-drop,
}
use crossvenue.Journal.{Event, Entry, event_of, trim}

module _ {P : Type 0} where
  -- The log that is never trimmed: the events of the entries, numbered from the next number on.
  abbrev pub full_log : ℕ → List (Entry P) → List (Event P)
  full_log n [] = []
  full_log n (e ∷ es) = let m = (n + 1) % 2 ^ 64 in event_of m e ∷ full_log m es

  trim_past :
      (m : ℤ) (xs ys : List (Event P))
      → ltb_ℤ (pos 0) m && ltb_ℤ m (pos (length xs)) ≡ true
      → trim m (trim m xs ++ ys) ≡ trim m (xs ++ ys)
  unfolding trim
  trim_past (negsuc m) xs ys k = absurd (ground arith)
  trim_past (pos m) xs ys k =
      let j = length xs - m in
      let small : (0 < m) × (m < length xs) = ground arith in
      let app = drop-append j xs ys (omega arith) in
      let l1 = length-append xs ys in
      let l2 = length-append (drop j xs) ys in
      let l3 = length-drop j xs in
      let i = length (drop j xs ++ ys) - m in
      let d = drop-drop i j (xs ++ ys) in
      let sum : i + j ≡ length (xs ++ ys) - m = omega arith in
      let cut : drop i (drop j xs ++ ys) ≡ drop (length (xs ++ ys) - m) (xs ++ ys) =
        ap (λ l. drop i l) (sym app) ∙ d ∙ ap (λ n. drop n (xs ++ ys)) sum in
      let big : ltb_ℤ (pos 0) (pos m) && ltb_ℤ (pos m) (pos (length (xs ++ ys))) ≡ true =
        ground arith in
      elim (Bool-cases (ltb_ℤ (pos 0) (pos m) && ltb_ℤ (pos m) (pos (length (drop j xs ++ ys))))) [
        | inl k2 ↦ rw (k, k2, big) cut
        | inr k2 ↦
            let zero : i ≡ 0 = ground arith in
            rw (k, k2, big) (sym (ap (λ n. drop n (drop j xs ++ ys)) zero) ∙ cut)
      ]

  -- Trimming before another event changes nothing that is kept behind it.
  pub trim_append : (m : ℤ) (xs ys : List (Event P)) → trim m (trim m xs ++ ys) ≡ trim m (xs ++ ys)
  unfolding trim
  trim_append m xs ys = elim (Bool-cases (ltb_ℤ (pos 0) m && ltb_ℤ m (pos (length xs)))) [
    | inl k ↦ trim_past m xs ys k
    | inr k ↦ rw k refl
  ]

  pub trim_nil : (m : ℤ) → [] ≡ trim {P = P} m []
  unfolding trim
  trim_nil (pos m) = let d = drop_nil {A = Event P} (0 - m) in ground arith
  trim_nil (negsuc m) = let d = drop_nil {A = Event P} (0 - 0) in ground arith

  -- What the sinks are sent for the events.
  abbrev pub fan_out : List ℕ → List (Event P) → List (ℕ × Event P)
  fan_out sinks [] = []
  fan_out sinks (ev ∷ evs) = map (λ s. (s, ev)) sinks ++ fan_out sinks evs

  pub length-full_log : (n : ℕ) (es : List (Entry P)) → length (full_log n es) ≡ length es
  length-full_log n [] = refl
  length-full_log n (e ∷ es) = ap suc (length-full_log ((n + 1) % 2 ^ 64) es)

  pub trim_end :
      (m : ℕ) (log : List (Event P))
      → 0 < m
      → (dropped : List (Event P)) × (log ≡ dropped ++ trim (pos m) log)
        × (length (trim (pos m) log) ≡ min m (length log))
  unfolding trim
  trim_end m log h =
      let d = length-drop (length log - m) log in
      elim (Bool-cases (ltb_ℤ (pos 0) (pos m) && ltb_ℤ (pos m) (pos (length log)))) [
        | inl k ↦ (
          take (length log - m) log,
          rw k (sym (take-drop (length log - m) log)),
          rw k (ground arith),
        )
        | inr k ↦ ([], rw k refl, rw k (ground arith))
      ]
