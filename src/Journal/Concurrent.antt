-- ===== src/Journal/Concurrent.antt =====
-- Concurrent calls of `RecordFull` of internal/journal/journal.go, against the log that forgets
-- nothing.
use mathlib.Core.Path.{subst, subst₂}
use mathlib.Core.List.{Perm, Permᴰ}
use mathlib.Core.List.Permᴰ
use crossvenue.Base.{
  ℕ, zero, suc, ◌+◌, ◌%◌, ◌^◌, ◌<◌, List, [], ◌∷◌, ◌++◌, ◌≡◌, refl, sym, ap, ◌∙◌, min,
}
use crossvenue.Base.Int.{pos}
use crossvenue.Base.Lists.{length, append_assoc, append_nil}
use crossvenue.Journal.{
  Journal, events, Event, Entry, new, event_of, record_locked, sends_of, trim, Call, enters, sends,
  take_send, calls,
}
use crossvenue.Journal.Bounded.{full_log, trim_append, trim_nil, fan_out, length-full_log, trim_end}

-- Everything that is left to the calls.
abbrev pub all_left {ℓ} : {A : Type ℓ} → List (List A) → List A
all_left [] = []
all_left (q ∷ qs) = q ++ all_left qs

all_left-append {ℓ} :
    {A : Type ℓ} (ps qs : List (List A)) → all_left (ps ++ qs) ≡ all_left ps ++ all_left qs
all_left-append [] qs = refl
all_left-append (p ∷ ps) qs =
    ap (λ l. p ++ l) (all_left-append ps qs) ∙ sym (append_assoc p (all_left ps) (all_left qs))

front {ℓ} : {A : Type ℓ} (xs ys zs : List A) → Permᴰ (xs ++ (ys ++ zs)) (ys ++ (xs ++ zs))
front xs ys zs =
    subst₂ (λ l r. Permᴰ l r) (append_assoc xs ys zs) (append_assoc ys xs zs)
      (Permᴰ.append_right zs (Permᴰ.append_comm xs ys))

take_send-perm {ℓ} :
    {A : Type ℓ} (k : ℕ) (qs : List (List A))
    → let (sent, rest) = take_send k qs in Permᴰ (sent ++ all_left rest) (all_left qs)
unfolding take_send
take_send-perm k [] = Permᴰ.nil
take_send-perm zero ([] ∷ qs) = Permᴰ.refl (all_left qs)
take_send-perm zero ((x ∷ q) ∷ qs) = Permᴰ.refl (x ∷ (q ++ all_left qs))
take_send-perm (suc k) (q ∷ qs) =
    let (sent, rest) = take_send k qs in
    Permᴰ.trans (front sent q (all_left rest)) (Permᴰ.append_left q (take_send-perm k qs))

module _ {P : Type 0} where
  -- The entries, in the order in which their calls are entered.
  abbrev pub entered : List (Call P) → List (Entry P)
  entered [] = []
  entered (enters e ∷ cs) = e ∷ entered cs
  entered (sends k ∷ cs) = entered cs

  calls-events :
      (cs : List (Call P)) (j : Journal P) (left : List (List (ℕ × Event P))) (log : List (Event P))
      → j.events ≡ trim j.max_events log
      → (calls cs (j, left)).0.events ≡ trim j.max_events (log ++ full_log j.seq (entered cs))
  unfolding calls
  calls-events [] j left log h = rw (append_nil log) h
  calls-events (enters e ∷ cs) j left log h =
      let n = (j.seq + 1) % 2 ^ 64 in
      let (ev, j') = record_locked e j in
      let kept = ap (λ l. trim j.max_events (l ++ (event_of n e ∷ []))) h in
      let ih =
        calls-events cs j' (left ++ (sends_of ev j'.sinks ∷ [])) (log ++ (event_of n e ∷ []))
          (kept ∙ trim_append j.max_events log (event_of n e ∷ [])) in
      rw (sym (append_assoc log (event_of n e ∷ []) (full_log n (entered cs)))) ih
  calls-events (sends k ∷ cs) j left log h =
      let (sent, rest) = take_send k left in
      calls-events cs (record j { appended = j.appended ++ sent }) rest log h

  calls-sends :
      (cs : List (Call P)) (j : Journal P) (left : List (List (ℕ × Event P)))
      (due : List (ℕ × Event P))
      → Permᴰ (j.appended ++ all_left left) due
      → let (j', left') = calls cs (j, left) in
        Permᴰ (j'.appended ++ all_left left') (due ++ fan_out j.sinks (full_log j.seq (entered cs)))
  unfolding calls
  calls-sends [] j left due h = subst (Permᴰ _) (sym (append_nil due)) h
  calls-sends (enters e ∷ cs) j left due h =
      let (ev, j') = record_locked e j in
      let new_sends = sends_of ev j.sinks in
      let more : Permᴰ (j.appended ++ all_left (left ++ (new_sends ∷ []))) (due ++ new_sends) =
        subst (λ l. Permᴰ l (due ++ new_sends))
          (append_assoc j.appended (all_left left) new_sends
            ∙ ap (λ l. j.appended ++ l)
                (ap (λ l. all_left left ++ l) (sym (append_nil new_sends))
                  ∙ sym (all_left-append left (new_sends ∷ []))))
          (Permᴰ.append_right new_sends h) in
      subst (Permᴰ _) (append_assoc due new_sends (fan_out j.sinks (full_log j'.seq (entered cs))))
        (calls-sends cs j' (left ++ (new_sends ∷ [])) (due ++ new_sends) more)
  calls-sends (sends k ∷ cs) j left due h =
      let (sent, rest) = take_send k left in
      let same : Permᴰ ((j.appended ++ sent) ++ all_left rest) due =
        subst (λ l. Permᴰ l due) (sym (append_assoc j.appended sent (all_left rest)))
          (Permᴰ.trans (Permᴰ.append_left j.appended (take_send-perm k left)) h) in
      calls-sends cs (record j { appended = j.appended ++ sent }) rest due same

  -- The journal refines the log that forgets nothing, however the calls of several goroutines
  -- interleave. On a new journal with a positive bound, its events are the end of the log of the
  -- entries, in the order in which their calls took the lock, and as many as there are entries, up to
  -- the bound. What the sinks have been sent and what is still left to the calls is together every
  -- event once for every sink; the order in which a sink gets them is not determined.
  pub calls-new :
      (sinks : List ℕ) (m : ℕ) (cs : List (Call P))
      → 0 < m
      → let (j, left) = calls cs (record (new sinks) { max_events = pos m }, []) in
        let log = full_log 0 (entered cs) in
        (dropped : List (Event P)) × (log ≡ dropped ++ events j)
        × (length (events j) ≡ min m (length (entered cs)))
        × Perm (j.appended ++ all_left left) (fan_out sinks log)
  calls-new sinks m cs h =
      let j = record (new sinks) { max_events = pos m } in
      let run = calls-events cs j [] [] (trim_nil (pos m)) in
      let (dropped, cut, size) = trim_end m (full_log 0 (entered cs)) h in
      let count = length-full_log 0 (entered cs) in
      (dropped, rw run cut, rw (run, sym count) size, ∣ calls-sends cs j [] [] Permᴰ.nil ∣₁)
