-- ===== src/Venue/Synthetic/Feed.antt =====
-- The feed of the generator of internal/venue/synthetic/synthetic.go, as its tracker reads it.
use crossvenue.Base.{
  ℕ, ◌+◌, ◌-◌, ◌*◌, ◌%◌, ◌^◌, ◌<◌, Bool, true, false, ◌&&◌, String, if◌then◌else◌, eqb, ◌≡◌, refl,
  sym, ap, ◌∙◌, arith, Bool-cases, inl, inr,
}
use crossvenue.Base.Int.{pos, sub_ℕ, pos_part, ◌+ℤ◌, ◌-ℤ◌, neg, ◌≤ℤ◌, ltb_ℤ}
use crossvenue.Base.Outcome.{returns, >>=-returns, returns_eq}
use crossvenue.Decimal.{Fixed, wrap64, from_int, add, mul_bps}
use crossvenue.Decimal.Exact.{wrap64_id}
use crossvenue.Domain.{Time, MarketEvent, BookDelta, delta}
use crossvenue.Seq.{Tracker, apply, gap, okx, check, check_okx}
use crossvenue.Venue.Synthetic.{
  Rng, Options, Generator, walk_mid, next_seq, tick_now, touch, delta_of,
}

-- A gap is due at the number that follows.
abbrev pub gap_due : Options → ℕ → Bool
gap_due o n = ltb_ℤ (pos 0) o.gap_every && eqb ((n + 1) % pos_part o.gap_every) 0

pub sum_up : (n k : ℕ) → pos n +ℤ pos k ≡ pos (n + k)
unfolding ◌+ℤ◌
sum_up n k = ground arith

down : (n : ℕ) → 0 < n → pos n -ℤ pos 1 ≡ pos (n - 1)
unfolding ◌-ℤ◌ ◌+ℤ◌ neg
down n h = ground arith

pub wrap_up : (n k : ℕ) → n + k < 2 ^ 63 → wrap64 (pos n +ℤ pos k) ≡ pos (n + k)
wrap_up n k h = rw (sum_up n k) (wrap64_id (pos (n + k)) (ground arith))

wrap_down : (n : ℕ) → 0 < n → n < 2 ^ 63 → wrap64 (pos n -ℤ pos 1) ≡ pos (n - 1)
wrap_down n h k = rw (down n h) (wrap64_id (pos (n - 1)) (ground arith))

-- The synthetic venue's tracker, at a number.
abbrev pub at : ℕ → Tracker
at n = record { kind = okx; ready = true; last_seq = pos n }

-- What a tracker at `n` makes of a delta numbered `m` that follows `m - 1`.
next_applies :
    (n : ℕ) (d : BookDelta)
    → n + 1 < 2 ^ 63
    → d.sequence ≡ pos (n + 1)
    → check_okx d (at n) ≡ (at (n + 1), apply)
unfolding check_okx
next_applies n d h s = let one = wrap_up n 1 h in rw (s, one) (ground arith)

later_is_gap :
    (n m : ℕ) (d : BookDelta)
    → n + 1 < m
    → m < 2 ^ 63
    → d.sequence ≡ pos m
    → d.prev_sequence ≡ pos (m - 1)
    → check_okx d (at n) ≡ (at n, gap)
unfolding check_okx
later_is_gap n m d l h s p = let one = wrap_up n 1 (omega arith) in rw (s, p, one) (ground arith)

floor_le : (m floor : Fixed) → floor ≤ℤ (if ltb_ℤ m floor then floor else m)
floor_le m floor = ground arith

-- The delta that the generator numbers next, at the two numbers that it can have.
next_verdict :
    (due : Bool) (n : ℕ) (d : BookDelta)
    → n + 4 < 2 ^ 63
    → d.sequence ≡ pos (if due then n + 3 else n + 1)
    → d.prev_sequence ≡ wrap64 (d.sequence -ℤ pos 1)
    → check_okx d (at n) ≡ (if due then (at n, gap) else (at (n + 1), apply))
next_verdict true n d h s p =
    later_is_gap n (n + 3) d (omega arith) (omega arith) s
      (p ∙ ap (λ q. wrap64 (q -ℤ pos 1)) s ∙ wrap_down (n + 3) (omega arith) (omega arith))
next_verdict false n d h s p = next_applies n d (omega arith) s

module _ (rng : Rng) where
  next_seq_lem :
      (o : Options) (n : ℕ)
      → n + 4 < 2 ^ 63
      → next_seq rng o (pos n) ≡ pos (if gap_due o n then n + 3 else n + 1)
  unfolding next_seq
  next_seq_lem o n h =
      let one = wrap_up n 1 (omega arith) in
      let three = wrap_up (n + 1) 2 (omega arith) in
      rw (one, three)
        (elim (Bool-cases (gap_due o n)) [
          | inl due ↦ rw due (ap pos (omega arith))
          | inr not_due ↦ rw not_due refl
        ])

  pub tick_now-keeps :
      (clock : Time) (g : Generator rng)
      → ((tick_now rng clock g).0.seq ≡ g.seq)
        × ((tick_now rng clock g).0.mid ≡ g.mid)
        × ((tick_now rng clock g).0.opts ≡ g.opts)
  unfolding tick_now
  tick_now-keeps clock g = ground arith

  walk_mid-bound :
      (g : Generator rng) (mid : Fixed) (r : rng.State)
      → walk_mid rng g ≡ returns (mid, r)
      → from_int (pos 1000) ≤ℤ mid
  unfolding walk_mid
  walk_mid-bound g mid r e =
      let vol = pos_part g.opts.volatility_bps in
      let (step, e1, h) =
        >>=-returns (mul_bps g.mid (sub_ℕ (rng.intn (vol * 2 + 1) g.rng_state).0 vol)) _ e in
      let (m, e2, k) = >>=-returns (add g.mid step) _ h in
      let same : (if ltb_ℤ m (from_int (pos 1000)) then from_int (pos 1000) else m) ≡ mid =
        ap (λ q. q.0) (returns_eq k) in
      rw (sym same) (floor_le m (from_int (pos 1000)))

  -- What the next delta is numbered, and the generator behind it.
  pub record NextDelta (g g' : Generator rng) (n : ℕ) (ev : MarketEvent) : Type 0 where
    pub d : BookDelta
    pub is_delta : ev ≡ delta d
    pub sequence : d.sequence ≡ pos (if gap_due g.opts n then n + 3 else n + 1)
    pub prev_sequence : d.prev_sequence ≡ wrap64 (d.sequence -ℤ pos 1)
    pub seq : g'.seq ≡ pos (if gap_due g.opts n then n + 3 else n + 1)
    pub opts : g'.opts ≡ g.opts
    pub mid : from_int (pos 1000) ≤ℤ g'.mid

  pub delta_of-NextDelta :
      (symbol : String) (clock : Time) (g g' : Generator rng) (n : ℕ) (ev : MarketEvent)
      → g.seq ≡ pos n
      → n + 4 < 2 ^ 63
      → delta_of rng symbol clock g ≡ returns (g', ev)
      → NextDelta g g' n ev
  unfolding delta_of
  delta_of-NextDelta symbol clock g g' n ev s h e =
      let (w, e1, k1) = >>=-returns (walk_mid rng g) _ e in
      let m = next_seq rng g.opts g.seq in
      let g0 = record g { mid = w.0; rng_state = w.1; seq = m } in
      let g1 = (tick_now rng clock g0).0 in
      let (ls, e2, k2) =
        >>=-returns
          (touch rng w.0 (pos_part g.opts.depth_levels) ((rng.intn 3 g1.rng_state).0 + 1)
            (rng.intn 3 g1.rng_state).1)
          _ k1 in
      let keeps = tick_now-keeps clock g0 in
      let number : m ≡ pos (if gap_due g.opts n then n + 3 else n + 1) =
        rw s (next_seq_lem g.opts n h) in
      let done = returns_eq k2 in
      let ts = (tick_now rng clock g0).1 in
      record {
        d = record {
          venue = g.opts.venue;
          symbol = symbol;
          bids = ls.0;
          asks = ls.1;
          sequence = m;
          prev_sequence = wrap64 (m -ℤ pos 1);
          exchange_time = ts;
          receive_time = ts;
        };
        is_delta = sym (ap (λ q. q.1) done);
        sequence = number;
        prev_sequence = refl;
        seq = ap (λ q. q.0.seq) (sym done) ∙ keeps.0 ∙ number;
        opts = ap (λ q. q.0.opts) (sym done) ∙ keeps.2;
        mid = rw (ap (λ q. q.0.mid) (sym done) ∙ keeps.1) (walk_mid-bound g w.0 w.1 e1);
      }

  -- The verdict on the next delta of the generator, by the tracker that new lanes of the synthetic
  -- venue have, when it is at the generator's number and that is not at the end of the int64s: a
  -- gap exactly where one is injected, and else the delta is applied and the tracker is at the
  -- generator's number again. The mid price is at least 1000 then.
  pub delta_of-verdict :
      (symbol : String) (clock : Time) (g g' : Generator rng) (n : ℕ) (ev : MarketEvent)
      → g.seq ≡ pos n
      → n + 4 < 2 ^ 63
      → delta_of rng symbol clock g ≡ returns (g', ev)
      → (d : BookDelta) × (ev ≡ delta d)
        × (check d (at n) ≡ (if gap_due g.opts n then (at n, gap) else (at (n + 1), apply)))
        × (g'.seq ≡ pos (if gap_due g.opts n then n + 3 else n + 1))
        × (from_int (pos 1000) ≤ℤ g'.mid)
  unfolding check
  delta_of-verdict symbol clock g g' n ev s h e =
      let f = delta_of-NextDelta symbol clock g g' n ev s h e in
      (
        f.d,
        f.is_delta,
        next_verdict (gap_due g.opts n) n f.d h f.sequence f.prev_sequence,
        f.seq,
        f.mid,
      )

  -- The next delta where no gaps are injected.
  pub next_in_line :
      (g g' : Generator rng) (n : ℕ) (ev : MarketEvent) (f : NextDelta g g' n ev)
      → g.opts.gap_every ≤ℤ pos 0
      → n + 4 < 2 ^ 63
      → (f.d.sequence ≡ pos (n + 1)) × (f.d.prev_sequence ≡ pos n) × (g'.seq ≡ pos (n + 1))
  next_in_line g g' n ev f none_due h =
      let no : gap_due g.opts n ≡ false = ground arith in
      let one : f.d.sequence ≡ pos (n + 1) = rw no at f.sequence in
      (
        one,
        f.prev_sequence
            ∙ ap (λ q. wrap64 (q -ℤ pos 1)) one
            ∙ wrap_down (n + 1) (omega arith) (omega arith)
            ∙ ap pos (omega arith),
        rw no at f.seq,
      )
