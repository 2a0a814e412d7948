-- ===== src/Command/Loadgen/Replayed.antt =====
-- What a tracker makes of a feed that cmd/loadgen/main.go records.
use mathlib.Core.Path.{subst, subst₂}
use crossvenue.Base.{
  ℕ, zero, suc, ◌+◌, ◌^◌, ◌<◌, true, List, [], ◌∷◌, map, String, some, ◌≡◌, refl, sym, ap, ◌∙◌,
  arith,
}
use crossvenue.Base.Int.{ℤ, pos, pos_part, ◌+ℤ◌, ◌≤ℤ◌}
use crossvenue.Base.Lists.{All, length}
use crossvenue.Base.Outcome.{returns, >>=-returns, returns_eq}
use crossvenue.Decimal.{IsInt64, wrap64}
use crossvenue.Domain.{Venue, MarketEvent, BookDelta, BookSnapshot, delta, snapshot, buy, sell}
use crossvenue.Seq.{Tracker, apply, new_for_venue, on_snapshot}
use crossvenue.Seq.Gaps.{Contiguous, feed, feed-Contiguous}
use crossvenue.Venue.Synthetic.{
  Rng, Options, Generator, new_generator, snapshot_of, delta_of, with_defaults, tick_now, side_from,
}
use crossvenue.Venue.Synthetic.Feed.{
  delta_of-NextDelta, next_in_line, sum_up, wrap_up, tick_now-keeps,
}
use crossvenue.Command.Loadgen.{deltas, feed_of}

anchored_at :
    (v : Venue) (t : Tracker) (n : ℤ)
    → n ≡ pos 1
    → new_for_venue v ≡ some t
    → ((on_snapshot n t).ready ≡ true) × ((on_snapshot n t).last_seq ≡ pos 1)
unfolding on_snapshot new_for_venue
anchored_at v t n e lane = ground arith

module _ (rng : Rng) where
  deltas-Contiguous :
      (count : ℕ) (symbol : String) (g : Generator rng) (n : ℕ) (evs : List MarketEvent)
      → g.seq ≡ pos n
      → g.opts.gap_every ≤ℤ pos 0
      → n + count + 4 < 2 ^ 63
      → deltas rng count symbol g ≡ returns evs
      → (ds : List BookDelta) × (evs ≡ map delta ds) × (length ds ≡ count) × Contiguous (pos n) ds
  unfolding deltas
  deltas-Contiguous zero symbol g n evs s o h e = ([], sym (returns_eq e), refl, tt)
  deltas-Contiguous (suc left) symbol g n evs s o h e =
      let (r, e1, h1) = >>=-returns (delta_of rng symbol (pos 0) g) _ e in
      let (rest, e2, h2) = >>=-returns (deltas rng left symbol r.0) _ h1 in
      let f = delta_of-NextDelta rng symbol (pos 0) g r.0 n r.1 s (omega arith) e1 in
      let (one, before, next) = next_in_line rng g r.0 n r.1 f o (omega arith) in
      let (ds, same, len, c) =
        deltas-Contiguous left symbol r.0 (n + 1) rest next (rw f.opts o) (omega arith) e2 in
      (
        f.d ∷ ds,
        sym (returns_eq h2) ∙ λ i. f.is_delta i ∷ same i,
        ap suc len,
        (
          one ∙ sym (sum_up n 1),
          subst IsInt64 (sym one) (omega arith),
          subst₂ (λ x y. x ≤ℤ y) (sym before) (sym one) (omega arith),
          subst (λ m. Contiguous m ds) (sym one) c,
        ),
      )

  -- The first event of a feed is a snapshot numbered 1, which leaves a generator that numbers on.
  first_snapshot :
      (o : Options) (symbol : String) (g' : Generator rng) (ev : MarketEvent)
      → snapshot_of rng symbol (pos 0) (new_generator rng o) ≡ returns (g', ev)
      → (s : BookSnapshot) × (ev ≡ snapshot s)
        × (s.sequence ≡ pos 1)
        × (g'.seq ≡ pos 1)
        × (g'.opts.gap_every ≡ o.gap_every)
  unfolding snapshot_of new_generator with_defaults
  first_snapshot o symbol g' ev e =
      let g = new_generator rng o in
      let n = wrap64 (g.seq +ℤ pos 1) in
      let (g1, ts) = tick_now rng (pos 0) (record g { seq = n }) in
      let keeps = tick_now-keeps rng (pos 0) (record g { seq = n }) in
      let depth = pos_part g.opts.depth_levels in
      let (bids, e1, h1) = >>=-returns (side_from rng buy g.mid depth 0 g1.rng_state) _ e in
      let (asks, e2, h2) = >>=-returns (side_from rng sell g.mid depth 0 bids.1) _ h1 in
      let done = returns_eq h2 in
      let one : n ≡ pos 1 = wrap_up 0 1 (omega arith) in
      (
        record {
          venue = g.opts.venue;
          symbol = symbol;
          sequence = n;
          bids = bids.0;
          asks = asks.0;
          exchange_time = ts;
          receive_time = ts;
        },
        sym (ap (λ q. q.1) done),
        one,
        ap (λ q. q.0.seq) (sym done) ∙ keeps.0 ∙ one,
        ap (λ q. q.0.opts.gap_every) (sym done) ∙ ap (λ x. x.gap_every) keeps.2,
      )

  -- A recorded feed without injected gaps, whatever the random numbers and the prices: it is a
  -- snapshot and as many deltas as were asked for, and the tracker that a new lane of any venue
  -- has, anchored by that snapshot, applies every one of them.
  pub feed_of-applied :
      (o : Options) (symbol : String) (count : ℕ) (evs : List MarketEvent) (v : Venue) (t : Tracker)
      → o.gap_every ≤ℤ pos 0
      → count + 5 < 2 ^ 63
      → new_for_venue v ≡ some t
      → feed_of rng o symbol count ≡ returns evs
      → (s : BookSnapshot) × (ds : List BookDelta) × (evs ≡ snapshot s ∷ map delta ds)
        × (length ds ≡ count)
        × All (λ x. x ≡ apply) (feed ds (on_snapshot s.sequence t)).1
  unfolding feed_of
  feed_of-applied o symbol count evs v t none_due h lane e =
      let (r, e1, h1) = >>=-returns (snapshot_of rng symbol (pos 0) (new_generator rng o)) _ e in
      let (rest, e2, h2) = >>=-returns (deltas rng count symbol r.0) _ h1 in
      let (s, is_snapshot, number, seq, opts) = first_snapshot o symbol r.0 r.1 e1 in
      let (ds, same, len, c) =
        deltas-Contiguous count symbol r.0 1 rest seq (subst (λ x. x ≤ℤ pos 0) (sym opts) none_due)
          (omega arith) e2 in
      let (ready, last) = anchored_at v t s.sequence number lane in
      (
        s,
        ds,
        sym (returns_eq h2) ∙ λ i. is_snapshot i ∷ same i,
        len,
        feed-Contiguous ds (on_snapshot s.sequence t) ready
            (subst (λ m. Contiguous m ds) (sym last) c),
      )
