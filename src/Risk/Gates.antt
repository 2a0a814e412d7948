-- ===== src/Risk/Gates.antt =====
-- What a decision of internal/risk/risk.go says of the request.
use crossvenue.Base.{
  ◌+◌, Bool, true, false, ◌&&◌, Option, none, some, String, [], ◌≡◌, ◌⊎◌, ◌↔◌, ◌∙◌, ap, arith, inl,
  inr, Bool-cases,
}
use crossvenue.Base.Int.{ℤ, pos, leb_ℤ, ◌≤ℤ◌, ◌<ℤ◌}
use crossvenue.Base.Outcome.{Outcome, returns, ◌>>=◌, >>=-returns}
use crossvenue.Decimal.{Fixed, mul, abs, is_positive, is_negative}
use crossvenue.Domain.{Venue, Time}
use crossvenue.Book.{SnapshotView}
use crossvenue.Manager.{Manager, since, snapshot}
use crossvenue.Risk.{
  activate_kill_switch, Limits, State, Exposure, Request, Decision, Reason, over_daily_loss,
  below_min_expected_edge, over_trade_notional, deny_if, counter_checks, trade_checks, book_checks,
  buy_exposure, sell_exposure, check_opportunity,
}

-- A value that keeps a limit, where a limit above zero is set.
abbrev pub Within : ℤ → ℤ → Type 0
Within limit x = (limit ≤ℤ pos 0) ⊎ (x ≤ℤ limit)

-- The gates on the counters: the kill switch is off, two more orders fit, and the failures in a
-- row are below the limit.
abbrev pub CountersPass : Limits → State → Type 0
CountersPass l s =
    (s.kill ≡ false)
    × Within l.max_outstanding (pos (s.outstanding + 2))
    × ((l.max_consecutive_fails ≤ℤ pos 0) ⊎ (pos s.consecutive_fails <ℤ l.max_consecutive_fails))

-- The gates on the trade: its notional and its edge, and the realised loss.
abbrev pub TradePasses : Limits → Fixed → Fixed → Fixed → Type 0
TradePasses l notional net realized =
    Within l.max_trade_notional notional
    × ((l.min_expected_edge ≤ℤ pos 0) ⊎ (l.min_expected_edge ≤ℤ net))
    × ((l.daily_loss_limit ≤ℤ pos 0) ⊎ ((pos 0 ≤ℤ realized) ⊎ (abs realized <ℤ l.daily_loss_limit)))

-- The gates on a venue's book: there is a view, which is ready, not stale and young enough.
abbrev pub BookPasses : Limits → Time → Option SnapshotView → Type 0
BookPasses l now none = ⊥
BookPasses l now (some w) =
    (w.state.ready ≡ true)
    × (w.state.stale ≡ false)
    × Within l.max_quote_age (since now w.state.last_updated_at)

counter_checks-pass :
    (l : Limits) (s : State) (d : Decision)
    → ((counter_checks l s d).allowed ≡ true) ↔ ((d.allowed ≡ true) × CountersPass l s)
unfolding counter_checks
counter_checks-pass l s d = (λ h. ground arith, λ h. ground arith)

-- A decision behind a gate allows only if the gate's condition was false.
deny_if-allows :
    (c : Bool) (reason : Reason) (d : Decision)
    → ((deny_if c reason d).allowed ≡ true) ↔ ((d.allowed ≡ true) × (c ≡ false))
deny_if-allows c reason d = (λ h. ground arith, λ h. ground arith)

loss_gate :
    (limit realized : Fixed)
    → (is_positive limit && (leb_ℤ limit (abs realized) && is_negative realized)) ≡ false
    → (limit ≤ℤ pos 0) ⊎ ((pos 0 ≤ℤ realized) ⊎ (abs realized <ℤ limit))
loss_gate limit realized h = ground arith

trade_checks-pass :
    (l : Limits) (n e r : Fixed) (d : Decision)
    → (trade_checks l n e r d).allowed ≡ true
    → (d.allowed ≡ true) × TradePasses l n e r
unfolding trade_checks
trade_checks-pass l n e r d h =
    let (h1, c1) = (deny_if-allows _ over_daily_loss _).0 h in
    let (h2, c2) = (deny_if-allows _ below_min_expected_edge _).0 h1 in
    let (h3, c3) = (deny_if-allows _ over_trade_notional d).0 h2 in
    (h3, (ground arith, ground arith, loss_gate l.daily_loss_limit r c1))

book_checks-pass :
    (l : Limits) (now : Time) (v : Venue) (w : Option SnapshotView) (d : Decision)
    → ((book_checks l now v w d).allowed ≡ true) ↔ ((d.allowed ≡ true) × BookPasses l now w)
unfolding book_checks
book_checks-pass l now v none d = (λ h. cc, λ h. absurd h.1)
book_checks-pass l now v (some w) d = (λ h. ground arith, λ h. ground arith)

-- The gates on exposure, in quote currency by a venue's mid price, where there is one: at the
-- venue, and for the sell venue also for the symbol and in total.
abbrev pub VenuePasses : Limits → Exposure → Venue → Option Fixed → Type 0
VenuePasses l x v none = Unit
VenuePasses l x v (some mid) =
    (n : Fixed) × ((x.venue_exposure v >>= λ e. mul e mid) ≡ returns n)
    × Within l.max_venue_exposure n

abbrev pub TotalPasses : Limits → Exposure → Venue → Option Fixed → Type 0
TotalPasses l x v none = Unit
TotalPasses l x v (some mid) =
    (n t : Fixed) × ((x.venue_exposure v >>= λ e. mul e mid) ≡ returns n)
    × ((x.total_exposure >>= λ e. mul e mid) ≡ returns t)
    × Within l.max_venue_exposure n
    × Within l.max_symbol_exposure n
    × Within l.max_total_exposure t

buy_exposure-pass :
    (l : Limits) (x : Exposure) (v : Venue) (m : Option Fixed) (d d' : Decision)
    → buy_exposure l x v m d ≡ returns d'
    → (d'.allowed ≡ true)
    → (d.allowed ≡ true) × VenuePasses l x v m
unfolding buy_exposure
buy_exposure-pass l x v none d d' e h = (ground arith, tt)
buy_exposure-pass l x v (some mid) d d' e h =
    let (y, e1, h1) = >>=-returns (x.venue_exposure v) _ e in
    let (n, e2, h2) = >>=-returns (mul y mid) _ h1 in
    (ground arith, (n, ap (λ o. o >>= λ z. mul z mid) e1 ∙ e2, ground arith))

sell_exposure-pass :
    (l : Limits) (x : Exposure) (v : Venue) (m : Option Fixed) (d d' : Decision)
    → sell_exposure l x v m d ≡ returns d'
    → (d'.allowed ≡ true)
    → (d.allowed ≡ true) × TotalPasses l x v m
unfolding sell_exposure
sell_exposure-pass l x v none d d' e h = (ground arith, tt)
sell_exposure-pass l x v (some mid) d d' e h =
    let (y, e1, h1) = >>=-returns (x.venue_exposure v) _ e in
    let (n, e2, h2) = >>=-returns (mul y mid) _ h1 in
    let (z, e3, h3) = >>=-returns x.total_exposure _ h2 in
    let (t, e4, h4) = >>=-returns (mul z mid) _ h3 in
    (
      ground arith,
      (
        n,
        t,
        ap (λ o. o >>= λ w. mul w mid) e1 ∙ e2,
        ap (λ o. o >>= λ w. mul w mid) e3 ∙ e4,
        ground arith,
        ground arith,
        ground arith,
      ),
    )

-- All gates at once: the notional, and each venue's mid price, are what the check computed.
pub record AllPass (l : Limits) (s : State) (x : Exposure) (m : Manager) (read : Time)
    (mid : Venue → Outcome (Option Fixed)) (r : Request) : Type 0 where
  pub notional : Fixed
  pub notional_of : mul r.buy_vwap r.qty ≡ returns notional
  pub buy_mid : Option Fixed
  pub buy_mid_of : mid r.buy_venue ≡ returns buy_mid
  pub sell_mid : Option Fixed
  pub sell_mid_of : mid r.sell_venue ≡ returns sell_mid
  pub counters : CountersPass l s
  pub trade : TradePasses l notional r.expected_net x.realized
  pub buy_book : BookPasses l r.now (snapshot read r.buy_venue r.symbol 1 m)
  pub sell_book : BookPasses l r.now (snapshot read r.sell_venue r.symbol 1 m)
  pub buy_exposed : VenuePasses l x r.buy_venue buy_mid
  pub sell_exposed : TotalPasses l x r.sell_venue sell_mid

-- A request that is allowed has passed every gate: kill switch, outstanding orders, failures in a
-- row, notional, edge, daily loss, readiness, staleness and age of both books, and exposure.
pub allowed_passes :
    (l : Limits) (s : State) (x : Exposure) (m : Manager) (read : Time)
    (mid : Venue → Outcome (Option Fixed)) (r : Request) (d : Decision)
    → check_opportunity l s x m read mid r ≡ returns d
    → d.allowed ≡ true
    → AllPass l s x m read mid r
unfolding check_opportunity
allowed_passes l s x m read mid r d e h =
    let (n, e1, h1) = >>=-returns (mul r.buy_vwap r.qty) _ e in
    let (mb, e2, h2) = >>=-returns (mid r.buy_venue) _ h1 in
    let (d5, e3, h3) = >>=-returns _ _ h2 in
    let (ms, e4, h4) = >>=-returns (mid r.sell_venue) _ h3 in
    let (a5, t5) = sell_exposure-pass l x r.sell_venue ms d5 d h4 h in
    let (a4, v4) = buy_exposure-pass l x r.buy_venue mb _ d5 e3 a5 in
    let (a3, b3) = (book_checks-pass l r.now r.sell_venue _ _).0 a4 in
    let (a2, b2) = (book_checks-pass l r.now r.buy_venue _ _).0 a3 in
    let (a1, t1) = trade_checks-pass l n r.expected_net x.realized _ a2 in
    let (_, c1) = (counter_checks-pass l s (record { allowed = true; reasons = [] })).0 a1 in
    record {
      notional = n;
      notional_of = e1;
      buy_mid = mb;
      buy_mid_of = e2;
      sell_mid = ms;
      sell_mid_of = e4;
      counters = c1;
      trade = t1;
      buy_book = b2;
      sell_book = b3;
      buy_exposed = v4;
      sell_exposed = t5;
    }

-- Every check that returns while the kill switch is on denies the request, whatever the limits
-- and the rest of the state.
pub kill_switch_denies :
    (l : Limits) (s : State) (x : Exposure) (m : Manager) (read : Time)
    (mid : Venue → Outcome (Option Fixed)) (r : Request) (d : Decision) (reason : String)
    → check_opportunity l (activate_kill_switch reason s) x m read mid r ≡ returns d
    → d.allowed ≡ false
unfolding activate_kill_switch
kill_switch_denies l s x m read mid r d reason e = elim (Bool-cases d.allowed) [
  | inr no_trade ↦ no_trade
  | inl h ↦ cc ((allowed_passes l (activate_kill_switch reason s) x m read mid r d e h).counters.0)
]
