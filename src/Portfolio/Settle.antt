-- ===== src/Portfolio/Settle.antt =====
-- How a trade of internal/portfolio/portfolio.go settles in the balances.
use mathlib.Core.Path.{subst}
use crossvenue.Base.{none, String, ◌≡◌, ◌≢◌, inl, inr, sym, ap, ◌∙◌, arith, string_eq}
use crossvenue.Base.Int.{ltb_ℤ, ◌≤ℤ◌}
use crossvenue.Base.Outcome.{returns, ◌>>=◌, >>=-returns, guard-returns, returns_eq}
use crossvenue.Decimal.{Fixed, add, sub, mul}
use crossvenue.Domain.{Venue}
use crossvenue.Portfolio.{
  Position, Ledger, bal_key, pos_key, balance, balance_locked, set_balance, move_position, add_buy,
  add_sell, apply_buy, apply_sell,
}
use crossvenue.Portfolio.Readings.{settled, settled-readings, set_balance-ne}

-- What a buy does: it costs price times quantity and the fee, which the quote balance covered;
-- the quote pays that, the base gains the quantity, and no other balance changes.
abbrev pub BuySettles : Venue → String → String → Fixed → Fixed → Fixed → Ledger → Ledger → Type 0
BuySettles v base quote px qty fee l l' =
    (cost : Fixed) × ((mul px qty >>= λ gross. add gross fee) ≡ returns cost)
    × (cost ≤ℤ (balance v quote l).available)
    × (sub (balance v quote l).available cost ≡ returns (balance v quote l').available)
    × (add (balance v base l).available qty ≡ returns (balance v base l').available)
    × ((w : Venue) (c : String)
        → bal_key v quote ≢ bal_key w c
        → bal_key v base ≢ bal_key w c
        → balance w c l' ≡ balance w c l)

buy-readings :
    (v : Venue) (base quote k : String) (px qty fee gross cost left held : Fixed) (p : Position)
    (l : Ledger)
    → bal_key v quote ≢ bal_key v base
    → mul px qty ≡ returns gross
    → add gross fee ≡ returns cost
    → cost ≤ℤ (balance v quote l).available
    → sub (balance v quote l).available cost ≡ returns left
    → add (balance v base (set_balance v quote left l)).available qty ≡ returns held
    → BuySettles v base quote px qty fee l (settled v quote base left held k p l)
buy-readings v base quote k px qty fee gross cost left held p l ne e1 e2 covered e3 e4 =
    let (r1, r2, r3) = settled-readings v quote base k left held p l ne in
    let f = set_balance-ne v v quote base left l ne in
    (
      cost,
      ap (λ o. o >>= λ g. add g fee) e1 ∙ e2,
      covered,
      e3 ∙ ap returns (sym r1),
      ap (λ b. add b.available qty) (sym f) ∙ e4 ∙ ap returns (sym r2),
      r3,
    )

-- A buy that succeeds settles exactly: the quote balance covered price times quantity and the fee
-- and pays it, the base balance gains the quantity, and no other balance changes, where base and
-- quote are different balances.
pub apply_buy-settles :
    (v : Venue) (symbol base quote : String) (px qty fee : Fixed) (l : Ledger) {l' : Ledger}
    → bal_key v quote ≢ bal_key v base
    → apply_buy v symbol base quote px qty fee l ≡ returns (l', none)
    → BuySettles v base quote px qty fee l l'
unfolding apply_buy balance_locked set_balance move_position
apply_buy-settles v symbol base quote px qty fee l {l'} ne h =
    let (gross, e1, h1) = >>=-returns (mul px qty) _ h in
    let (cost, e2, h2) = >>=-returns (add gross fee) _ h1 in
    elim (guard-returns (ltb_ℤ (balance v quote l).available cost) _ _ h2) [
      | inl (_, e) ↦ cc
      | inr (covered, h3) ↦
          let (left, e3, h4) = >>=-returns (sub (balance v quote l).available cost) _ h3 in
          let (held, e4, h5) = >>=-returns (add _ qty) _ h4 in
          let (p, e5, h6) = >>=-returns (add_buy px qty _) _ h5 in
          let e6 : settled v quote base left held (pos_key v symbol) p l ≡ l' =
            ap (λ r. r.0) (returns_eq h6) in
          subst (λ m. BuySettles v base quote px qty fee l m) e6
            (buy-readings v base quote (pos_key v symbol) px qty fee gross cost left held p l ne e1
              e2 (ground arith) e3 e4)
    ]

-- What a sell does: the base balance covered the quantity and pays it; the quote gains price times
-- quantity less the fee, and no other balance changes.
abbrev pub SellSettles : Venue → String → String → Fixed → Fixed → Fixed → Ledger → Ledger → Type 0
SellSettles v base quote px qty fee l l' =
    (proceeds : Fixed) × ((mul px qty >>= λ gross. sub gross fee) ≡ returns proceeds)
    × (qty ≤ℤ (balance v base l).available)
    × (sub (balance v base l).available qty ≡ returns (balance v base l').available)
    × (add (balance v quote l).available proceeds ≡ returns (balance v quote l').available)
    × ((w : Venue) (c : String)
        → bal_key v base ≢ bal_key w c
        → bal_key v quote ≢ bal_key w c
        → balance w c l' ≡ balance w c l)

sell-readings :
    (v : Venue) (base quote k : String) (px qty fee gross proceeds left held : Fixed) (p : Position)
    (l : Ledger)
    → bal_key v base ≢ bal_key v quote
    → mul px qty ≡ returns gross
    → sub gross fee ≡ returns proceeds
    → qty ≤ℤ (balance v base l).available
    → sub (balance v base l).available qty ≡ returns left
    → add (balance v quote (set_balance v base left l)).available proceeds ≡ returns held
    → SellSettles v base quote px qty fee l (settled v base quote left held k p l)
sell-readings v base quote k px qty fee gross proceeds left held p l ne e1 e2 covered e3 e4 =
    let (r1, r2, r3) = settled-readings v base quote k left held p l ne in
    let f = set_balance-ne v v base quote left l ne in
    (
      proceeds,
      ap (λ o. o >>= λ g. sub g fee) e1 ∙ e2,
      covered,
      e3 ∙ ap returns (sym r1),
      ap (λ b. add b.available proceeds) (sym f) ∙ e4 ∙ ap returns (sym r2),
      r3,
    )

-- A sell that succeeds settles exactly: the base balance covered the quantity and pays it, the
-- quote balance gains price times quantity less the fee, and no other balance changes, where base
-- and quote are different balances.
pub apply_sell-settles :
    (v : Venue) (symbol base quote : String) (px qty fee : Fixed) (l : Ledger) {l' : Ledger}
    → bal_key v base ≢ bal_key v quote
    → apply_sell v symbol base quote px qty fee l ≡ returns (l', none)
    → SellSettles v base quote px qty fee l l'
unfolding apply_sell balance_locked set_balance move_position
apply_sell-settles v symbol base quote px qty fee l {l'} ne h =
    elim (guard-returns (ltb_ℤ (balance v base l).available qty) _ _ h) [
      | inl (_, e) ↦ cc
      | inr (covered, h1) ↦
          let (left, e3, h2) = >>=-returns (sub (balance v base l).available qty) _ h1 in
          let (gross, e1, h3) = >>=-returns (mul px qty) _ h2 in
          let (proceeds, e2, h4) = >>=-returns (sub gross fee) _ h3 in
          let (held, e4, h5) = >>=-returns (add _ proceeds) _ h4 in
          let (p, e5, h6) = >>=-returns (add_sell px qty _) _ h5 in
          let e6 : settled v base quote left held (pos_key v symbol) p l ≡ l' =
            ap (λ r. r.0) (returns_eq h6) in
          subst (λ m. SellSettles v base quote px qty fee l m) e6
            (sell-readings v base quote (pos_key v symbol) px qty fee gross proceeds left held p l
              ne e1 e2 (ground arith) e3 e4)
    ]
