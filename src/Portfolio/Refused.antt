-- ===== src/Portfolio/Refused.antt =====
-- A trade of internal/portfolio/portfolio.go that is refused for want of funds.
use mathlib.Core.Path.{subst}
use crossvenue.Base.{
  Option, none, some, String, ◌≡◌, inl, inr, refl, sym, ap, ◌∙◌, arith, string_eq,
}
use crossvenue.Base.Int.{ltb_ℤ, ◌<ℤ◌}
use crossvenue.Base.Dict.{lookup, insert, lookup-insert_self, lookup-insert_ne, key_cases}
use crossvenue.Base.Outcome.{returns, ◌>>=◌, >>=-returns, guard-returns, returns_eq}
use crossvenue.Decimal.{Fixed, add, sub, mul}
use crossvenue.Domain.{Venue}
use crossvenue.Portfolio.{
  LedgerError, Balance, Ledger, bal_key, or_empty, balance, balance_locked, move_position, add_buy,
  apply_buy,
}

-- The available and reserved balances, the positions and the realised profit are as before.
abbrev pub Unchanged : Ledger → Ledger → Type 0
Unchanged l l' =
    ((w : Venue) (c : String)
      → ((balance w c l').available ≡ (balance w c l).available)
        × ((balance w c l').reserved ≡ (balance w c l).reserved))
    × (l'.positions ≡ l.positions)
    × (l'.realized ≡ l.realized)

no_error : {e : LedgerError} → none ≡ some e → ⊥
no_error h = cc

abbrev Reads : Balance → Balance → Type 0
Reads a b = (a.available ≡ b.available) × (a.reserved ≡ b.reserved)

created-Reads :
    (v w : Venue) (a c : String) (m : Option Balance)
    → Reads (or_empty w c (some (or_empty v a m))) (or_empty w c m)
created-Reads v w a c none = (refl, refl)
created-Reads v w a c (some b) = (refl, refl)

balance_locked-Reads :
    (v w : Venue) (a c : String) (l : Ledger)
    → Reads (balance w c (balance_locked v a l).0) (balance w c l)
unfolding balance_locked balance
balance_locked-Reads v w a c l = elim (key_cases (bal_key v a) (bal_key w c)) [
  | inl same ↦
      let m = l.balances in
      let b = or_empty v a (lookup (bal_key v a) m) in
      let e = lookup-insert_self (bal_key v a) b m in
      let r = created-Reads v w a c (lookup (bal_key v a) m) in
      subst
        (λ k.
          Reads (or_empty w c (lookup k (insert (bal_key v a) b m))) (or_empty w c (lookup k m)))
        same
        (ap (λ o. (or_empty w c o).available) e ∙ r.0, ap (λ o. (or_empty w c o).reserved) e ∙ r.1)
  | inr differs ↦
      let e = lookup-insert_ne (bal_key v a) (bal_key w c) _ l.balances differs in
      (ap (λ o. (or_empty w c o).available) e, ap (λ o. (or_empty w c o).reserved) e)
]

-- A buy that is refused was short of the cost in the quote balance; it changes no available or
-- reserved balance, no position and no realised profit.
pub apply_buy-refused :
    (v : Venue) (symbol base quote : String) (px qty fee : Fixed) (l : Ledger) {l' : Ledger}
    {err : LedgerError}
    → apply_buy v symbol base quote px qty fee l ≡ returns (l', some err)
    → ((cost : Fixed) × ((mul px qty >>= λ gross. add gross fee) ≡ returns cost)
        × ((balance v quote l).available <ℤ cost))
      × Unchanged l l'
unfolding apply_buy balance_locked move_position
apply_buy-refused v symbol base quote px qty fee l {l'} h =
    let (gross, e1, h1) = >>=-returns (mul px qty) _ h in
    let (cost, e2, h2) = >>=-returns (add gross fee) _ h1 in
    elim (guard-returns (ltb_ℤ (balance v quote l).available cost) _ _ h2) [
      | inl (short, e) ↦
          let e6 : (balance_locked v quote l).0 ≡ l' = sym (ap (λ r. r.0) e) in
          (
            (cost, ap (λ o. o >>= λ g. add g fee) e1 ∙ e2, ground arith),
            subst (λ m. Unchanged l m) e6 (λ w c. balance_locked-Reads v w quote c l, refl, refl),
          )
      | inr (covered, h3) ↦
          let (left, e3, h4) = >>=-returns (sub (balance v quote l).available cost) _ h3 in
          let (held, e4, h5) = >>=-returns (add _ qty) _ h4 in
          let (p, e5, h6) = >>=-returns (add_buy px qty _) _ h5 in
          absurd (no_error (ap (λ r. r.1) (returns_eq h6)))
    ]
