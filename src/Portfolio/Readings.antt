-- ===== src/Portfolio/Readings.antt =====
-- Balances of internal/portfolio/portfolio.go after writes.
use crossvenue.Base.{String, ◌≡◌, ◌≢◌, refl, sym, ap, ◌∙◌, arith, string_eq}
use crossvenue.Base.Dict.{lookup-insert_self, lookup-insert_ne}
use crossvenue.Decimal.{Fixed}
use crossvenue.Domain.{Venue}
use crossvenue.Portfolio.{
  Balance, Position, Ledger, bal_key, balance, put_balance, balance_locked, set_balance,
  put_position,
}

balance-put_self :
    (v : Venue) (a : String) (b : Balance) (l : Ledger)
    → balance v a (put_balance (bal_key v a) b l) ≡ b
unfolding balance
balance-put_self v a b l = let e = lookup-insert_self (bal_key v a) b l.balances in ground arith

balance-put_ne :
    (k : String) (v : Venue) (a : String) (b : Balance) (l : Ledger)
    → k ≢ bal_key v a
    → balance v a (put_balance k b l) ≡ balance v a l
unfolding balance
balance-put_ne k v a b l h = let e = lookup-insert_ne k (bal_key v a) b l.balances h in ground arith

pub set_balance_self :
    (v : Venue) (a : String) (x : Fixed) (l : Ledger)
    → (balance v a (set_balance v a x l)).available ≡ x
unfolding set_balance balance_locked
set_balance_self v a x l = ap (λ b. b.available) (balance-put_self v a _ (balance_locked v a l).0)

pub set_balance-ne :
    (v w : Venue) (a c : String) (x : Fixed) (l : Ledger)
    → bal_key v a ≢ bal_key w c
    → balance w c (set_balance v a x l) ≡ balance w c l
unfolding set_balance balance_locked
set_balance-ne v w a c x l h =
    balance-put_ne (bal_key v a) w c _ (balance_locked v a l).0 h
    ∙ balance-put_ne (bal_key v a) w c _ l h

-- Two writes to different balances of a venue, then one to a position.
abbrev pub settled : Venue → String → String → Fixed → Fixed → String → Position → Ledger → Ledger
settled v first second x y k p l =
    put_position k p (set_balance v second y (set_balance v first x l))

balance-put_position :
    (w : Venue) (c : String) (k : String) (p : Position) (l : Ledger)
    → balance w c (put_position k p l) ≡ balance w c l
unfolding balance
balance-put_position w c k p l = refl

pub settled-readings :
    (v : Venue) (a b k : String) (x y : Fixed) (p : Position) (l : Ledger)
    → bal_key v a ≢ bal_key v b
    → ((balance v a (settled v a b x y k p l)).available ≡ x)
      × ((balance v b (settled v a b x y k p l)).available ≡ y)
      × ((w : Venue) (c : String)
          → bal_key v a ≢ bal_key w c
          → bal_key v b ≢ bal_key w c
          → balance w c (settled v a b x y k p l) ≡ balance w c l)
settled-readings v a b k x y p l h =
    let l1 = set_balance v a x l in
    let l2 = set_balance v b y l1 in
    (
      ap (λ q. q.available)
            (balance-put_position v a k p l2 ∙ set_balance-ne v v b a y l1 (λ e. h (sym e)))
          ∙ set_balance_self v a x l,
      ap (λ q. q.available) (balance-put_position v b k p l2) ∙ set_balance_self v b y l1,
      λ w c ha hb.
          balance-put_position w c k p l2
          ∙ set_balance-ne v w b c y l1 hb
          ∙ set_balance-ne v w a c x l ha,
    )
