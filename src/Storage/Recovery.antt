-- ===== src/Storage/Recovery.antt =====
-- Balances that internal/storage/storage.go saved and loads again.
use mathlib.Core.Path.{subst}
use mathlib.Core.List.{Perm, Permᴰ}
use crossvenue.Base.{
  map, sym, ap, ℕ, ◌^◌, ◌<◌, true, some, List, [], ◌∷◌, String, if◌then◌else◌, pair_eq, same_pair,
  ◌≡◌, refl, inl, inr, Bool-cases, Option-cases,
}
use crossvenue.Base.Int.{neg_part}
use crossvenue.Base.Dict.{Dict, insert}
use crossvenue.Base.Lists.{All}
use crossvenue.Base.Try.{ok}
use crossvenue.Decimal.{Fixed, IsInt64}
use crossvenue.Decimal.Text.{parse, string}
use crossvenue.Decimal.Text.RoundTrip.{parse-string}
use crossvenue.Portfolio.{Balance, Position}
use crossvenue.Storage.{
  Numeric, Answer, done, Tables, BalanceRow, put_balance, put_position, save_portfolio, commit,
  load_rows, load_balances, or_zero,
}
use crossvenue.Storage.Portfolio.{put_all, put_all-put_each}

abbrev pub Prints : Fixed → Type 0
Prints f = IsInt64 f × (neg_part f < 2 ^ 63)

abbrev pub BalancePrints : Balance → Type 0
BalancePrints b = Prints b.available × Prints b.reserved

abbrev pub PositionPrints : Position → Type 0
PositionPrints p = Prints p.qty × Prints p.avg_cost

-- A balance in a list takes the place of the one of its venue and asset, or goes to the end.
abbrev pub overwrite : Balance → List Balance → List Balance
overwrite b [] = b ∷ []
overwrite b (c ∷ cs) =
    if same_pair (c.venue, c.asset) (b.venue, b.asset) then b ∷ cs else c ∷ overwrite b cs

abbrev pub overwrite_all : List Balance → List Balance → List Balance
overwrite_all [] old = old
overwrite_all (b ∷ bs) old = overwrite_all bs (overwrite b old)

module _ (n : Numeric) where
  -- The rows hold these balances, one each.
  abbrev pub Holding : Dict (String × String) (BalanceRow n) → List Balance → Type 0
  Holding [] [] = Unit
  Holding [] (b ∷ bs) = ⊥
  Holding (r ∷ rows) [] = ⊥
  Holding ((k, row) ∷ rows) (b ∷ bs) =
      (k ≡ (b.venue, b.asset))
      × (parse (n.text row.available) ≡ ok b.available)
      × (parse (n.text row.reserved) ≡ ok b.reserved)
      × Holding rows bs

  -- The balance of a row that holds one.
  abbrev row_balance : (String × String) × BalanceRow n → Balance
  row_balance (k, row) = record {
    venue = k.0;
    asset = k.1;
    available = or_zero n (parse (n.text row.available));
    reserved = or_zero n (parse (n.text row.reserved));
  }

  abbrev Parses : (String × String) × BalanceRow n → Type 0
  Parses (k, row) = (f : Fixed) × (parse (n.text row.available) ≡ ok f)

  load-Parses :
      (rows : List ((String × String) × BalanceRow n))
      → All Parses rows
      → load_rows n rows ≡ ok (map row_balance rows)
  unfolding load_rows
  load-Parses [] h = refl
  load-Parses ((k, row) ∷ rows) ((f, e), h) = rw (e, load-Parses rows h) refl

  Holding-Parses :
      (rows : Dict (String × String) (BalanceRow n)) (bs : List Balance)
      → Holding rows bs
      → All Parses rows × (map row_balance rows ≡ bs)
  Holding-Parses [] [] h = (tt, refl)
  Holding-Parses [] (b ∷ bs) h = absurd h
  Holding-Parses (r ∷ rows) [] h = absurd h
  Holding-Parses ((k, row) ∷ rows) (b ∷ bs) (at, available, reserved, h) =
      let (p, same) = Holding-Parses rows bs h in
      let one : row_balance (k, row) ≡ b = rw (available, reserved, at) refl in
      (((b.available, available), p), λ i. one i ∷ same i)

  -- Rows in another order hold the same balances, in that order.
  All-permᴰ :
      {rows listed : List ((String × String) × BalanceRow n)}
      → Permᴰ listed rows
      → All Parses rows
      → All Parses listed
  All-permᴰ Permᴰ.nil h = tt
  All-permᴰ (Permᴰ.cons e p) h = (subst Parses (sym e) h.0, All-permᴰ p h.1)
  All-permᴰ (Permᴰ.swap e f) h = (subst Parses (sym e) h.1.0, (subst Parses (sym f) h.0, h.1.1))
  All-permᴰ (Permᴰ.trans p q) h = All-permᴰ p (All-permᴰ q h)

  map-permᴰ :
      {rows listed : List ((String × String) × BalanceRow n)}
      → Permᴰ listed rows
      → Permᴰ (map row_balance listed) (map row_balance rows)
  map-permᴰ Permᴰ.nil = Permᴰ.nil
  map-permᴰ (Permᴰ.cons e p) = Permᴰ.cons (ap row_balance e) (map-permᴰ p)
  map-permᴰ (Permᴰ.swap e f) = Permᴰ.swap (ap row_balance e) (ap row_balance f)
  map-permᴰ (Permᴰ.trans p q) = Permᴰ.trans (map-permᴰ p) (map-permᴰ q)

  insert-Holding :
      (b : Balance) (row : BalanceRow n) (rows : Dict (String × String) (BalanceRow n))
      (bs : List Balance)
      → parse (n.text row.available) ≡ ok b.available
      → parse (n.text row.reserved) ≡ ok b.reserved
      → Holding rows bs
      → Holding (insert (b.venue, b.asset) row rows) (overwrite b bs)
  unfolding insert
  insert-Holding b row [] [] p q h = (refl, p, q, tt)
  insert-Holding b row [] (c ∷ cs) p q h = absurd h
  insert-Holding b row (r ∷ rows) [] p q h = absurd h
  insert-Holding b row ((k, old) ∷ rows) (c ∷ cs) p q h =
      elim (Bool-cases (same_pair (c.venue, c.asset) (b.venue, b.asset))) [
        | inl same ↦ rw (h.0, same) (refl, p, q, h.3)
        | inr differs ↦ rw (h.0, differs) (refl, h.1, h.2, insert-Holding b row rows cs p q h.3)
      ]

  stored_text : (f : Fixed) → Prints f → (v : n.Value) × (n.stored (string f) ≡ some v)
  stored_text f h = elim (Option-cases (n.stored (string f))) [
    | inl e ↦ absurd (n.stored_if_parsed (string f) f (parse-string f h.0 h.1) e)
    | inr found ↦ found
  ]

  put_balance-Holding :
      (b : Balance) (t : Tables n) (bs : List Balance)
      → BalancePrints b
      → Holding t.balances bs
      → (t' : Tables n) × (put_balance n b t ≡ some t') × Holding t'.balances (overwrite b bs)
  unfolding put_balance
  put_balance-Holding b t bs p h =
      let (v, e) = stored_text b.available p.0 in
      let (w, k) = stored_text b.reserved p.1 in
      let row : BalanceRow n = record { available = v; reserved = w } in
      (
        record t { balances = insert (b.venue, b.asset) row t.balances },
        rw (e, k) refl,
        insert-Holding b row t.balances bs
            (n.kept (string b.available) b.available v (parse-string b.available p.0.0 p.0.1) e)
            (n.kept (string b.reserved) b.reserved w (parse-string b.reserved p.1.0 p.1.1) k) h,
      )

  put_balances-Holding :
      (bals : List Balance) (t : Tables n) (bs : List Balance)
      → All BalancePrints bals
      → Holding t.balances bs
      → (t' : Tables n) × (put_all n (put_balance n) bals t ≡ some t')
        × Holding t'.balances (overwrite_all bals bs)
  put_balances-Holding [] t bs p h = (t, refl, h)
  put_balances-Holding (b ∷ bals) t bs p h =
      let (t1, e, k) = put_balance-Holding b t bs p.0 h in
      let (t2, e2, k2) = put_balances-Holding bals t1 (overwrite b bs) p.1 k in (t2, rw e e2, k2)

  put_positions_keep :
      (poss : List Position) (t : Tables n)
      → All PositionPrints poss
      → (t' : Tables n) × (put_all n (put_position n) poss t ≡ some t') × (t'.balances ≡ t.balances)
  unfolding put_position
  put_positions_keep [] t p = (t, refl, refl)
  put_positions_keep (x ∷ poss) t p =
      let (v, e) = stored_text x.qty p.0.0 in
      let (w, k) = stored_text x.avg_cost p.0.1 in
      let t1 = record t {
        positions = insert (x.venue, x.symbol) (record { qty = v; avg_cost = w }) t.positions;
      } in
      let (t2, e2, same) = put_positions_keep poss t1 p.1 in (t2, rw (e, k) e2, same)

  -- A portfolio of printable numbers whose calls are all answered is saved without an error, and in
  -- whatever order PostgreSQL lists the rows, what is loaded then is the balances that were there,
  -- with the saved ones in the place of those of the same venue and asset, in some order.
  pub load_balances-save_portfolio :
      (answers : ℕ → Answer) (bals : List Balance) (poss : List Position) (t : Tables n)
      (old : List Balance)
      (listed : Dict (String × String) (BalanceRow n) → List ((String × String) × BalanceRow n))
      → ((i : ℕ) → answers i ≡ done)
      → All BalancePrints bals
      → All PositionPrints poss
      → Holding t.balances old
      → ((rows : Dict (String × String) (BalanceRow n)) → Permᴰ (listed rows) rows)
      → ((save_portfolio n answers bals poss t).1 ≡ true)
        × ((loaded : List Balance) × (load_balances n done listed
                (save_portfolio n answers bals poss t).0
              ≡ some (ok loaded))
            × Perm loaded (overwrite_all bals old))
  unfolding save_portfolio commit load_balances
  load_balances-save_portfolio answers bals poss t old listed d p q h order =
      let (t1, e1, k1) = put_balances-Holding bals t old p h in
      let (t2, e2, same) = put_positions_keep poss t1 q in
      let (i, s1) = put_all-put_each n (put_balance n) answers bals 1 t t1 d e1 in
      let (j, s2) = put_all-put_each n (put_position n) answers poss i t1 t2 d e2 in
      let (parses, all) = Holding-Parses t1.balances (overwrite_all bals old) k1 in
      let rows = listed t1.balances in
      let read = load-Parses rows (All-permᴰ (order t1.balances) parses) in
      (
        rw (d 0, s1, s2, d j) refl,
        (
          map row_balance rows,
          rw (d 0, s1, s2, d j, same, read) refl,
          subst (Perm (map row_balance rows)) all ∣ map-permᴰ (order t1.balances) ∣₁,
        ),
      )
