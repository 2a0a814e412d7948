-- ===== src/Witnesses/Settlement.antt =====
-- The theorems on balances and orders at concrete inputs.
use crossvenue.Base.{[], ◌∷◌, ◌≡◌, refl}
use crossvenue.Base.Int.{pos, ◌<ℤ◌, ◌*ℤ◌, ◌+ℤ◌, neg}
use crossvenue.Base.Dict.{insert, lookup}
use crossvenue.Base.Outcome.{returns, ◌>>=◌}
use crossvenue.Decimal.{Fixed, add, sub, mul, div, mul_int, wrap64, negate}
use crossvenue.Portfolio.{Ledger, balance, apply_buy, apply_sell, insufficient_funds}
use crossvenue.Portfolio.Settle.{BuySettles, SellSettles, apply_buy-settles, apply_sell-settles}
use crossvenue.Portfolio.Refused.{Unchanged, apply_buy-refused}

-- A ledger with a quote balance of 1000 and a base balance of 5.
abbrev funded : Ledger
funded = record {
  balances =
      (
        "a|USDT",
        record { venue = "a"; asset = "USDT"; available = pos 100000000000; reserved = pos 0 },
      )
      ∷ (
        "a|BTC",
        record { venue = "a"; asset = "BTC"; available = pos 500000000; reserved = pos 0 },
      )
      ∷ [];
  positions = [];
  realized = pos 0;
}

-- The ledger after it buys 2 at 100 for a fee of 1, and after it sells 2 at 110 for a fee of 1.
abbrev bought : Ledger
bought = record {
  balances =
      (
        "a|USDT",
        record { venue = "a"; asset = "USDT"; available = pos 79900000000; reserved = pos 0 },
      )
      ∷ (
        "a|BTC",
        record { venue = "a"; asset = "BTC"; available = pos 700000000; reserved = pos 0 },
      )
      ∷ [];
  positions =
      (
        "a|BTCUSDT",
        record { venue = "a"; symbol = "BTCUSDT"; qty = pos 200000000; avg_cost = pos 10000000000 },
      )
      ∷ [];
  realized = pos 0;
}

apply_buy-settles_example :
    BuySettles "a" "BTC" "USDT" (pos 10000000000) (pos 200000000) (pos 100000000) funded bought
unfolding apply_buy mul add wrap64 ◌+ℤ◌ lookup sub neg insert div
apply_buy-settles_example =
    apply_buy-settles "a" "BTCUSDT" "BTC" "USDT" (pos 10000000000) (pos 200000000) (pos 100000000)
      funded {l' = bought} (λ e. cc) refl

abbrev sold : Ledger
sold = record {
  balances =
      (
        "a|USDT",
        record { venue = "a"; asset = "USDT"; available = pos 101800000000; reserved = pos 0 },
      )
      ∷ (
        "a|BTC",
        record { venue = "a"; asset = "BTC"; available = pos 500000000; reserved = pos 0 },
      )
      ∷ [];
  positions =
      (
        "a|BTCUSDT",
        record { venue = "a"; symbol = "BTCUSDT"; qty = pos 0; avg_cost = pos 10000000000 },
      )
      ∷ [];
  realized = pos 0;
}

apply_sell-settles_example :
    SellSettles "a" "BTC" "USDT" (pos 11000000000) (pos 200000000) (pos 100000000) bought sold
unfolding apply_sell lookup sub add negate wrap64 neg ◌+ℤ◌ mul insert mul_int ◌*ℤ◌
apply_sell-settles_example =
    apply_sell-settles "a" "BTCUSDT" "BTC" "USDT" (pos 11000000000) (pos 200000000) (pos 100000000)
      bought {l' = sold} (λ e. cc) refl

apply_buy-refused_example :
    ((cost : Fixed) × ((mul (pos 10000000000) (pos 2000000000) >>= λ gross.
    add gross (pos 100000000))
        ≡ returns cost)
      × ((balance "a" "USDT" funded).available <ℤ cost))
    × Unchanged funded funded
unfolding apply_buy mul add wrap64 ◌+ℤ◌ lookup insert
apply_buy-refused_example =
    apply_buy-refused "a" "BTCUSDT" "BTC" "USDT" (pos 10000000000) (pos 2000000000) (pos 100000000)
      funded {l' = funded} {err = insufficient_funds} refl
