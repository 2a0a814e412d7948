-- ===== src/Fnv.antt =====
-- The FNV-1a loops that internal/journal/journal.go, internal/book/book.go and
-- internal/engine/engine.go write out over uint64s, and the bytes of a text in UTF-8.
use Prim.Native.Char.{code}
use Prim.Native.String.{[] as no_text, ◌∷◌ as in_front}
use crossvenue.Base.{
  ℕ, zero, suc, ◌+◌, ◌-◌, ◌*◌, ◌/◌, ◌%◌, ◌^◌, List, [], ◌∷◌, ◌++◌, String, if◌then◌else◌, ltb,
}
use crossvenue.Base.Int.{ℤ, pos, negsuc}
use crossvenue.Domain.{Level}

abbrev pub Bytes : Type 0
Bytes = List ℕ

-- The bytes that Go holds for a rune.
abbrev rune_bytes : ℕ → Bytes
rune_bytes n =
    if ltb n 128
    then n ∷ []
    else if ltb n 2048
    then (192 + n / 64) ∷ (128 + n % 64) ∷ []
    else if ltb n 65536
    then (224 + n / 4096) ∷ (128 + n / 64 % 64) ∷ (128 + n % 64) ∷ []
    else (240 + n / 262144) ∷ (128 + n / 4096 % 64) ∷ (128 + n / 64 % 64) ∷ (128 + n % 64) ∷ []

unfoldable pub bytes_of : String → Bytes
bytes_of no_text = []
bytes_of (in_front c s) = rune_bytes (code c) ++ bytes_of s

-- `a ^ b` on the lowest bits.
unfoldable pub xor_bits : ℕ → ℕ → ℕ → ℕ
xor_bits zero a b = 0
xor_bits (suc n) a b = (a + b) % 2 + 2 * xor_bits n (a / 2) (b / 2)

-- `h := uint64(1469598103934665603)`
abbrev pub start : ℕ
start = 1469598103934665603

-- The closure `mix` of a byte.
unfoldable pub mix_byte : ℕ → ℕ → ℕ
unfolding xor_bits
mix_byte b h = xor_bits 64 h b * 1099511628211 % 2 ^ 64

unfoldable pub mix_bytes : Bytes → ℕ → ℕ
unfolding mix_byte
mix_bytes [] h = h
mix_bytes (b ∷ bs) h = mix_bytes bs (mix_byte b h)

-- `mixStr`: the bytes, and a zero behind them.
unfoldable pub mix_text : Bytes → ℕ → ℕ
unfolding mix_bytes mix_byte
mix_text bs h = mix_byte 0 (mix_bytes bs h)

-- `uint64(v)` for an int64.
abbrev pub to_uint64 : ℤ → ℕ
to_uint64 (pos n) = n % 2 ^ 64
to_uint64 (negsuc n) = (2 ^ 64 * suc n - suc n) % 2 ^ 64

-- The eight bytes of a word, the lowest first.
unfoldable pub mix_low_bytes : ℕ → ℕ → ℕ → ℕ
unfolding mix_byte
mix_low_bytes zero v h = h
mix_low_bytes (suc n) v h = mix_low_bytes n (v / 256) (mix_byte (v % 256) h)

-- The closure `mix` of a word.
unfoldable pub mix_word : ℤ → ℕ → ℕ
unfolding mix_low_bytes
mix_word v h = mix_low_bytes 8 (to_uint64 v) h

-- A side's prices and quantities.
unfoldable pub mix_levels : List Level → ℕ → ℕ
unfolding mix_word
mix_levels [] h = h
mix_levels (l ∷ ls) h = mix_levels ls (mix_word l.qty (mix_word l.price h))
