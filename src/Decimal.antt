-- ===== src/Decimal.antt =====
-- pkg/decimal/decimal.go: the fixed-point type, and its arithmetic on int64 with wrap-around.
-- A `Fixed` is the integer that its int64 stands for; `IsInt64` says that it is one. A panic of
-- the source is an outcome of its own.
pub mod Exact
pub mod Quotient
pub mod Whole
pub mod Text
use crossvenue.Base.{
  ℕ, suc, ◌+◌, ◌-◌, ◌*◌, ◌/◌, ◌%◌, ◌^◌, ◌≤◌, ◌<◌, Bool, true, false, not, ◌&&◌, ◌||◌, ltb, leb, eqb,
  if◌then◌else◌,
}
use crossvenue.Base.Int.{
  ℤ, pos, negsuc, pos_part, neg_part, ◌+ℤ◌, ◌*ℤ◌, sub_ℕ, neg, ltb_ℤ, eqb_ℤ, magnitude,
}
use crossvenue.Base.Outcome.{Outcome, returns, panics, overflow, div_by_zero, ◌>>=◌}

-- `type Fixed int64`
abbrev pub Fixed : Type 0
Fixed = ℤ

-- The values of an int64.
abbrev pub IsInt64 : ℤ → Type 0
IsInt64 a = (pos_part a < 2 ^ 63) × (neg_part a ≤ 2 ^ 63)

abbrev pub max_int64 : ℕ
max_int64 = 2 ^ 63 - 1

-- `Scale`
abbrev pub scale : ℕ
scale = 100000000

-- The low 64 bits of an integer, and the int64 that a bit pattern stands for.
abbrev pub bits64 : ℤ → ℕ
bits64 (pos n) = n % 2 ^ 64
bits64 (negsuc n) = 2 ^ 64 - 1 - n % 2 ^ 64

abbrev pub signed64 : ℕ → ℤ
signed64 u = if ltb u (2 ^ 63) then pos u else negsuc (2 ^ 64 - 1 - u)

-- Every int64 operation keeps the low 64 bits.
unfoldable pub wrap64 : ℤ → ℤ
wrap64 z = signed64 (bits64 z)

unfoldable pub from_int : ℤ → Fixed
from_int n = wrap64 (n *ℤ pos scale)

unfoldable pub add : Fixed → Fixed → Outcome Fixed
add f o =
    let r = wrap64 (f +ℤ o) in
    if (ltb_ℤ (pos 0) o && ltb_ℤ r f) || (ltb_ℤ o (pos 0) && ltb_ℤ f r)
    then panics overflow
    else returns r

unfoldable pub negate : Fixed → Fixed
negate f = wrap64 (neg f)

unfoldable pub sub : Fixed → Fixed → Outcome Fixed
sub f o = add f (negate o)

-- `abs64`: the conversion to uint64 takes the most negative int64 to 2^63.
unfoldable pub abs64 : ℤ → ℕ
unfolding negate
abs64 v = if ltb_ℤ v (pos 0) then bits64 (negate v) else bits64 v

-- `bits.Mul64` and `bits.Div64`
unfoldable pub mul64 : ℕ → ℕ → ℕ × ℕ
mul64 a b = (a * b / 2 ^ 64, a * b % 2 ^ 64)

unfoldable pub div64 : ℕ → ℕ → ℕ → Outcome (ℕ × ℕ)
div64 hi lo y =
    if leb y hi then panics overflow else returns ((hi * 2 ^ 64 + lo) / y, (hi * 2 ^ 64 + lo) % y)

xor_sign : Bool → Bool → Bool
xor_sign true b = not b
xor_sign false b = b

-- The end of `mulDiv`: the check of the quotient, and its sign.
signed_quotient : Bool → ℕ → Outcome ℤ
unfolding negate
signed_quotient minus q =
    if ltb max_int64 q
    then panics overflow
    else returns (if minus then negate (signed64 q) else signed64 q)

unfoldable pub mul_div : ℤ → ℤ → ℤ → Outcome ℤ
unfolding xor_sign abs64 mul64 div64 signed_quotient
mul_div a b c = if eqb_ℤ c (pos 0) then panics div_by_zero else do
  let hl = mul64 (abs64 a) (abs64 b)
  qr ← div64 hl.0 hl.1 (abs64 c)
  signed_quotient (xor_sign (ltb_ℤ a (pos 0)) (ltb_ℤ b (pos 0))) qr.0

unfoldable pub mul : Fixed → Fixed → Outcome Fixed
unfolding mul_div
mul f o = mul_div f o (pos scale)

-- `math.MaxInt64 / an`, which Go rounds toward zero, for a nonzero `an`.
abbrev max_div : ℤ → ℤ
max_div (pos n) = pos (max_int64 / n)
max_div (negsuc n) = sub_ℕ 0 (max_int64 / suc n)

-- The guard of `MulInt`; `an` and `af` are the wrapped negations, and the quotient of int64s
-- is rounded toward zero.
unfoldable pub mul_int : Fixed → ℤ → Outcome Fixed
unfolding negate
mul_int f n =
    let an = if ltb_ℤ n (pos 0) then negate n else n in
    let af = if ltb_ℤ f (pos 0) then negate f else f in
    if not (eqb_ℤ n (pos 0)) && (not (eqb_ℤ f (pos 0)) && ltb_ℤ (max_div an) af)
    then panics overflow
    else returns (wrap64 (f *ℤ n))

unfoldable pub div : Fixed → Fixed → Outcome Fixed
unfolding mul_div
div f o = if eqb_ℤ o (pos 0) then panics div_by_zero else mul_div f (pos scale) o

unfoldable pub mul_bps : Fixed → ℤ → Outcome Fixed
unfolding mul_div
mul_bps f bps = mul_div f bps (pos 10000)

-- `Cmp`, `IsZero`, `IsPositive`, `IsNegative` and `Abs`.
pub data Comparison : Type 0 where
  less same greater : Comparison

unfoldable pub cmp : Fixed → Fixed → Comparison
cmp f o = if ltb_ℤ f o then less else if ltb_ℤ o f then greater else same

abbrev pub is_zero : Fixed → Bool
is_zero f = eqb_ℤ f (pos 0)

abbrev pub is_positive : Fixed → Bool
is_positive f = ltb_ℤ (pos 0) f

abbrev pub is_negative : Fixed → Bool
is_negative f = ltb_ℤ f (pos 0)

unfoldable pub abs : Fixed → Fixed
unfolding negate
abs f = if ltb_ℤ f (pos 0) then negate f else f
