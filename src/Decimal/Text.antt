-- ===== src/Decimal/Text.antt =====
-- `Parse` and `String` of pkg/decimal/decimal.go. A text is its bytes. `Parse` walks runes; a byte
-- of a longer rune is no digit, as the rune is none, so walking bytes gives the same results.
-- Every int64 that `Parse` computes is at least zero and kept in range by the guards before it,
-- so natural numbers stand for them.
pub mod Numbers
pub mod Fractions
pub mod RoundTrip
use crossvenue.Base.{
  ℕ, zero, suc, ◌+◌, ◌-◌, ◌*◌, ◌/◌, ◌%◌, ◌^◌, Bool, true, false, ◌&&◌, ◌||◌, Option, none, some,
  List, [], ◌∷◌, ◌++◌, if◌then◌else◌, ltb, eqb,
}
use crossvenue.Base.Int.{ℤ, pos, negsuc, sub_ℕ, ltb_ℤ, eqb_ℤ}
use crossvenue.Base.Lists.{length}
use crossvenue.Base.Try.{Try, ok, fails, ◌>>=◌}
use crossvenue.Decimal.{Fixed, scale, max_int64, negate}

abbrev pub Bytes : Type 0
Bytes = List ℕ

-- `ErrInvalidInput` and `ErrOverflow`.
pub data ParseError : Type 0 where
  invalid_input overflow : ParseError

-- `s[:i]` and `s[i+1:]` around the first dot, if there is one.
unfoldable pub cut_dot : Bytes → Option (Bytes × Bytes)
cut_dot [] = none
cut_dot (c ∷ s) =
    if eqb c b'.'
    then some ([], s)
    else elim (cut_dot s) [ none ↦ none | some (before, after) ↦ some (c ∷ before, after) ]

abbrev pub is_digit : ℕ → Bool
is_digit c = if ltb c b'0' then false else if ltb b'9' c then false else true

-- The loop over the digits before the dot.
unfoldable pub read_whole : Bytes → ℕ → Try ParseError ℕ
read_whole [] whole = ok whole
read_whole (c ∷ s) whole =
    let d = c - b'0' in
    let rest = read_whole s (whole * 10 + d) in
    if is_digit c
    then (if ltb ((max_int64 - d) / 10) whole then fails overflow else rest)
    else fails invalid_input

-- The loop over the digits behind the dot, with `fracScale`.
unfoldable pub read_frac : Bytes → ℕ → ℕ → Try ParseError (ℕ × ℕ)
read_frac [] frac frac_scale = ok (frac, frac_scale)
read_frac (c ∷ s) frac frac_scale =
    let rest = read_frac s (frac * 10 + (c - b'0')) (frac_scale * 10) in
    if is_digit c then rest else fails invalid_input

-- `for fracScale < Scale`, on fuel for the eight digits of the scale.
unfoldable pub scale_up : ℕ → ℕ → ℕ → ℕ
scale_up zero frac frac_scale = frac
scale_up (suc fuel) frac frac_scale =
    let rest = scale_up fuel (frac * 10) (frac_scale * 10) in
    if ltb frac_scale scale then rest else frac

-- The end of `Parse`.
combine : Bool → ℕ → ℕ → Try ParseError Fixed
combine minus whole frac =
    if ltb ((max_int64 - frac) / scale) whole
    then fails overflow
    else ok (if minus then negate (pos (whole * scale + frac)) else pos (whole * scale + frac))

abbrev pub is_empty : Bytes → Bool
is_empty [] = true
is_empty (_ ∷ _) = false

has_dot : Bytes → Bool
unfolding cut_dot
has_dot s = elim (cut_dot s) [ none ↦ false | some _ ↦ true ]

-- `Parse` on the two sides of the dot.
unfoldable pub parse_parts : Bool → Bytes → Bytes → Try ParseError Fixed
unfolding read_whole read_frac combine
parse_parts minus whole_part frac_part =
    if is_empty whole_part && is_empty frac_part
    then fails invalid_input
    else if ltb 8 (length frac_part)
    then fails invalid_input
    else do
      whole ← read_whole whole_part 0
      (if ltb 18 (length whole_part)
          then fails overflow
          else do r ← read_frac frac_part 0 1; combine minus whole (scale_up 8 r.0 r.1))

-- `Parse` behind the sign.
parse_cut : Bool → Bytes → Option (Bytes × Bytes) → Try ParseError Fixed
unfolding has_dot parse_parts
parse_cut minus s none = parse_parts minus s []
parse_cut minus s (some (whole_part, frac_part)) =
    if has_dot frac_part then fails invalid_input else parse_parts minus whole_part frac_part

parse_unsigned : Bool → Bytes → Try ParseError Fixed
unfolding parse_cut
parse_unsigned minus [] = fails invalid_input
parse_unsigned minus (c ∷ s) = parse_cut minus (c ∷ s) (cut_dot (c ∷ s))

unfoldable pub parse : Bytes → Try ParseError Fixed
unfolding parse_unsigned
parse [] = fails invalid_input
parse (c ∷ s) =
    if eqb c b'-' || eqb c b'+' then parse_unsigned (eqb c b'-') s else parse_unsigned false (c ∷ s)

-- `%d` of a natural number, on fuel; the number itself is enough.
unfoldable pub digits : ℕ → ℕ → Bytes → Bytes
digits zero n out = (b'0' + n % 10) ∷ out
digits (suc fuel) n out =
    let rest = digits fuel (n / 10) ((b'0' + n % 10) ∷ out) in
    if ltb n 10 then (b'0' + n % 10) ∷ out else rest

-- The last `k` digits of a number, with leading zeros.
unfoldable pub padded : ℕ → ℕ → Bytes → Bytes
padded zero n out = out
padded (suc k) n out = padded k (n / 10) ((b'0' + n % 10) ∷ out)

-- `%d` and `%08d`: the sign counts among the eight places.
unfoldable pub format_int : ℤ → Bytes
unfolding digits
format_int (pos n) = digits n n []
format_int (negsuc n) = b'-' ∷ digits (n + 1) (n + 1) []

format_eight : ℤ → Bytes
unfolding digits padded
format_eight (pos n) = if ltb n (10 ^ 8) then padded 8 n [] else digits n n []
format_eight (negsuc n) =
    if ltb (n + 1) (10 ^ 7) then b'-' ∷ padded 7 (n + 1) [] else b'-' ∷ digits (n + 1) (n + 1) []

-- `strings.TrimRight(fs, "0")`
keep_unless_zero : ℕ → Bytes → Bytes
keep_unless_zero c [] = if eqb c b'0' then [] else c ∷ []
keep_unless_zero c (d ∷ s) = c ∷ d ∷ s

unfoldable pub trim_zeros : Bytes → Bytes
unfolding keep_unless_zero
trim_zeros [] = []
trim_zeros (c ∷ s) = keep_unless_zero c (trim_zeros s)

-- Go's `/` and `%` on int64, which round toward zero.
quot_scale : ℤ → ℤ
quot_scale (pos n) = pos (n / scale)
quot_scale (negsuc n) = sub_ℕ 0 ((n + 1) / scale)

rem_scale : ℤ → ℤ
rem_scale (pos n) = pos (n % scale)
rem_scale (negsuc n) = sub_ℕ 0 ((n + 1) % scale)

abbrev signed : Bool → Bytes → Bytes
signed minus s = if minus then b'-' ∷ s else s

-- `String` behind the sign.
print_parts : Bool → ℤ → Bytes
unfolding format_int format_eight trim_zeros quot_scale rem_scale
print_parts minus v =
    if eqb_ℤ (rem_scale v) (pos 0)
    then signed minus (format_int (quot_scale v))
    else signed minus
        (format_int (quot_scale v) ++ (b'.' ∷ trim_zeros (format_eight (rem_scale v))))

-- `String`. The most negative int64 is its own negation, so both parts print a sign of their own.
unfoldable pub string : Fixed → Bytes
unfolding print_parts
string f = let minus = ltb_ℤ f (pos 0) in print_parts minus (if minus then negate f else f)
