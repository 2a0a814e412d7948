-- ===== src/Decimal/Text/RoundTrip.antt =====
-- `Parse` of pkg/decimal/decimal.go on what `String` prints.
use mathlib.Core.Path.{subst}
use crossvenue.Base.{
  ℕ, zero, suc, ◌+◌, ◌*◌, ◌/◌, ◌%◌, ◌≤◌, ◌<◌, Bool, true, false, [], ◌∷◌, ◌++◌, ◌≡◌, refl, sym, ap,
  ◌∙◌, arith, if◌then◌else◌, ltb, eqb, inl, inr, Bool-cases, ◌^◌,
}
use crossvenue.Base.Int.{pos, negsuc, neg_part, neg, ltb_ℤ}
use crossvenue.Base.Lists.{length, All}
use crossvenue.Base.Try.{Try, ok, fails, ◌>>=◌}
use crossvenue.Decimal.{Fixed, IsInt64, max_int64, scale, negate}
use crossvenue.Decimal.Exact.{negate_exact}
use crossvenue.Decimal.Text.{
  Bytes, ParseError, read_whole, read_frac, scale_up, padded, trim_zeros, digits, cut_dot, combine,
  is_empty, has_dot, parse_parts, parse_cut, parse_unsigned, parse, signed, print_parts, string,
}
use crossvenue.Decimal.Text.Numbers.{
  IsDigit, shift, read_whole-digits, digits-IsDigit, length-digits, cut_dot-digits, cut_dot-append,
}
use crossvenue.Decimal.Text.Fractions.{
  fraction, fraction-eight, trim_zeros-IsDigit, length-trim_zeros, padded-IsDigit, length-padded,
}

-- The text of a number of units of 1e-8, without its sign.
abbrev units_text : ℕ → Bytes
units_text n =
    if eqb (n % scale) 0
    then digits (n / scale) (n / scale) []
    else digits (n / scale) (n / scale) [] ++ (b'.' ∷ trim_zeros (padded 8 (n % scale) []))

digits-nonempty :
    (fuel n d : ℕ) (out : Bytes) → (c : ℕ) × (s : Bytes) × (digits fuel n (d ∷ out) ≡ c ∷ s)
unfolding digits
digits-nonempty zero n d out = (_, _, refl)
digits-nonempty (suc fuel) n d out = elim (Bool-cases (ltb n 10)) [
  | inl e ↦ (b'0' + n % 10, d ∷ out, rw e refl)
  | inr e ↦ rw e (digits-nonempty fuel (n / 10) (b'0' + n % 10) (d ∷ out))
]

digits-not_empty : (n : ℕ) → is_empty (digits n n []) ≡ false
unfolding digits
digits-not_empty zero = refl
digits-not_empty (suc n) =
    let (c, s, e) = digits-nonempty n (suc n / 10) (b'0' + suc n % 10) [] in ground arith

after_fraction :
    (t : Try ParseError (ℕ × ℕ)) (v : ℕ) (next : ℕ → Try ParseError Fixed)
    → (t >>= λ r. ok (scale_up 8 r.0 r.1)) ≡ ok v
    → (t >>= λ r. next (scale_up 8 r.0 r.1)) ≡ next v
after_fraction (ok r) v next h = cc
after_fraction (fails e) v next h = cc

combine-parts :
    (minus : Bool) (n : ℕ)
    → n ≤ max_int64
    → combine minus (n / scale) (n % scale) ≡ ok (if minus then negate (pos n) else pos n)
unfolding combine
combine-parts minus n h =
    let e : n / scale * scale + n % scale ≡ n = omega arith in ground (arith, ap pos e)

length_whole : (n : ℕ) → n ≤ max_int64 → length (digits (n / scale) (n / scale) []) ≤ 18
unfolding shift
length_whole n h =
    omega (arith, length-digits 10 (n / scale) (n / scale) [] (omega arith) (omega arith))

-- The two loops and the end of `Parse` on the two parts of a printed number.
parse_parts-units :
    (minus : Bool) (n : ℕ) (frac_part : Bytes)
    → n ≤ max_int64
    → length frac_part ≤ 8
    → fraction frac_part 0 1 ≡ ok (n % scale)
    → parse_parts minus (digits (n / scale) (n / scale) []) frac_part
      ≡ ok (if minus then negate (pos n) else pos n)
unfolding parse_parts read_whole
parse_parts-units minus n frac_part h l f =
    let w = n / scale in
    rw (digits-not_empty w) (
      ground (
        arith,
        length_whole n h,
        read_whole-digits w w [] (omega arith) (omega arith),
        after_fraction (read_frac frac_part 0 1) (n % scale) (combine minus w) f,
        combine-parts minus n h,
      ))

-- A text that begins with a digit.
abbrev Starts : Bytes → Type 0
Starts [] = ⊥
Starts (c ∷ s) = IsDigit c

digits-Starts : (n : ℕ) (out : Bytes) → Starts (digits n n [] ++ out)
digits-Starts n out = go (digits n n []) (digits-IsDigit n n [] tt) (digits-not_empty n)
  where
    go : (s : Bytes) → All IsDigit s → is_empty s ≡ false → Starts (s ++ out)
    go [] h e = cc
    go (c ∷ s) h e = h.0

parse_unsigned-Starts :
    (minus : Bool) (s : Bytes) → Starts s → parse_unsigned minus s ≡ parse_cut minus s (cut_dot s)
unfolding parse_unsigned
parse_unsigned-Starts minus [] h = absurd h
parse_unsigned-Starts minus (c ∷ s) h = refl

parse-Starts : (s : Bytes) → Starts s → parse s ≡ parse_unsigned false s
unfolding parse
parse-Starts [] h = absurd h
parse-Starts (c ∷ s) h = ground arith

append_nothing : (s : Bytes) → s ++ [] ≡ s
append_nothing [] = refl
append_nothing (c ∷ s) = ap (λ t. c ∷ t) (append_nothing s)

units_text-Starts : (n : ℕ) → Starts (units_text n)
units_text-Starts n = elim (Bool-cases (eqb (n % scale) 0)) [
  | inl e ↦ rw e (subst Starts (append_nothing _) (digits-Starts (n / scale) []))
  | inr e ↦ rw e (digits-Starts (n / scale) _)
]

-- `Parse` behind the sign reads the units that were printed.
parse_cut-whole :
    (minus : Bool) (n : ℕ)
    → n ≤ max_int64
    → n % scale ≡ 0
    → let s = digits (n / scale) (n / scale) [] in
      parse_cut minus s (cut_dot s) ≡ ok (if minus then negate (pos n) else pos n)
unfolding parse_cut read_frac scale_up
parse_cut-whole minus n h e =
    rw
      (cut_dot-digits (digits (n / scale) (n / scale) [])
        (digits-IsDigit (n / scale) (n / scale) [] tt))
      (parse_parts-units minus n [] h (omega arith) (ap ok (sym e)))

has_dot-digits : (s : Bytes) → All IsDigit s → has_dot s ≡ false
unfolding has_dot
has_dot-digits s h = rw (cut_dot-digits s h, has_dot) refl

parse_cut-fraction :
    (minus : Bool) (n : ℕ)
    → n ≤ max_int64
    → let t = trim_zeros (padded 8 (n % scale) []) in
      let s = digits (n / scale) (n / scale) [] ++ (b'.' ∷ t) in
      parse_cut minus s (cut_dot s) ≡ ok (if minus then negate (pos n) else pos n)
unfolding parse_cut
parse_cut-fraction minus n h =
    let p = padded 8 (n % scale) [] in
    let d = trim_zeros-IsDigit p (padded-IsDigit 8 (n % scale) [] tt) in
    rw
      (
        cut_dot-append (digits (n / scale) (n / scale) []) (trim_zeros p)
            (digits-IsDigit (n / scale) (n / scale) [] tt),
        has_dot-digits (trim_zeros p) d,
      )
      (parse_parts-units minus n (trim_zeros p) h
        (omega (arith, length-trim_zeros p, length-padded 8 (n % scale) []))
        (fraction-eight (n % scale) (omega arith)))

parse_unsigned-units :
    (minus : Bool) (n : ℕ)
    → n ≤ max_int64
    → parse_unsigned minus (units_text n) ≡ ok (if minus then negate (pos n) else pos n)
parse_unsigned-units minus n h =
    parse_unsigned-Starts minus (units_text n) (units_text-Starts n)
    ∙ elim (Bool-cases (eqb (n % scale) 0)) [
      | inl e ↦ rw e (parse_cut-whole minus n h (ground arith))
      | inr e ↦ rw e (parse_cut-fraction minus n h)
    ]

print_parts-pos : (minus : Bool) (n : ℕ) → print_parts minus (pos n) ≡ signed minus (units_text n)
unfolding print_parts
print_parts-pos minus n = ground arith

string-pos : (n : ℕ) → n ≤ max_int64 → string (pos n) ≡ units_text n
unfolding string
string-pos n h =
    let e : ltb_ℤ (pos n) (pos 0) ≡ false = ground arith in rw e (print_parts-pos false n)

negate-negsuc : (n : ℕ) → n < max_int64 → negate (negsuc n) ≡ pos (n + 1)
unfolding neg
negate-negsuc n h = negate_exact (negsuc n) (omega arith) (omega arith) ∙ ground arith

string-negsuc : (n : ℕ) → n < max_int64 → string (negsuc n) ≡ b'-' ∷ units_text (n + 1)
unfolding string
string-negsuc n h =
    let e : ltb_ℤ (negsuc n) (pos 0) ≡ true = ground arith in
    rw (e, negate-negsuc n h) (print_parts-pos true (n + 1))

parse_minus : (s : Bytes) → parse (b'-' ∷ s) ≡ parse_unsigned true s
unfolding parse
parse_minus s = refl

-- What `String` prints of an int64 above the least one, `Parse` reads back exactly.
pub parse-string : (f : Fixed) → IsInt64 f → neg_part f < 2 ^ 63 → parse (string f) ≡ ok f
unfolding neg
parse-string (pos n) h k =
    ap parse (string-pos n (omega arith))
    ∙ parse-Starts (units_text n) (units_text-Starts n)
    ∙ parse_unsigned-units false n (omega arith)
parse-string (negsuc n) h k =
    ap parse (string-negsuc n (omega arith))
    ∙ parse_minus (units_text (n + 1))
    ∙ parse_unsigned-units true (n + 1) (omega arith)
    ∙ ap ok (negate_exact (pos (n + 1)) (omega arith) (omega arith) ∙ ground arith)
