-- ===== src/Decimal/Text/Fractions.antt =====
-- What `Parse` of pkg/decimal/decimal.go reads of a printed fraction.
use crossvenue.Base.{
  ℕ, zero, suc, ◌+◌, ◌-◌, ◌*◌, ◌/◌, ◌%◌, ◌≤◌, ◌<◌, [], ◌∷◌, ◌≡◌, refl, ap, ◌∙◌, arith,
}
use crossvenue.Base.Lists.{length, All}
use crossvenue.Base.Try.{Try, ok, ◌>>=◌}
use crossvenue.Decimal.{scale}
use crossvenue.Decimal.Text.{
  Bytes, ParseError, read_frac, scale_up, padded, trim_zeros, keep_unless_zero,
}
use crossvenue.Decimal.Text.Numbers.{IsDigit, shift, le-shift, shift_ten}

-- The loop over a padded number has read the number itself.
pub read_frac-padded :
    (k n f s : ℕ) (out : Bytes)
    → n < shift k 1
    → read_frac (padded k n out) f s ≡ read_frac out (shift k f + n) (shift k s)
unfolding padded shift read_frac
read_frac-padded zero n f s out h = ap (λ m. read_frac out m s) (omega arith)
read_frac-padded (suc k) n f s out h = ground (
  arith,
  shift_ten k 1,
  shift_ten k f,
  shift_ten k s,
  read_frac-padded k (n / 10) f s ((b'0' + n % 10) ∷ out),
)

pub padded-IsDigit : (k n : ℕ) (out : Bytes) → All IsDigit out → All IsDigit (padded k n out)
unfolding padded
padded-IsDigit zero n out h = h
padded-IsDigit (suc k) n out h = padded-IsDigit k (n / 10) _ (omega arith, h)

pub length-padded : (k n : ℕ) (out : Bytes) → length (padded k n out) ≡ k + length out
unfolding padded
length-padded zero n out = omega arith
length-padded (suc k) n out = omega (arith, length-padded k (n / 10) ((b'0' + n % 10) ∷ out))

-- The scaling loop reaches the scale, and multiplies by the powers of ten that are missing.
pub scale_up_lem :
    (k fuel f s : ℕ) → 0 < s → shift k s ≡ scale → k ≤ fuel → scale_up fuel f s ≡ shift k f
unfolding scale_up shift
scale_up_lem zero zero f s p h e = refl
scale_up_lem zero (suc fuel) f s p h e = ground arith
scale_up_lem (suc k) zero f s p h e = absurd (omega arith)
scale_up_lem (suc k) (suc fuel) f s p h e =
    ground (arith, le-shift k (s * 10), scale_up_lem k fuel (f * 10) (s * 10))

keep_unless_zero-IsDigit :
    (c : ℕ) (s : Bytes) → IsDigit c → All IsDigit s → All IsDigit (keep_unless_zero c s)
unfolding keep_unless_zero
keep_unless_zero-IsDigit c [] h k = ground arith
keep_unless_zero-IsDigit c (d ∷ s) h k = (h, k)

pub trim_zeros-IsDigit : (s : Bytes) → All IsDigit s → All IsDigit (trim_zeros s)
unfolding trim_zeros
trim_zeros-IsDigit [] h = tt
trim_zeros-IsDigit (c ∷ s) h =
    keep_unless_zero-IsDigit c (trim_zeros s) h.0 (trim_zeros-IsDigit s h.1)

length-keep_unless_zero : (c : ℕ) (s : Bytes) → length (keep_unless_zero c s) ≤ suc (length s)
unfolding keep_unless_zero
length-keep_unless_zero c [] = ground arith
length-keep_unless_zero c (d ∷ s) = omega arith

pub length-trim_zeros : (s : Bytes) → length (trim_zeros s) ≤ length s
unfolding trim_zeros
length-trim_zeros [] = omega arith
length-trim_zeros (c ∷ s) =
    omega (arith, length-keep_unless_zero c (trim_zeros s), length-trim_zeros s)

-- What the two loops make of the digits behind the dot.
abbrev pub fraction : Bytes → ℕ → ℕ → Try ParseError ℕ
fraction s frac frac_scale = read_frac s frac frac_scale >>= λ r. ok (scale_up 8 r.0 r.1)

fraction_keep :
    (c : ℕ) (s : Bytes) (f fs k : ℕ)
    → 0 < fs
    → shift (suc k) fs ≡ scale
    → suc k ≤ 8
    → fraction (keep_unless_zero c s) f fs ≡ fraction (c ∷ s) f fs
unfolding keep_unless_zero read_frac shift
fraction_keep c [] f fs k p h e =
    ground (arith, scale_up_lem (suc k) 8 f fs, scale_up_lem k 8 (f * 10) (fs * 10))
fraction_keep c (d ∷ s) f fs k p h e = refl

fraction_cons :
    (c : ℕ) (s t : Bytes) (f fs : ℕ)
    → fraction s (f * 10 + (c - b'0')) (fs * 10) ≡ fraction t (f * 10 + (c - b'0')) (fs * 10)
    → fraction (c ∷ s) f fs ≡ fraction (c ∷ t) f fs
unfolding read_frac
fraction_cons c s t f fs h = ground arith

-- Trailing zeros make no difference.
pub fraction-trim_zeros :
    (s : Bytes) (f fs : ℕ)
    → 0 < fs
    → shift (length s) fs ≡ scale
    → length s ≤ 8
    → fraction (trim_zeros s) f fs ≡ fraction s f fs
unfolding trim_zeros shift
fraction-trim_zeros [] f fs p h e = refl
fraction-trim_zeros (c ∷ s) f fs p h e =
    fraction_keep c (trim_zeros s) f fs (length s) p h e
    ∙ fraction_cons c (trim_zeros s) s f fs
        (fraction-trim_zeros s (f * 10 + (c - b'0')) (fs * 10) (omega arith) h (omega arith))

-- A fraction of the scale, printed to eight places and trimmed, is read back.
pub fraction-eight : (n : ℕ) → n < scale → fraction (trim_zeros (padded 8 n [])) 0 1 ≡ ok n
unfolding read_frac shift
fraction-eight n h =
    fraction-trim_zeros (padded 8 n []) 0 1 (omega arith)
      (ap (λ k. shift k 1) (length-padded 8 n [])) (omega (arith, length-padded 8 n []))
    ∙ ap (λ t. t >>= λ r. ok (scale_up 8 r.0 r.1)) (read_frac-padded 8 n 0 1 [] h)
    ∙ ap (λ m. ok (scale_up 8 m scale)) (let z : 0 + n ≡ n = omega arith in z)
    ∙ ap ok (scale_up_lem 0 8 n scale (omega arith) refl (omega arith))
