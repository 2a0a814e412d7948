-- ===== src/Decimal/Text/Numbers.antt =====
-- What `Parse` of pkg/decimal/decimal.go reads of a printed whole number.
use crossvenue.Base.{
  ℕ, zero, suc, ◌+◌, ◌*◌, ◌/◌, ◌%◌, ◌≤◌, ◌<◌, [], ◌∷◌, ◌++◌, ◌≡◌, refl, arith, none, some,
}
use crossvenue.Base.Lists.{length, All}
use crossvenue.Decimal.{max_int64}
use crossvenue.Decimal.Text.{Bytes, read_whole, digits, cut_dot}

abbrev pub IsDigit : ℕ → Type 0
IsDigit c = (b'0' ≤ c) × (c ≤ b'9')

read_last :
    (n : ℕ) (out : Bytes)
    → n ≤ max_int64
    → read_whole ((b'0' + n % 10) ∷ out) (n / 10) ≡ read_whole out n
unfolding read_whole
read_last n out h = ground arith

read_first :
    (n : ℕ) (out : Bytes) → n < 10 → read_whole ((b'0' + n % 10) ∷ out) 0 ≡ read_whole out n
unfolding read_whole
read_first n out h = ground arith

pub read_whole-digits :
    (fuel n : ℕ) (out : Bytes)
    → n ≤ fuel
    → n ≤ max_int64
    → read_whole (digits fuel n out) 0 ≡ read_whole out n
unfolding digits
read_whole-digits zero n out h k = read_first n out (omega arith)
read_whole-digits (suc fuel) n out h k = ground (
  arith,
  read_first n out,
  read_last n out k,
  read_whole-digits fuel (n / 10) ((b'0' + n % 10) ∷ out),
)

pub digits-IsDigit : (fuel n : ℕ) (out : Bytes) → All IsDigit out → All IsDigit (digits fuel n out)
unfolding digits
digits-IsDigit zero n out h = (omega arith, h)
digits-IsDigit (suc fuel) n out h =
    ground (arith, digits-IsDigit fuel (n / 10) ((b'0' + n % 10) ∷ out) (omega arith, h))

-- A printed number is no longer than its bound.
unfoldable pub shift : ℕ → ℕ → ℕ
shift zero n = n
shift (suc k) n = shift k (n * 10)

pub le-shift : (k n : ℕ) → n ≤ shift k n
unfolding shift
le-shift zero n = omega arith
le-shift (suc k) n = omega (arith, le-shift k (n * 10))

pub shift_ten : (k n : ℕ) → shift k (n * 10) ≡ shift k n * 10
unfolding shift
shift_ten zero n = refl
shift_ten (suc k) n = shift_ten k (n * 10)

pub length-digits :
    (k fuel n : ℕ) (out : Bytes)
    → n < shift (suc k) 1
    → n ≤ fuel
    → length (digits fuel n out) ≤ suc k + length out
unfolding digits shift
length-digits k zero n out h e = omega arith
length-digits zero (suc fuel) n out h e = ground arith
length-digits (suc k) (suc fuel) n out h e =
    ground (arith, shift_ten k 10, length-digits k fuel (n / 10) ((b'0' + n % 10) ∷ out))

-- A text of digits has no dot, and ends at the first one.
pub cut_dot-digits : (s : Bytes) → All IsDigit s → cut_dot s ≡ none
unfolding cut_dot
cut_dot-digits [] h = refl
cut_dot-digits (c ∷ s) h = ground (arith, cut_dot-digits s h.1)

pub cut_dot-append : (s t : Bytes) → All IsDigit s → cut_dot (s ++ (b'.' ∷ t)) ≡ some (s, t)
unfolding cut_dot
cut_dot-append [] t h = refl
cut_dot-append (c ∷ s) t h = ground (arith, cut_dot-append s t h.1)
