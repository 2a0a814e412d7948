-- ===== src/Base/Texts.antt =====
-- Go's order of texts, and `sort.Strings`. Go compares texts by their bytes, which is the order of
-- the code points.
use Prim.Native.Nat.{Ordering}
use Prim.Native.Char.{Char, code}
use Prim.Native.String.{String, [] as no_text, ◌∷◌ as in_front, compare}
use Prim.Native.String.compare as by_clause
use mathlib.Core.Path.{◌≡◌, refl, sym, ap₂, ◌∙◌}
use mathlib.Core.Bool.{Bool, true, false, not}
use mathlib.Core.List.{List, [], ◌∷◌, Perm, Permᴰ}
use mathlib.Core.Logic.{◌≢◌, inl, inr, ∥∥₁_elim}
use std.HLevel.{hedberg}
use native.Mathlib.Omega.{arith}
use text.Mathlib.TextEquality.{codes_equal}
use crossvenue.Base.Tests.{ltb, eqb, if◌then◌else◌, string_eq, Bool-cases}
use crossvenue.Base.Dict.{key_cases}

-- `s < t`
unfoldable pub is_before : String → String → Bool
is_before s t = elim (compare s t) [ Ordering.lt ↦ true | _ ↦ false ]

-- `sort.Strings`, which leaves the texts in that order.
unfoldable pub insert_text : String → List String → List String
unfolding is_before
insert_text s [] = s ∷ []
insert_text s (t ∷ ts) = if is_before s t then s ∷ t ∷ ts else t ∷ insert_text s ts

unfoldable pub sort_texts : List String → List String
unfolding insert_text
sort_texts [] = []
sort_texts (s ∷ ss) = insert_text s (sort_texts ss)

is_before_cons :
    (c d : Char) (s t : String)
    → is_before (in_front c s) (in_front d t) ≡ (
        if ltb (code c) (code d)
        then true
        else if eqb (code c) (code d)
        then is_before s t
        else false)
unfolding is_before
is_before_cons c d s t = rw (is_before, by_clause.cons-cons c d s t) (ground arith)

is_before_nil : (c : Char) (s : String) → is_before no_text (in_front c s) ≡ true
unfolding is_before
is_before_nil c s = rw (is_before, by_clause.nil-cons c s) refl

none_before_nil : (s : String) → is_before s no_text ≡ false
unfolding is_before
none_before_nil no_text = refl
none_before_nil (in_front c s) = rw (is_before, by_clause.cons-nil c s) refl

same_code : (c d : Char) → eqb (code c) (code d) ≡ true → (code c ≡ code d) × (c ≡ d)
same_code c d e = (ground arith, codes_equal c d (ground arith))

-- One of two different texts stands before the other.
pub is_before_total : (s t : String) → s ≢ t → is_before t s ≡ not (is_before s t)
is_before_total no_text no_text h = absurd (h refl)
is_before_total no_text (in_front d t) h =
    rw (none_before_nil (in_front d t), is_before_nil d t) refl
is_before_total (in_front c s) no_text h =
    rw (none_before_nil (in_front c s), is_before_nil c s) refl
is_before_total (in_front c s) (in_front d t) h = elim (Bool-cases (eqb (code c) (code d))) [
  | inl e ↦
      let (n, same) = same_code c d e in
      let ih = is_before_total s t (λ p. h (ap₂ in_front same p)) in
      rw (is_before_cons c d s t, is_before_cons d c t s) (ground (arith, ih, n))
  | inr e ↦ rw (is_before_cons c d s t, is_before_cons d c t s) (ground arith)
]

pub is_before_trans :
    (r s t : String) → is_before r s ≡ true → is_before s t ≡ true → is_before r t ≡ true
is_before_trans r no_text t h k = cc (none_before_nil r, h)
is_before_trans r (in_front d s) no_text h k = cc (none_before_nil (in_front d s), k)
is_before_trans no_text (in_front d s) (in_front x t) h k = is_before_nil x t
is_before_trans (in_front c r) (in_front d s) (in_front x t) h k =
    let h' = sym (is_before_cons c d r s) ∙ h in
    let k' = sym (is_before_cons d x s t) ∙ k in
    rw (is_before_cons c x r t) (ground (arith, is_before_trans r s t))

insert_text_ne :
    (a b : String) (ts : List String)
    → a ≢ b
    → insert_text a (insert_text b ts) ≡ insert_text b (insert_text a ts)
unfolding insert_text
insert_text_ne a b [] d = ground (arith, is_before_total a b d)
insert_text_ne a b (t ∷ ts) d = ground (
  arith,
  is_before_total a b d,
  is_before_trans a b t,
  is_before_trans b a t,
  insert_text_ne a b ts d,
)

insert_text_comm :
    (a b : String) (ts : List String)
    → insert_text a (insert_text b ts) ≡ insert_text b (insert_text a ts)
insert_text_comm a b ts = elim (key_cases a b) [
  | inl same ↦ ap₂ (λ x y. insert_text x (insert_text y ts)) same (sym same)
  | inr differs ↦ insert_text_ne a b ts differs
]

sort_texts-permᴰ : {ss ts : List String} → Permᴰ ss ts → sort_texts ss ≡ sort_texts ts
unfolding sort_texts
sort_texts-permᴰ Permᴰ.nil = refl
sort_texts-permᴰ (Permᴰ.cons e p) = ap₂ insert_text e (sort_texts-permᴰ p)
sort_texts-permᴰ (Permᴰ.swap {a = x} {b = y} {l = zs} e f) =
    insert_text_comm x y (sort_texts zs) ∙ ap₂ insert_text f (ap₂ insert_text e refl)
sort_texts-permᴰ (Permᴰ.trans p q) = sort_texts-permᴰ p ∙ sort_texts-permᴰ q

texts_discrete : Discrete String
texts_discrete s t = elim (key_cases s t) [ inl same ↦ yes same | inr differs ↦ no differs ]

texts_set : IsSet (List String)
texts_set = hlevel (hedberg texts_discrete)

-- The order in which texts are listed does not matter.
pub sort_texts-perm : (ss ts : List String) → Perm ss ts → sort_texts ss ≡ sort_texts ts
sort_texts-perm ss ts p = ∥∥₁_elim p (texts_set _ _) sort_texts-permᴰ
