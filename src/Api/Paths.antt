-- ===== src/Api/Paths.antt =====
-- The paths of internal/api/api.go: a book is found under its venue and its symbol.
use Prim.Native.Char.{Char, code}
use Prim.Native.String.{◌++◌, [] as no_text, ◌∷◌ as in_front}
use text.Mathlib.TextLemmas.{nil-append, cons-append}
use crossvenue.Base.{
  Bool, true, false, some, [], ◌∷◌, String, if◌then◌else◌, eqb, ◌≡◌, refl, ap, arith,
}
use crossvenue.Manager.{snapshot}
use crossvenue.Venue.{after_prefix}
use crossvenue.Engine.State.{Times, Supervisor}
use crossvenue.Api.{split_slash, found_book, trim_prefix, book_handler, book_at}

abbrev pub has_slash : String → Bool
has_slash no_text = false
has_slash (in_front c s) = if eqb (code c) b'/' then true else has_slash s

pub after_prefix-append : (p s : String) → after_prefix p (p ++ s) ≡ some s
unfolding after_prefix
after_prefix-append no_text s = ap some (nil-append s)
after_prefix-append (in_front c p) s =
    rw (cons-append c p s) (ground (arith, after_prefix-append p s))

abbrev slash : Char
slash = "/"

split_slash_one : (s : String) → has_slash s ≡ false → split_slash s ≡ s ∷ []
unfolding split_slash
split_slash_one no_text h = refl
split_slash_one (in_front c s) h = ground (arith, split_slash_one s)

split_slash_two :
    (v s : String)
    → has_slash v ≡ false
    → has_slash s ≡ false
    → split_slash (v ++ ("/" ++ s)) ≡ v ∷ s ∷ []
unfolding split_slash
split_slash_two no_text s h k =
    rw (nil-append ("/" ++ s), cons-append slash "" s, nil-append s)
      (ap (λ ps. "" ∷ ps) (split_slash_one s k))
split_slash_two (in_front c v) s h k =
    rw (cons-append c v ("/" ++ s)) (ground (arith, split_slash_two v s))

trim_prefix-append : (p s : String) → trim_prefix p (p ++ s) ≡ s
unfolding trim_prefix
trim_prefix-append p s = rw (after_prefix-append p s) refl

-- The path of a book answers with the view that the manager has of that very book, and with 404
-- where it has none, for every venue and symbol without a slash.
pub book_handler-path :
    (t : Times) (v symbol : String) (s : Supervisor)
    → has_slash v ≡ false
    → has_slash symbol ≡ false
    → book_handler t ("/api/v1/books/" ++ (v ++ ("/" ++ symbol))) s
      ≡ found_book t (snapshot t.read v symbol 50 s.pipe.mgr)
unfolding book_handler book_at
book_handler-path t v symbol s h k =
    rw (trim_prefix-append "/api/v1/books/" (v ++ ("/" ++ symbol)), split_slash_two v symbol h k)
      refl
