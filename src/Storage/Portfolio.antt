-- ===== src/Storage/Portfolio.antt =====
-- What `SavePortfolio` of internal/storage/storage.go leaves in the tables, whatever its calls are
-- answered.
use crossvenue.Base.{
  ℕ, ◌+◌, true, false, Option, none, some, List, [], ◌∷◌, ◌≡◌, ◌⊎◌, refl, ap, inl, inr, Bool-cases,
  Option-cases, some_eq,
}
use crossvenue.Portfolio.{Balance, Position}
use crossvenue.Storage.{
  Numeric, Answer, done, refused, lost, is_done, ended, Tables, ◌>>?◌, put_each, put_balance,
  put_position, save_portfolio,
}

pub >>?-some {ℓ κ} :
    {A : Type ℓ} {B : Type κ} (n : Numeric) (o : Option A) (f : A → Option B) {b : B}
    → ◌>>?◌ n o f ≡ some b
    → (a : A) × (o ≡ some a) × (f a ≡ some b)
>>?-some n (some a) f h = (a, refl, h)
>>?-some n none f h = cc

module _ (n : Numeric) where
  -- Every row of a list put in, with no thought of calls.
  abbrev pub put_all {ℓ} :
      {A : Type ℓ} → (A → Tables n → Option (Tables n)) → List A → Tables n → Option (Tables n)
  put_all put [] t = some t
  put_all put (x ∷ xs) t = ◌>>?◌ n (put x t) (put_all put xs)

  -- The tables with all balances and positions written.
  abbrev pub written : List Balance → List Position → Tables n → Option (Tables n)
  written bals poss t = ◌>>?◌ n (put_all (put_balance n) bals t) (put_all (put_position n) poss)

  put_each-put_all {ℓ} :
      {A : Type ℓ} (put : A → Tables n → Option (Tables n)) (answers : ℕ → Answer) (xs : List A)
      (i j : ℕ) (t t' : Tables n)
      → put_each n put answers xs i t ≡ some (j, t')
      → put_all put xs t ≡ some t'
  unfolding put_each
  put_each-put_all put answers [] i j t t' e = ap some (ap (λ x. x.1) (some_eq e))
  put_each-put_all put answers (x ∷ xs) i j t t' e = elim (Bool-cases (is_done (answers i))) [
    | inr bad ↦ cc (rw bad at e)
    | inl good ↦
        let (t1, e1, h) = >>?-some n (put x t) _ (rw good at e) in
        rw e1 (put_each-put_all put answers xs (i + 1) j t1 t' h)
  ]

  pub put_all-put_each {ℓ} :
      {A : Type ℓ} (put : A → Tables n → Option (Tables n)) (answers : ℕ → Answer) (xs : List A)
      (i : ℕ) (t t' : Tables n)
      → ((j : ℕ) → answers j ≡ done)
      → put_all put xs t ≡ some t'
      → (j : ℕ) × (put_each n put answers xs i t ≡ some (j, t'))
  unfolding put_each
  put_all-put_each put answers [] i t t' d e = (i, ap (λ x. some (i, x)) (some_eq e))
  put_all-put_each put answers (x ∷ xs) i t t' d e =
      let (t1, e1, h) = >>?-some n (put x t) _ e in
      let (j, k) = put_all-put_each put answers xs (i + 1) t1 t' d h in (j, rw (d i, e1) k)

  commit-atomic :
      (a : Answer) (t t' : Tables n) (w : Option (Tables n))
      → w ≡ some t'
      → (((ended a t t').1 ≡ true) × (w ≡ some (ended a t t').0))
        ⊎ (((ended a t t').1 ≡ false) × (((ended a t t').0 ≡ t) ⊎ (w ≡ some (ended a t t').0)))
  commit-atomic done t t' w e = inl (refl, e)
  commit-atomic refused t t' w e = inr (refl, inl refl)
  commit-atomic lost t t' w e = inr (refl, inr e)

  -- All or nothing: an error-free save left every balance and position written, and an error left
  -- the tables as they were, or, where the answer to the commit was lost, with everything written.
  pub save_portfolio-atomic :
      (answers : ℕ → Answer) (bals : List Balance) (poss : List Position) (t : Tables n)
      → (((save_portfolio n answers bals poss t).1 ≡ true)
          × (written bals poss t ≡ some (save_portfolio n answers bals poss t).0))
        ⊎ (((save_portfolio n answers bals poss t).1 ≡ false)
            × (((save_portfolio n answers bals poss t).0 ≡ t)
                ⊎ (written bals poss t ≡ some (save_portfolio n answers bals poss t).0)))
  unfolding save_portfolio
  save_portfolio-atomic answers bals poss t = elim (Bool-cases (is_done (answers 0))) [
    | inr bad ↦ rw bad (inr (refl, inl refl))
    | inl good ↦ rw good (elim (Option-cases (put_each n (put_balance n) answers bals 1 t)) [
      | inl stopped ↦ rw stopped (inr (refl, inl refl))
      | inr ((i, t1), e1) ↦ elim (Option-cases (put_each n (put_position n) answers poss i t1)) [
        | inl stopped ↦ rw (e1, stopped) (inr (refl, inl refl))
        | inr ((j, t2), e2) ↦
            let all : written bals poss t ≡ some t2 =
              rw (put_each-put_all (put_balance n) answers bals 1 i t t1 e1)
                (put_each-put_all (put_position n) answers poss i j t1 t2 e2) in
            rw (e1, e2) (commit-atomic (answers j) t t2 _ all)
      ]
    ])
  ]
