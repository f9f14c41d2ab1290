-- ===== src/Store/Answers.antt =====
-- What holds of each row of an answer: the rows are filtered, ordered and limited.
use tor_boxarr.Base.{
  Bool, List, [], all, arith, filter, insert_by, pos, refl, sort_by, suc, take, true, zero, ℕ, ℤ,
  ◌∷◌, ◌≡◌,
}
use tor_boxarr.Store.Jobs.{limited}

module _ {A : Type 0} (p : A → Bool) where
  pub all-insert_by :
      (before : A → A → Bool) (a : A) (xs : List A)
      → p a ≡ true
      → all p xs ≡ true
      → all p (insert_by before a xs) ≡ true
  unfolding insert_by
  all-insert_by before a [] h k = ground arith
  all-insert_by before a (x ∷ xs) h k = ground (arith, all-insert_by before a xs)

  pub all-sort_by :
      (before : A → A → Bool) (xs : List A) → all p xs ≡ true → all p (sort_by before xs) ≡ true
  unfolding sort_by
  all-sort_by before [] h = refl
  all-sort_by before (x ∷ xs) h =
      ground (arith, all-sort_by before xs, all-insert_by before x (sort_by before xs))

  pub all-take : (n : ℕ) (xs : List A) → all p xs ≡ true → all p (take n xs) ≡ true
  all-take zero xs h = refl
  all-take (suc n) [] h = refl
  all-take (suc n) (x ∷ xs) h = ground (arith, all-take n xs)

  pub all-limited : (n : ℤ) (xs : List A) → all p xs ≡ true → all p (limited n xs) ≡ true
  all-limited (pos n) xs h = all-take n xs h
  all-limited (ℤ.negsuc n) xs h = h

pub all-filter : {A : Type 0} (p : A → Bool) (rows : List A) → all p (filter p rows) ≡ true
all-filter p [] = refl
all-filter p (row ∷ rows) = ground (arith, all-filter p rows)

pub all-weaken :
    {A : Type 0} (p q : A → Bool) (rows : List A)
    → ((row : A) → p row ≡ true → q row ≡ true)
    → all p rows ≡ true
    → all q rows ≡ true
all-weaken p q [] h k = refl
all-weaken p q (row ∷ rows) h k = ground (arith, h row, all-weaken p q rows)
