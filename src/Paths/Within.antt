-- ===== src/Paths/Within.antt =====
-- What a relative path that does not go up says of the two paths.
use mathlib.Core.List.{reverse, reverse-append}
use tor_boxarr.Base.{
  Bool, true, false, not, ◌&&◌, ◌||◌, ◌≡◌, refl, sym, ap, ◌∙◌, Option, none, some, List, [], ◌∷◌,
  ◌++◌, map, Str, split, split_from, join_by, str_eq, str_eq_iff, has_prefix, arith, inl, inr,
  Bool-cases,
}
use tor_boxarr.Paths.{
  slash, dot_dot, is_dot_dot, is_skipped, is_abs, go_up, clean_part, clean_from, clean_parts,
  render, clean, strip_common, rel_parts, rel,
}

strip_common-nil :
    (bs ts : List Str) → (strip_common bs ts).0 ≡ [] → ts ≡ bs ++ (strip_common bs ts).1
unfolding strip_common
strip_common-nil [] ts h = refl
strip_common-nil (b ∷ bs) [] h = cc
strip_common-nil (b ∷ bs) (t ∷ ts) h = ground (arith, str_eq_iff b t, strip_common-nil bs ts)

-- A list that ends in `..`: the stack of a path that begins with `..`.
abbrev rooted_up : List Str → List Str
rooted_up xs = xs ++ (dot_dot ∷ [])

go_up-up : (xs : List Str) → (ys : List Str) × (go_up false (rooted_up xs) ≡ rooted_up ys)
unfolding go_up is_dot_dot str_eq
go_up-up [] = (dot_dot ∷ [], refl)
go_up-up (x ∷ xs) = elim (Bool-cases (is_dot_dot x)) [
  | inl h ↦ (dot_dot ∷ (x ∷ xs), rw h refl)
  | inr h ↦ (xs, rw h refl)
]

clean_part-up :
    (xs : List Str) (p : Str) → (ys : List Str) × (clean_part false (rooted_up xs) p ≡ rooted_up ys)
unfolding clean_part
clean_part-up xs p = elim (Bool-cases (is_skipped p)) [
  | inl h ↦ (xs, rw h refl)
  | inr h ↦ elim (Bool-cases (is_dot_dot p)) [
    | inl k ↦ ((go_up-up xs).0, rw (h, k) (go_up-up xs).1)
    | inr k ↦ (p ∷ xs, rw (h, k) refl)
  ]
]

-- A path that begins with `..` still does when it is cleaned.
clean_from-up :
    (xs ps : List Str) → (rest : List Str) × (clean_from false (rooted_up xs) ps ≡ dot_dot ∷ rest)
unfolding clean_from
clean_from-up xs [] = (reverse xs, reverse-append xs (dot_dot ∷ []))
clean_from-up xs (p ∷ ps) =
    let step = clean_part-up xs p in
    let rest = clean_from-up step.0 ps in (rest.0, ap (λ d. clean_from false d ps) step.1 ∙ rest.1)

-- So no such path counts as below a root.
unfoldable pub goes_up : Option Str → Bool
goes_up none = true
goes_up (some r) = str_eq (clean r) dot_dot || has_prefix (clean r) (dot_dot ++ (slash ∷ []))

up_text :
    (rest : List Str)
    → let c = join_by slash (dot_dot ∷ rest) in
      (str_eq c dot_dot || has_prefix c (dot_dot ++ (slash ∷ []))) ≡ true
unfolding join_by str_eq has_prefix
up_text [] = refl
up_text (r ∷ rest) = refl

clean_parts-up :
    (more : List Str)
    → (rest : List Str) × (clean_parts (join_by slash (dot_dot ∷ more)) ≡ dot_dot ∷ rest)
unfolding clean_parts is_abs join_by split split_from clean_from clean_part go_up is_skipped
    is_dot_dot str_eq
clean_parts-up [] = ([], refl)
clean_parts-up (m ∷ more) = clean_from-up [] (split slash (join_by slash (m ∷ more)))

up_not_abs : (more : List Str) → is_abs (join_by slash (dot_dot ∷ more)) ≡ false
unfolding is_abs join_by
up_not_abs [] = refl
up_not_abs (m ∷ more) = refl

clean_up :
    (more : List Str)
    → clean (join_by slash (dot_dot ∷ more)) ≡ join_by slash (dot_dot ∷ (clean_parts-up more).0)
unfolding clean render
clean_up more =
    ap (λ b. render b (clean_parts (join_by slash (dot_dot ∷ more)))) (up_not_abs more)
    ∙ ap (render false) (clean_parts-up more).1

goes_up-up : (more : List Str) → goes_up (some (join_by slash (dot_dot ∷ more))) ≡ true
unfolding goes_up
goes_up-up more = rw (clean_up more) (up_text (clean_parts-up more).0)

rel_parts-nil : (bs ts : List Str) → goes_up (rel_parts (bs, ts)) ≡ false → bs ≡ []
unfolding goes_up
rel_parts-nil [] ts h = refl
rel_parts-nil (b ∷ bs) ts h = elim (Bool-cases (is_dot_dot b)) [
  | inl up ↦ let bad : true ≡ false = rw up at h in cc
  | inr down ↦
      let went : goes_up (some (join_by slash (dot_dot ∷ (map (λ _. dot_dot) bs ++ ts)))) ≡ false =
        rw down at h in
      let up = goes_up-up (map (λ _. dot_dot) bs ++ ts) in
      let bad : true ≡ false = sym up ∙ went in cc
]

rel_stripped :
    (bs ts : List Str)
    → goes_up (rel_parts (strip_common bs ts)) ≡ false
    → (rest : List Str) × (ts ≡ bs ++ rest)
rel_stripped bs ts h = (
  (strip_common bs ts).1,
  strip_common-nil bs ts
      (rel_parts-nil (strip_common bs ts).0 (strip_common bs ts).1 (eta (strip_common bs ts) h)),
)
  where
    eta :
        (r : List Str × List Str)
        → goes_up (rel_parts r) ≡ false
        → goes_up (rel_parts (r.0, r.1)) ≡ false
    eta (a, b) k = k

-- If the relative path does not go up, the target's parts begin with the base's parts.
pub rel_below :
    (base target : Str)
    → goes_up (rel base target) ≡ false
    → (rest : List Str) × (clean_parts target ≡ clean_parts base ++ rest)
unfolding rel
rel_below base target h =
    elim (Bool-cases
      ((is_abs base && is_abs target) || (not (is_abs base) && not (is_abs target)))) [
        | inl same ↦ rel_stripped (clean_parts base) (clean_parts target) (rw same at h)
        | inr mixed ↦ let bad : goes_up none ≡ false = rw mixed at h in absurd (none_bad bad)
      ]
  where
    none_bad : goes_up none ≡ false → ⊥
    none_bad k = unfold goes_up in cc
