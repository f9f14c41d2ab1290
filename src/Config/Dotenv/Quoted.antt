-- ===== src/Config/Dotenv/Quoted.antt =====
-- A value between single quotes.
use mathlib.Core.List.{reverse, reverse-append}
use tor_boxarr.Base.{
  Str, [], ap, arith, false, has_prefix, length, ltb, refl, suc, take, true, ℕ, ◌++◌, ◌+◌, ◌-◌, ◌∷◌,
  ◌≡◌,
}
use tor_boxarr.Config.Dotenv.{DotenvFile, inner, parse_dot_env_value}
use tor_boxarr.Torbox.Client.{ok}

abbrev pub quoted : Str → Str
quoted s = 39 ∷ (s ++ (39 ∷ []))

length-snoc : (s : Str) → length (s ++ (39 ∷ [])) ≡ length s + 1
length-snoc [] = refl
length-snoc (c ∷ s) = ground (arith, length-snoc s)

take-append : (s t : Str) → take (length s) (s ++ t) ≡ s
take-append [] t = refl
take-append (c ∷ s) t = ap (λ xs. c ∷ xs) (take-append s t)

ends_quoted : (s : Str) → has_prefix (reverse (39 ∷ (s ++ (39 ∷ [])))) (39 ∷ []) ≡ true
unfolding has_prefix
ends_quoted s = rw (reverse-append (39 ∷ s) (39 ∷ [])) refl

long_enough : (s : Str) → ltb (length (quoted s)) 2 ≡ false
long_enough s = rw (length-snoc s) (ground arith)

inner-quoted : (s : Str) → inner (quoted s) ≡ s
inner-quoted s = rw (length-snoc s) (rw (same (length s)) (take-append s (39 ∷ [])))
  where
    same : (n : ℕ) → suc (n + 1) - 2 ≡ n
    same n = omega arith

-- Whatever the text, the value that is written between single quotes is read as the text.
pub parse_dot_env_value-quoted :
    (f : DotenvFile) (s : Str) → parse_dot_env_value f (quoted s) ≡ ok s
unfolding parse_dot_env_value has_prefix
parse_dot_env_value-quoted f s = rw (long_enough s, ends_quoted s) (ap (λ v. ok v) (inner-quoted s))
