-- ===== src/Files/Layout/Names.antt =====
-- The name of a completed download is one path element of at most 255 bytes.
use mathlib.Core.List.{reverse, reverse-cons}
use tor_boxarr.Base.{
  Bool, Bool-cases, Str, [], all, and_intro, and_parts, ap, arith, drop_while, false, if◌then◌else◌,
  inl, inr, leb, length, length-take-le, lit, map, not, refl, subst, suc, sym, take, trim,
  trim_space, true, zero, ℕ, ◌++◌, ◌+◌, ◌-◌, ◌==◌, ◌||◌, ◌∷◌, ◌≡◌, ◌≤◌,
}
use tor_boxarr.Config.Dotenv.{cut}
use tor_boxarr.Files.Layout.{
  completed_name, is_dot_or_blank, is_forbidden, max_filename_bytes, or_else, or_unnamed,
  replace_byte, sanitize, suffix_of, truncate_name, valid_prefix, valid_utf8,
}
use tor_boxarr.Paths.{dot}

-- A byte that is none of / \ : * ? " < > |.
abbrev pub is_plain : ℕ → Bool
is_plain c = not (
    c == 47
    || c == 92
    || c == 58
    || c == 42
    || c == 63
    || c == 34
    || c == 60
    || c == 62
    || c == 124)

abbrev pub IsPlain : Str → Type 0
IsPlain s = all is_plain s ≡ true

append-IsPlain : (s t : Str) → IsPlain s → IsPlain t → IsPlain (s ++ t)
append-IsPlain [] t h k = k
append-IsPlain (c ∷ s) t h k =
    let (first, rest) = and_parts (is_plain c) (all is_plain s) h in
    and_intro (is_plain c) _ first (append-IsPlain s t rest k)

replaced : (c : ℕ) → is_plain (replace_byte c) ≡ true
replaced c = go (is_forbidden c) refl
  where
    go : (b : Bool) → is_forbidden c ≡ b → is_plain (if b then b'_' else c) ≡ true
    go true h = refl
    go false h = ap not h

map-IsPlain : (s : Str) → IsPlain (map replace_byte s)
map-IsPlain [] = refl
map-IsPlain (c ∷ s) = and_intro (is_plain (replace_byte c)) _ (replaced c) (map-IsPlain s)

drop_while-IsPlain : (p : ℕ → Bool) (s : Str) → IsPlain s → IsPlain (drop_while p s)
unfolding drop_while
drop_while-IsPlain p [] h = h
drop_while-IsPlain p (c ∷ s) h = elim (Bool-cases (p c)) [
  | inl out ↦ rw out (drop_while-IsPlain p s (and_parts (is_plain c) (all is_plain s) h).1)
  | inr stays ↦ rw stays h
]

take-IsPlain : (n : ℕ) (s : Str) → IsPlain s → IsPlain (take n s)
take-IsPlain zero s h = refl
take-IsPlain (suc n) [] h = refl
take-IsPlain (suc n) (c ∷ s) h =
    let (first, rest) = and_parts (is_plain c) (all is_plain s) h in
    and_intro (is_plain c) _ first (take-IsPlain n s rest)

reverse-IsPlain : (s : Str) → IsPlain s → IsPlain (reverse s)
reverse-IsPlain [] h = refl
reverse-IsPlain (c ∷ s) h =
    let (first, rest) = and_parts (is_plain c) (all is_plain s) h in
    subst IsPlain (sym (reverse-cons c s)) (
      append-IsPlain (reverse s) (c ∷ []) (reverse-IsPlain s rest)
        (and_intro (is_plain c) true first refl))

trim-IsPlain : (p : ℕ → Bool) (s : Str) → IsPlain s → IsPlain (trim p s)
unfolding trim
trim-IsPlain p s h = reverse-IsPlain (drop_while p (reverse (drop_while p s))) (
    drop_while-IsPlain p (reverse (drop_while p s))
      (reverse-IsPlain (drop_while p s) (drop_while-IsPlain p s h)))

or_unnamed-IsPlain : (s : Str) → IsPlain s → IsPlain (or_unnamed s)
unfolding lit
or_unnamed-IsPlain [] h = refl
or_unnamed-IsPlain (c ∷ s) h = h

sanitize-IsPlain : (s : Str) → IsPlain (sanitize s)
unfolding sanitize
sanitize-IsPlain s =
    or_unnamed-IsPlain (trim is_dot_or_blank (map replace_byte (trim_space s)))
      (trim-IsPlain is_dot_or_blank (map replace_byte (trim_space s)) (map-IsPlain (trim_space s)))

valid_prefix-IsPlain : (n : ℕ) (s : Str) → IsPlain s → IsPlain (valid_prefix n s)
unfolding valid_prefix
valid_prefix-IsPlain zero s h = refl
valid_prefix-IsPlain (suc n) s h = elim (Bool-cases (valid_utf8 (take (suc n) s))) [
  | inl valid ↦ rw valid (take-IsPlain (suc n) s h)
  | inr cut ↦ rw cut (valid_prefix-IsPlain n s h)
]

length-valid_prefix : (n : ℕ) (s : Str) → length (valid_prefix n s) ≤ n
unfolding valid_prefix
length-valid_prefix zero s = omega arith
length-valid_prefix (suc n) s = elim (Bool-cases (valid_utf8 (take (suc n) s))) [
  | inl valid ↦ rw valid (length-take-le (suc n) s)
  | inr cut ↦ rw cut (omega (arith, length-valid_prefix n s))
]

truncate_name-IsPlain : (s : Str) (n : ℕ) → IsPlain s → IsPlain (truncate_name s n)
unfolding truncate_name
truncate_name-IsPlain s n h = elim (Bool-cases (leb (length s) n)) [
  | inl short ↦ rw short h
  | inr long ↦ rw long (valid_prefix-IsPlain n s h)
]

length-truncate_name : (s : Str) (n : ℕ) → length (truncate_name s n) ≤ n
unfolding truncate_name
length-truncate_name s n = ground (arith, length-valid_prefix n s)

length-append : (s t : Str) → length (s ++ t) ≡ length s + length t
length-append [] t = omega arith
length-append (c ∷ s) t = omega (arith, length-append s t)

or_else-IsPlain : (s d : Str) → IsPlain s → IsPlain d → IsPlain (or_else s d)
or_else-IsPlain [] d h k = k
or_else-IsPlain (c ∷ s) d h k = h

abbrev pub is_dot : ℕ → Bool
is_dot c = c == 46

-- A name that ends in a dash and a job id does not consist of dots.
not_dots : (s t : Str) → all is_dot (s ++ suffix_of t) ≡ false
not_dots [] t = refl
not_dots (c ∷ s) t = elim (Bool-cases (is_dot c)) [
  | inl dot ↦ rw (dot, not_dots s t) refl
  | inr other ↦ rw other refl
]

-- For a job id of at most 254 bytes of which none is one of / \ : * ? " < > |, the name of the
-- completed directory is one path element whatever the display name: it has at most 255 bytes, none
-- of these, no slash among them, and one that is not a dot, so that it is neither empty nor `.` or `..`.
pub completed_name-IsPlain :
    (display_name job_id : Str)
    → IsPlain job_id
    → length job_id ≤ 254
    → (length (completed_name display_name job_id) ≤ max_filename_bytes)
      × IsPlain (completed_name display_name job_id)
      × (all is_dot (completed_name display_name job_id) ≡ false)
unfolding completed_name
completed_name-IsPlain display_name job_id h k = (
  omega (
    arith,
    length-append (truncate_name base rest) (suffix_of job_id),
    length-truncate_name base rest,
  ),
  append-IsPlain (truncate_name base rest) (suffix_of job_id)
      (truncate_name-IsPlain base rest (
        or_else-IsPlain (sanitize (trim_space display_name)) job_id
          (sanitize-IsPlain (trim_space display_name)) h))
      h,
  not_dots (truncate_name base rest) job_id,
)
  where
    base : Str
    base = or_else (sanitize (trim_space display_name)) job_id

    rest : ℕ
    rest = max_filename_bytes - length (suffix_of job_id)
