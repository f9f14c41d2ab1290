-- ===== src/Base/Text.antt =====
-- Text as Go has it: a string is its list of bytes. `lit` is a literal; it stays shut in proofs.
use Prim.Native.Nat.{ℕ, zero, suc, ◌+◌, ◌-◌, ◌*◌, ◌/◌, ◌%◌}
use Prim.Native.Char.{code}
use Prim.Native.String.{String}
use mathlib.Core.Path.{◌≡◌, refl}
use mathlib.Core.Logic.{◌↔◌}
use mathlib.Core.Bool.{Bool, true, false, ◌&&◌, ◌||◌}
use mathlib.Core.Option.{Option, none, some}
use mathlib.Core.List.{List, [], ◌∷◌, ◌++◌, map, reverse}
use native.Mathlib.Omega.{arith}
use tor_boxarr.Base.Tests.{ltb, leb, ◌==◌, if◌then◌else◌}
use tor_boxarr.Base.Int.{ℤ, pos, negsuc}

abbrev pub Str : Type 0
Str = List ℕ

abbrev codes : String → Str
codes String.[] = []
codes (String.◌∷◌ c s) = code c ∷ codes s

unfoldable pub lit : String → Str
lit s = codes s

unfoldable pub str_eq : Str → Str → Bool
str_eq [] [] = true
str_eq (a ∷ s) (b ∷ t) = a == b && str_eq s t
str_eq _ _ = false

pub str_eq_refl : (s : Str) → str_eq s s ≡ true
unfolding str_eq
str_eq_refl [] = refl
str_eq_refl (a ∷ s) = ground (arith, str_eq_refl s)

pub str_eq→eq : (s t : Str) → str_eq s t ≡ true → s ≡ t
unfolding str_eq
str_eq→eq [] [] h = refl
str_eq→eq [] (b ∷ t) h = cc
str_eq→eq (a ∷ s) [] h = cc
str_eq→eq (a ∷ s) (b ∷ t) h = ground (arith, str_eq→eq s t)

pub str_eq_iff : (s t : Str) → (str_eq s t ≡ true) ↔ (s ≡ t)
str_eq_iff s t = (str_eq→eq s t, λ e. subst-str e)
  where
    subst-str : s ≡ t → str_eq s t ≡ true
    subst-str e = rw (← e) (str_eq_refl s)

abbrev pub is_empty : Str → Bool
is_empty [] = true
is_empty (_ ∷ _) = false

-- The order of two texts byte by byte, as SQLite compares them.
unfoldable pub text_le : Str → Str → Bool
text_le [] t = true
text_le (a ∷ s) [] = false
text_le (a ∷ s) (b ∷ t) = if a == b then text_le s t else leb a b

-- The white space of `strings.TrimSpace` in one byte: tab, newline, VT, FF, return, blank.
abbrev pub is_space : ℕ → Bool
is_space c = c == 32 || (leb 9 c && leb c 13)

unfoldable pub drop_while : (ℕ → Bool) → Str → Str
drop_while p [] = []
drop_while p (c ∷ s) = if p c then drop_while p s else c ∷ s

-- `strings.Trim` by a set of bytes: cut at the front, then at the back.
unfoldable pub trim : (ℕ → Bool) → Str → Str
unfolding drop_while
trim p s = reverse (drop_while p (reverse (drop_while p s)))

-- `strings.TrimSpace`, on ASCII.
unfoldable pub trim_space : Str → Str
unfolding trim
trim_space s = trim is_space s

abbrev pub lower_byte : ℕ → ℕ
lower_byte c = if leb b'A' c && leb c b'Z' then c + 32 else c

abbrev pub upper_byte : ℕ → ℕ
upper_byte c = if leb b'a' c && leb c b'z' then c - 32 else c

-- `strings.ToLower`, on ASCII.
unfoldable pub to_lower : Str → Str
to_lower s = map lower_byte s

-- `strings.EqualFold`, on ASCII.
unfoldable pub equal_fold : Str → Str → Bool
unfolding to_lower str_eq
equal_fold s t = str_eq (to_lower s) (to_lower t)

unfoldable pub has_prefix : Str → Str → Bool
has_prefix s [] = true
has_prefix [] (p ∷ ps) = false
has_prefix (c ∷ s) (p ∷ ps) = c == p && has_prefix s ps

-- `strings.Contains`.
unfoldable pub contains : Str → Str → Bool
unfolding has_prefix
contains [] p = has_prefix [] p
contains (c ∷ s) p = has_prefix (c ∷ s) p || contains s p

-- `strings.Split` at one byte: the first piece and the others.
unfoldable pub split_from : ℕ → Str → Str → List Str
split_from sep acc [] = reverse acc ∷ []
split_from sep acc (c ∷ s) =
    let piece = reverse acc ∷ split_from sep [] s in
    let more = split_from sep (c ∷ acc) s in if c == sep then piece else more

unfoldable pub split : ℕ → Str → List Str
unfolding split_from
split sep s = split_from sep [] s

-- `strings.Join` by one byte.
unfoldable pub join_by : ℕ → List Str → Str
join_by sep [] = []
join_by sep (s ∷ []) = s
join_by sep (s ∷ t ∷ r) = s ++ (sep ∷ join_by sep (t ∷ r))

-- Decimal digits, the last one first. A Go integer has at most 20.
unfoldable pub digits_rev : ℕ → ℕ → Str
digits_rev zero n = []
digits_rev (suc f) n =
    let rest = digits_rev f (n / 10) in if ltb n 10 then (48 + n) ∷ [] else (48 + n % 10) ∷ rest

-- `%d` and `%03d` of `fmt`, for a number that is not negative.
unfoldable pub show_nat : ℕ → Str
unfolding digits_rev
show_nat n = reverse (digits_rev 20 n)

unfoldable pub show_nat_3 : ℕ → Str
unfolding show_nat
show_nat_3 n =
    if ltb n 10 then 48 ∷ 48 ∷ show_nat n else if ltb n 100 then 48 ∷ show_nat n else show_nat n

unfoldable pub show_int : ℤ → Str
unfolding show_nat
show_int (pos n) = show_nat n
show_int (negsuc n) = b'-' ∷ show_nat (suc n)

-- `strconv.ParseInt` in base 10, for 64 bits.
unfoldable pub parse_digits : ℕ → Str → Option ℕ
parse_digits acc [] = some acc
parse_digits acc (c ∷ s) =
    let rest = parse_digits (acc * 10 + (c - 48)) s in
    if leb b'0' c && leb c b'9' then rest else none

abbrev pub signed_in_range : Bool → Option ℕ → Option ℤ
signed_in_range negative none = none
signed_in_range false (some n) = if ltb n 9223372036854775808 then some (pos n) else none
signed_in_range true (some zero) = some (pos 0)
signed_in_range true (some (suc n)) = if ltb n 9223372036854775808 then some (negsuc n) else none

abbrev pub digits_of : Str → Option ℕ
digits_of [] = none
digits_of (c ∷ s) = parse_digits 0 (c ∷ s)

unfoldable pub parse_int : Str → Option ℤ
parse_int [] = none
parse_int (c ∷ s) =
    if c == b'-'
    then signed_in_range true (digits_of s)
    else if c == b'+'
    then signed_in_range false (digits_of s)
    else signed_in_range false (digits_of (c ∷ s))

parse_int_example : parse_int (lit "-1205") ≡ some (negsuc 1204)
unfolding parse_int parse_digits lit
parse_int_example = refl

show_nat_3_example : show_nat_3 42 ≡ lit "042"
unfolding show_nat_3 lit
show_nat_3_example = refl

split_example : split b'/' (lit "a//bc") ≡ lit "a" ∷ [] ∷ lit "bc" ∷ []
unfolding split lit
split_example = refl

trim_space_example : trim_space (lit " a b  ") ≡ lit "a b"
unfolding trim_space lit
trim_space_example = refl
