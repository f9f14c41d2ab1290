-- ===== src/Paths.antt =====
-- The functions of `path` and `path/filepath` that the program calls, on a system whose separator
-- is `/`: Clean, Join, Dir, Base-free Abs and Rel. A path is its text; the work is done on its parts.
pub mod Within
use mathlib.Core.List.{reverse}
use tor_boxarr.Base.{
  ℕ, Bool, true, false, ◌&&◌, ◌||◌, Option, none, some, List, [], ◌∷◌, ◌++◌, map, Str,
  if◌then◌else◌, ◌==◌, split, join_by, filter, not, is_empty, str_eq, lit, ◌≡◌, refl,
}

abbrev pub slash : ℕ
slash = b'/'

abbrev pub dot : Str
dot = b'.' ∷ []

abbrev pub dot_dot : Str
dot_dot = b'.' ∷ b'.' ∷ []

unfoldable pub is_dot_dot : Str → Bool
is_dot_dot p = str_eq p dot_dot

-- A part that `Clean` drops.
unfoldable pub is_skipped : Str → Bool
is_skipped p = is_empty p || str_eq p dot

unfoldable pub is_abs : Str → Bool
is_abs [] = false
is_abs (c ∷ s) = c == slash

-- `..` takes the part before it away; at the start of a rooted path it is dropped.
unfoldable pub go_up : Bool → List Str → List Str
go_up true [] = []
go_up false [] = dot_dot ∷ []
go_up rooted (p ∷ done) = if is_dot_dot p then dot_dot ∷ (p ∷ done) else done

-- One part of the path; `done` holds the parts kept, the last one first.
unfoldable pub clean_part : Bool → List Str → Str → List Str
clean_part rooted done p =
    if is_skipped p then done else if is_dot_dot p then go_up rooted done else p ∷ done

unfoldable pub clean_from : Bool → List Str → List Str → List Str
clean_from rooted done [] = reverse done
clean_from rooted done (p ∷ ps) = clean_from rooted (clean_part rooted done p) ps

unfoldable pub clean_parts : Str → List Str
clean_parts s = clean_from (is_abs s) [] (split slash s)

unfoldable pub render : Bool → List Str → Str
render true ps = slash ∷ join_by slash ps
render false [] = dot
render false (p ∷ ps) = join_by slash (p ∷ ps)

unfoldable pub clean : Str → Str
clean s = render (is_abs s) (clean_parts s)

-- `Join` leaves empty elements out.
unfoldable pub join : List Str → Str
join ss = elim (filter (λ s. not (is_empty s)) ss) [
  | [] ↦ []
  | s ∷ r ↦ clean (join_by slash (s ∷ r))
]

-- The text up to the last separator, with it.
unfoldable pub up_to_slash : Str → Str
up_to_slash [] = []
up_to_slash (c ∷ s) =
    let front = up_to_slash s in
    if is_empty front then (if c == slash then c ∷ [] else []) else c ∷ front

unfoldable pub dir : Str → Str
dir s = clean (up_to_slash s)

unfoldable pub absolute : Str → Str → Str
absolute cwd s = if is_abs s then clean s else join (cwd ∷ s ∷ [])

-- What is left of the base and of the target behind their common parts.
unfoldable pub strip_common : List Str → List Str → List Str × List Str
strip_common [] ts = ([], ts)
strip_common (b ∷ bs) [] = (b ∷ bs, [])
strip_common (b ∷ bs) (t ∷ ts) =
    let rest = strip_common bs ts in if str_eq b t then rest else (b ∷ bs, t ∷ ts)

-- `Rel` fails if one path is rooted and the other not, or if the base goes up.
abbrev pub rel_parts : List Str × List Str → Option Str
rel_parts ([], []) = some dot
rel_parts ([], t ∷ ts) = some (join_by slash (t ∷ ts))
rel_parts (b ∷ bs, ts) =
    if is_dot_dot b then none else some (join_by slash (map (λ _. dot_dot) (b ∷ bs) ++ ts))

unfoldable pub rel : Str → Str → Option Str
rel base target =
    if (is_abs base && is_abs target) || (not (is_abs base) && not (is_abs target))
    then rel_parts (strip_common (clean_parts base) (clean_parts target))
    else none

clean_example : clean (lit "/a/./b//../c/") ≡ lit "/a/c"
unfolding clean render clean_parts clean_from clean_part go_up is_skipped is_dot_dot is_abs lit
    split join_by str_eq
clean_example = refl

dir_example : dir (lit "/a/b/c.bin") ≡ lit "/a/b"
unfolding dir up_to_slash clean render clean_parts clean_from clean_part go_up is_skipped is_dot_dot
    is_abs lit split join_by str_eq
dir_example = refl
