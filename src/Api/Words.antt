-- ===== src/Api/Words.antt =====
-- The small functions on texts of internal/api/router.go, qbit.go and sab.go.
use tor_boxarr.Api.Library.{Library}
use tor_boxarr.Base.{
  Bool, List, Option, Str, [], any, filter, if◌then◌else◌, is_empty, lit, none, not, some, split,
  str_eq, to_lower, trim_space, ℤ, ◌||◌, ◌∷◌,
}
use tor_boxarr.Model.{Job}

unfoldable pub first_non_empty : List Str → Str
first_non_empty [] = []
first_non_empty (v ∷ vs) = if is_empty (trim_space v) then first_non_empty vs else trim_space v

-- The loop of `splitCSV` and `splitPipe` over the pieces.
unfoldable pub kept_items : List Str → List Str
kept_items [] = []
kept_items (item ∷ items) =
    let rest = kept_items items in
    if is_empty (trim_space item) || str_eq (trim_space item) (lit "all")
    then rest
    else trim_space item ∷ rest

unfoldable pub split_csv : Str → List Str
split_csv v = kept_items (split b',' (trim_space v))

unfoldable pub split_pipe : Str → List Str
split_pipe v = kept_items (split b'|' (trim_space v))

unfoldable pub parse_bool : Str → Bool
parse_bool v =
    any (str_eq (to_lower (trim_space v))) (lit "1" ∷ lit "true" ∷ lit "yes" ∷ lit "on" ∷ [])

abbrev pub scanned : Option ℤ → ℤ → ℤ
scanned none fallback = fallback
scanned (some n) fallback = n

unfoldable pub parse_int_or : Library → Str → ℤ → ℤ
parse_int_or l v fallback =
    if is_empty (trim_space v) then fallback else scanned (l.scan_int (trim_space v)) fallback

unfoldable pub derive_display_name : Str → Str → Str → Str → Str → Str
derive_display_name display_name source_uri payload_name info_hash fallback =
    if not (is_empty (trim_space display_name))
    then trim_space display_name
    else if not (is_empty (trim_space payload_name))
    then trim_space payload_name
    else if not (is_empty (trim_space info_hash))
    then trim_space info_hash
    else if not (is_empty (trim_space source_uri))
    then trim_space source_uri
    else fallback

unfoldable pub normalize_info_hash : Str → Str
normalize_info_hash v = to_lower (trim_space v)

-- `filterJobsByPublicIDs`: without hashes every job passes.
unfoldable pub filter_jobs_by_public_ids : List Job → List Str → List Job
filter_jobs_by_public_ids jobs [] = jobs
filter_jobs_by_public_ids jobs (h ∷ hs) = filter (λ job. any (str_eq job.public_id) (h ∷ hs)) jobs
