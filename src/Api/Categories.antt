-- ===== src/Api/Categories.antt =====
-- The categories that internal/api/qbit.go and sab.go list: directories of the completed path, and
-- the categories of the jobs.
use tor_boxarr.Api.Http.{SabCategory}
use tor_boxarr.Api.Library.{Server}
use tor_boxarr.Base.{
  Bool, List, Str, [], any, filter, if◌then◌else◌, is_empty, lit, map, not, pos, sort_by, str_eq,
  text_le, trim_space, ◌++◌, ◌||◌, ◌∷◌,
}
use tor_boxarr.Compat.Qbit.{QbitCategory, project_qbit_category}
use tor_boxarr.Model.{Job, qbit, sab}
use tor_boxarr.Paths.{join}
use tor_boxarr.Store.Jobs.{list_visible_client_jobs}
use tor_boxarr.Torbox.Client.{Result, err, ok}
use tor_boxarr.World.{Env, M, ask, attempt, lift, pure, ◌>>=◌}

-- The entries that are directories and have a name, with blanks cut off.
unfoldable pub dir_names : List (Str × Bool) → List Str
dir_names [] = []
dir_names ((name, is_dir) ∷ entries) =
    let rest = dir_names entries in
    if not is_dir || is_empty (trim_space name) then rest else trim_space name ∷ rest

-- A Go map from names: the first of a name stays. Where the source writes a name again it is the same
-- value.
abbrev pub has_name : Str → List (Str × QbitCategory) → Bool
has_name name = any (λ c. str_eq c.0 name)

abbrev pub qbit_category : Server → Str → QbitCategory
qbit_category s name = project_qbit_category name (join (s.completed_dir ∷ name ∷ []))

unfoldable pub put_categories :
    Server → List (Str × QbitCategory) → List Str → List (Str × QbitCategory)
put_categories s payload [] = payload
put_categories s payload (name ∷ names) =
    put_categories s
      (if has_name name payload then payload else payload ++ ((name, qbit_category s name) ∷ []))
      names

abbrev pub or_default : Server → List (Str × QbitCategory) → List (Str × QbitCategory)
or_default s [] =
    let category = s.compatibility.default_category in (category, qbit_category s category) ∷ []
or_default s (c ∷ cs) = c ∷ cs

-- `os.ReadDir` of the completed directory, where a missing one has no entries.
abbrev pub existing : Env → Result (List (Str × Bool)) → Result (List (Str × Bool))
existing e (ok entries) = ok entries
existing e (err x) = if e.is_not_exist x then ok [] else err x

abbrev pub categories_of : List Job → List Str
categories_of = map (λ job. job.category)

unfoldable pub qbit_categories : Server → M (List (Str × QbitCategory))
qbit_categories s = do
  found ← ask (λ n. s.env.read_dir n s.completed_dir)
  entries ← lift (existing s.env found)
  jobs ← list_visible_client_jobs s.env qbit [] (pos 1000)
  pure (or_default s (put_categories s [] (dir_names entries ++ categories_of jobs)))

abbrev pub category_named : Str → SabCategory
category_named name = record { name = name; dir = name }

unfoldable pub default_sab_categories : Server → List SabCategory
default_sab_categories s =
    let default_category = trim_space s.compatibility.default_category in
    let categories =
      record { name = lit "*"; dir = [] }
      ∷ category_named (lit "movies")
      ∷ category_named (lit "tv")
      ∷ category_named (lit "audio")
      ∷ category_named (lit "software")
      ∷ [] in
    if is_empty default_category || str_eq default_category (lit "*")
    then categories
    else categories ++ (category_named default_category ∷ [])

-- `add` of `sabCategoryConfigs`, over a list of categories.
abbrev pub add_one : List SabCategory → SabCategory → List SabCategory
add_one seen c =
    let name = trim_space c.name in
    if is_empty name || any (λ other. str_eq other.name name) seen
    then seen
    else seen ++ (record { name = name; dir = trim_space c.dir } ∷ [])

unfoldable pub add_all : List SabCategory → List SabCategory → List SabCategory
add_all seen [] = seen
add_all seen (c ∷ cs) = add_all (add_one seen c) cs

abbrev pub is_star : SabCategory → Bool
is_star c = str_eq c.name (lit "*")

unfoldable pub star_first : List SabCategory → List SabCategory
star_first seen =
    filter is_star seen
    ++ sort_by (λ a b. text_le a.name b.name) (filter (λ c. not (is_star c)) seen)

abbrev pub entries_or_none : Result (List (Str × Bool)) → List (Str × Bool)
entries_or_none (ok entries) = entries
entries_or_none (err x) = []

abbrev pub configs_with : Server → Result (List Job) → M (List SabCategory)
configs_with s (err x) = pure (default_sab_categories s)
configs_with s (ok jobs) = do
  found ← ask (λ n. s.env.read_dir n s.completed_dir)
  let seen = add_all [] (default_sab_categories s)
  let seen = add_all seen (map category_named (dir_names (entries_or_none found)))
  pure (star_first (add_all seen (map category_named (categories_of jobs))))

unfoldable pub sab_category_configs : Server → M (List SabCategory)
sab_category_configs s =
    attempt (list_visible_client_jobs s.env sab [] (pos 1000)) >>= configs_with s

unfoldable pub sab_category_names : Server → M (List Str)
sab_category_names s = do configs ← sab_category_configs s; pure (map (λ c. c.name) configs)
