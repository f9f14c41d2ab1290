-- ===== src/Files/Layout.antt =====
-- internal/files/layout.go: the directories of a job, names that are safe as one path element, and
-- the moves and removals on the file system.
pub mod Names
use tor_boxarr.Base.{
  ℕ, suc, ◌-◌, Bool, true, false, not, ◌&&◌, ◌||◌, Option, none, some, List, [], ◌∷◌, ◌++◌, map,
  Str, if◌then◌else◌, ◌==◌, zero, leb, any, length, take, lit, str_eq, is_empty, trim, trim_space,
}
use tor_boxarr.Paths.{join, dir}
use tor_boxarr.World.{
  Effect, Env, M, pure, fail, lift, fault, ask, emit, with_text, ◌>>=◌, ◌>>◌, renamed, made_dir,
  removed_all,
}
use tor_boxarr.Torbox.Client.{Error, new_error, wrap}

pub record Layout : Type 0 where
  pub root : Str
  pub staging : Str
  pub completed : Str
  pub payloads : Str

abbrev pub max_filename_bytes : ℕ
max_filename_bytes = 255

-- The bytes that `sanitizeReplacer` replaces: / \ : * ? " < > |
abbrev pub is_forbidden : ℕ → Bool
is_forbidden c =
    c == 47 || c == 92 || c == 58 || c == 42 || c == 63 || c == 34 || c == 60 || c == 62 || c == 124

abbrev pub replace_byte : ℕ → ℕ
replace_byte c = if is_forbidden c then b'_' else c

abbrev pub is_dot_or_blank : ℕ → Bool
is_dot_or_blank c = c == b'.' || c == 32

abbrev pub or_unnamed : Str → Str
or_unnamed [] = lit "unnamed"
or_unnamed (c ∷ s) = c ∷ s

unfoldable pub sanitize : Str → Str
sanitize v = or_unnamed (trim is_dot_or_blank (map replace_byte (trim_space v)))

unfoldable pub staging_path_for_job : Layout → Str → Str
staging_path_for_job l job_id = join (l.staging ∷ job_id ∷ [])

unfoldable pub payload_path_for_job : Layout → Str → Str → Str
payload_path_for_job l job_id name = join (l.payloads ∷ job_id ∷ sanitize name ∷ [])

unfoldable pub payload_dir_for_job : Layout → Str → Str
payload_dir_for_job l job_id = join (l.payloads ∷ job_id ∷ [])

-- `utf8.ValidString`: the ranges of the bytes that must follow a first byte.
abbrev pub between : ℕ → ℕ → ℕ → Bool
between lo hi c = leb lo c && leb c hi

abbrev pub tail_ranges : ℕ → Option (List (ℕ × ℕ))
tail_ranges c =
    if leb c 127
    then some []
    else if between 194 223 c
    then some ((128, 191) ∷ [])
    else if c == 224
    then some ((160, 191) ∷ (128, 191) ∷ [])
    else if c == 237
    then some ((128, 159) ∷ (128, 191) ∷ [])
    else if between 225 239 c
    then some ((128, 191) ∷ (128, 191) ∷ [])
    else if c == 240
    then some ((144, 191) ∷ (128, 191) ∷ (128, 191) ∷ [])
    else if between 241 243 c
    then some ((128, 191) ∷ (128, 191) ∷ (128, 191) ∷ [])
    else if c == 244
    then some ((128, 143) ∷ (128, 191) ∷ (128, 191) ∷ [])
    else none

unfoldable pub valid_from : List (ℕ × ℕ) → Str → Bool
valid_from [] [] = true
valid_from (r ∷ rs) [] = false
valid_from ((lo, hi) ∷ rs) (c ∷ s) = let more = valid_from rs s in between lo hi c && more
valid_from [] (c ∷ s) = elim (tail_ranges c) [ none ↦ false | some rs ↦ valid_from rs s ]

unfoldable pub valid_utf8 : Str → Bool
valid_utf8 s = valid_from [] s

-- The longest valid text among the first `n` bytes, the first `n - 1`, and so on.
unfoldable pub valid_prefix : ℕ → Str → Str
valid_prefix zero s = []
valid_prefix (suc n) s =
    let shorter = valid_prefix n s in
    if valid_utf8 (take (suc n) s) then take (suc n) s else shorter

unfoldable pub truncate_name : Str → ℕ → Str
truncate_name name max_bytes =
    if leb (length name) max_bytes then name else valid_prefix max_bytes name

-- `if category == ""`, which never holds of a sanitized text.
abbrev pub or_else : Str → Str → Str
or_else [] d = d
or_else (c ∷ s) d = c ∷ s

abbrev pub suffix_of : Str → Str
suffix_of job_id = b'-' ∷ job_id

-- `255 - len(suffix)` stops at 0, where the source has a negative bound and the same result.
unfoldable pub completed_name : Str → Str → Str
completed_name display_name job_id =
    truncate_name (or_else (sanitize (trim_space display_name)) job_id)
      (max_filename_bytes - length (suffix_of job_id))
    ++ suffix_of job_id

unfoldable pub completed_path_for_job : Layout → Str → Str → Str → Str
completed_path_for_job l category display_name job_id = join (
    l.completed
    ∷ or_else (sanitize (trim_space category)) (lit "uncategorized")
    ∷ completed_name display_name job_id
    ∷ [])

-- A call on the file system: it is made, and it may fail.
abbrev pub fs_call : Effect → (ℕ → Option Error) → Str → M (Unit {0})
fs_call x answer text = do emit x; f ← ask answer; with_text (wrap text) (lift (fault f))

unfoldable pub promote : Env → Str → Str → M (Unit {0})
promote e staging_path completed_path =
    if is_empty staging_path || is_empty completed_path
    then fail (new_error (lit "both stagingPath and completedPath are required"))
    else (do
      fs_call (made_dir (dir completed_path)) (λ n. e.mkdir_all n (dir completed_path))
          (lit "ensure completed parent")
      fs_call (renamed staging_path completed_path) (λ n. e.rename n staging_path completed_path)
          (lit "rename staging to completed"))

unfoldable pub remove_path : Env → Str → M (Unit {0})
remove_path e path =
    if is_empty path
    then pure tt
    else fs_call (removed_all path) (λ n. e.remove_all n path) (lit "remove path " ++ path)

-- The loop over the entries of the staging directory: `removed` is returned, oldest first.
unfoldable pub remove_orphans :
    Env → Layout → List Str → List Str → List (Str × Bool) → M (List Str)
remove_orphans e l valid removed [] = pure removed
remove_orphans e l valid removed ((name, is_dir) ∷ entries) =
    let skip = remove_orphans e l valid removed entries in
    let orphan = join (l.staging ∷ name ∷ []) in
    let drop_it = (do
      fs_call (removed_all orphan) (λ n. e.remove_all n orphan)
          (lit "remove orphan staging dir " ++ orphan)
      remove_orphans e l valid (removed ++ (orphan ∷ [])) entries) in
    if not is_dir || any (str_eq name) valid then skip else drop_it

unfoldable pub remove_orphan_staging_dirs : Env → Layout → List Str → M (List Str)
remove_orphan_staging_dirs e l valid = do
  found ← ask (λ n. e.read_dir n l.staging)
  entries ← with_text (wrap (lit "read staging root")) (lift found)
  remove_orphans e l valid [] entries
