-- ===== src/Config/Dotenv.antt =====
-- The file `.env`.
pub mod Kept
pub mod Quoted
use mathlib.Core.List.{reverse}
use tor_boxarr.Base.{
  Bool, List, Option, Str, [], drop, has_prefix, if◌then◌else◌, is_empty, is_some, length, lit, ltb,
  none, not, show_nat, some, str_eq, take, trim_space, ℕ, ◌++◌, ◌+◌, ◌-◌, ◌==◌, ◌||◌, ◌∷◌,
}
use tor_boxarr.Config.{
  Config, Variables, apply_derived, apply_env, default_config, lookup_env, validate,
}
use tor_boxarr.Torbox.Client.{Error, Result, err, new_error, ok, wrap}
use tor_boxarr.World.{map_error}

-- `bufio.Scanner` over the file, where it exists: its lines and how it ends; `strconv.Unquote`;
-- `os.Setenv` of a name.
pub record DotenvFile : Type 0 where
  pub open_error : Option Error
  pub is_missing : Bool
  pub lines : List Str
  pub scan_error : Option Error
  pub unquote : Str → Result Str
  pub setenv_error : Str → Option Error

-- The value without its first and its last byte.
abbrev pub inner : Str → Str
inner value = take (length value - 2) (drop 1 value)

unfoldable pub parse_dot_env_value : DotenvFile → Str → Result Str
parse_dot_env_value f value =
    if is_empty value
    then ok []
    else if has_prefix value (34 ∷ [])
    then map_error (wrap (lit "invalid quoted value")) (f.unquote value)
    else if has_prefix value (39 ∷ [])
    then (if ltb (length value) 2 || not (has_prefix (reverse value) (39 ∷ []))
        then err (new_error (lit "invalid single-quoted value"))
        else ok (inner value))
    else ok value

-- `strings.Cut` at `=`.
abbrev pub longer : ℕ → Option (Str × Str) → Option (Str × Str)
longer c none = none
longer c (some (key, value)) = some (c ∷ key, value)

unfoldable pub cut : Str → Option (Str × Str)
cut [] = none
cut (c ∷ s) = let rest = cut s in if c == 61 then some ([], s) else longer c rest

abbrev pub without_export : Str → Str
without_export line = if has_prefix line (lit "export ") then trim_space (drop 7 line) else line

abbrev pub at_line : ℕ → Error → Error
at_line n x = wrap (lit "parse .env:" ++ show_nat n) x

abbrev pub line_error : {A : Type 0} → ℕ → Str → Result A
line_error n why = err (new_error (lit "parse .env:" ++ (show_nat n ++ (lit ": " ++ why))))

-- `os.Setenv`: the value of the name is replaced, or the name is new.
unfoldable pub set_env : Variables → Str → Str → Variables
set_env [] key value = (key, value) ∷ []
set_env ((k, v) ∷ env) key value =
    let rest = set_env env key value in if str_eq k key then (k, value) ∷ env else (k, v) ∷ rest

abbrev pub set_or : ℕ → Variables → Str → Str → Option Error → Result Variables
set_or n env key value none = ok (set_env env key value)
set_or n env key value (some x) =
    err (wrap (lit "set " ++ (key ++ (lit " from .env:" ++ show_nat n))) x)

abbrev pub set_parsed : DotenvFile → ℕ → Variables → Str → Result Str → Result Variables
set_parsed f n env key (err x) = err (at_line n x)
set_parsed f n env key (ok value) = set_or n env key value (f.setenv_error key)

abbrev pub set_pair : DotenvFile → ℕ → Variables → Option (Str × Str) → Result Variables
set_pair f n env none = line_error n (lit "missing '='")
set_pair f n env (some (key, value)) =
    let key = trim_space key in
    if is_empty key
    then line_error n (lit "empty key")
    else if is_some (lookup_env env key)
    then ok env
    else set_parsed f n env key (parse_dot_env_value f (trim_space value))

unfoldable pub read_line : DotenvFile → ℕ → Variables → Str → Result Variables
read_line f n env line =
    let line = trim_space line in
    if is_empty line || has_prefix line (lit "#")
    then ok env
    else set_pair f n env (cut (without_export line))

-- The environment as the loop leaves it, and its error: what was set before an error stays.
abbrev pub Loaded : Type 0
Loaded = Variables × Option Error

abbrev pub or_stop : Variables → Result Variables → (Variables → Loaded) → Loaded
or_stop env (err x) more = (env, some x)
or_stop env (ok env') more = more env'

unfoldable pub read_lines : DotenvFile → ℕ → Variables → List Str → Loaded
read_lines f n env [] = (env, none)
read_lines f n env (line ∷ lines) =
    or_stop env (read_line f n env line) λ env'. read_lines f (n + 1) env' lines

-- The end of the scan, once the lines are done.
abbrev pub scanned_all : DotenvFile → Loaded → Loaded
scanned_all f (env, some x) = (env, some x)
scanned_all f (env, none) = (env, f.scan_error)

abbrev pub open_fault : DotenvFile → Variables → Error → Loaded
open_fault f env x = if f.is_missing then (env, none) else (env, some (wrap (lit "open .env") x))

abbrev pub opened_file : DotenvFile → Variables → Option Error → Loaded
opened_file f env none = scanned_all f (read_lines f 1 env f.lines)
opened_file f env (some x) = open_fault f env x

unfoldable pub load_dot_env : DotenvFile → Variables → Loaded
load_dot_env f env = opened_file f env f.open_error

abbrev pub validated : Config → Option Error → Result Config
validated c none = ok c
validated c (some x) = err x

abbrev pub load_from : Loaded → Result Config
load_from (env, some x) = err x
load_from (env, none) =
    let c = apply_derived (apply_env env default_config) in validated c (validate c)

unfoldable pub load : DotenvFile → Variables → Result Config
load f env = load_from (load_dot_env f env)
