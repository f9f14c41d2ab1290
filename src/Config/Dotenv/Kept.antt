-- ===== src/Config/Dotenv/Kept.antt =====
-- The environment wins over the file.
use tor_boxarr.Base.{
  Bool-cases, List, Option, Str, [], false, has_prefix, inl, inr, is_empty, is_some, lit, none,
  refl, some, str_eq, str_eq→eq, sym, trim_space, true, ℕ, ◌+◌, ◌||◌, ◌∙◌, ◌∷◌, ◌≡◌,
}
use tor_boxarr.Config.{Variables, lookup_env}
use tor_boxarr.Config.Dotenv.{
  DotenvFile, Loaded, load_dot_env, open_fault, opened_file, or_stop, read_line, read_lines,
  scanned_all, set_env, set_or, set_pair, set_parsed,
}
use tor_boxarr.Torbox.Client.{Error, Result, err, ok}

-- Setting another name leaves the value of `key`.
lookup-set_env :
    (env : Variables) (name text key : Str)
    → str_eq name key ≡ false
    → lookup_env (set_env env name text) key ≡ lookup_env env key
unfolding lookup_env set_env
lookup-set_env [] name text key ne = rw ne refl
lookup-set_env ((k, v) ∷ env) name text key ne = elim (Bool-cases (str_eq k name)) [
  | inl hit ↦
      let same : k ≡ name = str_eq→eq k name hit in
      let apart : str_eq k key ≡ false = rw same ne in rw (hit, apart) refl
  | inr miss ↦ rw miss (elim (Bool-cases (str_eq k key)) [
    | inl found ↦ rw found refl
    | inr other ↦ rw other (lookup-set_env env name text key ne)
  ])
]

-- A name that is not set is another one than `key`, which is.
unset_differs :
    (env : Variables) (name key value : Str)
    → is_some (lookup_env env name) ≡ false
    → lookup_env env key ≡ some value
    → str_eq name key ≡ false
unset_differs env name key value absent h = elim (Bool-cases (str_eq name key)) [
  | inr other ↦ other
  | inl same ↦
      let there : is_some (lookup_env env name) ≡ true = rw (str_eq→eq name key same) (rw h refl) in
      let bad : true ≡ false = sym there ∙ absent in cc
]

-- The variable `key` has the value.
abbrev HasValue : Str → Str → Variables → Type 0
HasValue key value env = lookup_env env key ≡ some value

abbrev Keeps : Str → Str → Result Variables → Type 0
Keeps key value (ok env) = HasValue key value env
Keeps key value (err x) = Unit

module _ (f : DotenvFile) (key value : Str) where
  set_or-Keeps :
      (n : ℕ) (env : Variables) (name text : Str) (fault : Option Error)
      → str_eq name key ≡ false
      → HasValue key value env
      → Keeps key value (set_or n env name text fault)
  set_or-Keeps n env name text none ne h = lookup-set_env env name text key ne ∙ h
  set_or-Keeps n env name text (some x) ne h = tt

  set_parsed-Keeps :
      (n : ℕ) (env : Variables) (name : Str) (r : Result Str)
      → str_eq name key ≡ false
      → HasValue key value env
      → Keeps key value (set_parsed f n env name r)
  set_parsed-Keeps n env name (ok text) ne h =
      set_or-Keeps n env name text (f.setenv_error name) ne h
  set_parsed-Keeps n env name (err x) ne h = tt

  set_pair-Keeps :
      (n : ℕ) (env : Variables) (pair : Option (Str × Str))
      → HasValue key value env
      → Keeps key value (set_pair f n env pair)
  set_pair-Keeps n env none h = tt
  set_pair-Keeps n env (some (name, text)) h = elim (Bool-cases (is_empty (trim_space name))) [
    | inl empty ↦ rw empty tt
    | inr named ↦ elim (Bool-cases (is_some (lookup_env env (trim_space name)))) [
      | inl there ↦ rw (named, there) h
      | inr absent ↦
          rw (named, absent)
            (set_parsed-Keeps n env (trim_space name) _
              (unset_differs env (trim_space name) key value absent h) h)
    ]
  ]

  read_line-Keeps :
      (n : ℕ) (env : Variables) (line : Str)
      → HasValue key value env
      → Keeps key value (read_line f n env line)
  unfolding read_line
  read_line-Keeps n env line h =
      elim (Bool-cases (is_empty (trim_space line) || has_prefix (trim_space line) (lit "#"))) [
        | inl skipped ↦ rw skipped h
        | inr read ↦ rw read (set_pair-Keeps n env _ h)
      ]

  or_stop-HasValue :
      (env : Variables) (r : Result Variables) (more : Variables → Loaded)
      → HasValue key value env
      → Keeps key value r
      → ((env' : Variables) → HasValue key value env' → HasValue key value (more env').0)
      → HasValue key value (or_stop env r more).0
  or_stop-HasValue env (ok env') more h kept next = next env' kept
  or_stop-HasValue env (err x) more h kept next = h

  read_lines-HasValue :
      (n : ℕ) (env : Variables) (lines : List Str)
      → HasValue key value env
      → HasValue key value (read_lines f n env lines).0
  unfolding read_lines
  read_lines-HasValue n env [] h = h
  read_lines-HasValue n env (line ∷ lines) h =
      or_stop-HasValue env (read_line f n env line) _ h (read_line-Keeps n env line h)
        λ env' kept. read_lines-HasValue (n + 1) env' lines kept

-- A variable that is set keeps its value when the file `.env` is loaded, whatever the file holds and
-- wherever reading it stops.
pub load_dot_env-kept :
    (f : DotenvFile) (env : Variables) (key value : Str)
    → lookup_env env key ≡ some value
    → lookup_env (load_dot_env f env).0 key ≡ some value
unfolding load_dot_env
load_dot_env-kept f env key value h = go f.open_error
  where
    ended : (l : Loaded) → HasValue key value l.0 → HasValue key value (scanned_all f l).0
    ended (env', some x) k = k
    ended (env', none) k = k

    missing : (x : Error) → HasValue key value (open_fault f env x).0
    missing x = elim (Bool-cases f.is_missing) [ inl gone ↦ rw gone h | inr there ↦ rw there h ]

    go : (fault : Option Error) → HasValue key value (opened_file f env fault).0
    go none = ended (read_lines f 1 env f.lines) (read_lines-HasValue f key value 1 env f.lines h)
    go (some x) = missing x
