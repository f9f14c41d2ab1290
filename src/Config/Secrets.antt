-- ===== src/Config/Secrets.antt =====
-- What a configuration that is loaded has.
use tor_boxarr.Api.Sab.{field}
use tor_boxarr.Auth.Qbit.{SessionManager, credentials_match}
use tor_boxarr.Base.{
  Bool-cases, List, Option, Str, [], arith, drop_while, false, inl, inr, is_empty, none, refl, some,
  str_eq, subst, trim, trim_space, true, ◌∷◌, ◌≡◌,
}
use tor_boxarr.Config.{
  Config, Variables, apply_derived, apply_env, default_config, first_fault, is_env_placeholder,
  validate, validate_secret,
}
use tor_boxarr.Config.Dotenv.{DotenvFile, Loaded, load, load_dot_env, load_from, validated}
use tor_boxarr.Torbox.Client.{Error, ok}
use tor_boxarr.Torbox.Outcome.{Holds}

-- A secret that is not blank and not a reference that was never resolved.
pub record IsSecret (value : Str) : Type 0 where
  pub filled : is_empty (trim_space value) ≡ false
  pub resolved : is_env_placeholder (trim_space value) ≡ false

abbrev pub IsSecured : Config → Type 0
IsSecured c =
    IsSecret c.api_token
    × IsSecret c.qbit_password
    × IsSecret c.sab_api_key
    × IsSecret c.sab_nzb_key

validate_secret-IsSecret : (field value : Str) → validate_secret field value ≡ none → IsSecret value
unfolding validate_secret
validate_secret-IsSecret field value h = elim (Bool-cases (is_empty (trim_space value))) [
  | inl blank ↦ absurd (some_not_none (rw blank at h))
  | inr filled ↦ elim (Bool-cases (is_env_placeholder (trim_space value))) [
    | inl reference ↦ absurd (some_not_none (rw (filled, reference) at h))
    | inr resolved ↦ record { filled = filled; resolved = resolved }
  ]
]
  where
    some_not_none : {A : Type 0} {a : A} → some a ≡ none → ⊥
    some_not_none p = cc

first_fault-none :
    (fault : Option Error) (faults : List (Option Error))
    → first_fault (fault ∷ faults) ≡ none
    → (fault ≡ none) × (first_fault faults ≡ none)
unfolding first_fault
first_fault-none none faults h = (refl, h)
first_fault-none (some x) faults h = cc

validate-IsSecured : (c : Config) → validate c ≡ none → IsSecured c
unfolding validate
validate-IsSecured c h =
    let after_address = first_fault-none _ _ h in
    let after_url = first_fault-none _ _ after_address.1 in
    let after_database = first_fault-none _ _ after_url.1 in
    let after_root = first_fault-none _ _ after_database.1 in
    let after_staging = first_fault-none _ _ after_root.1 in
    let after_completed = first_fault-none _ _ after_staging.1 in
    let after_user = first_fault-none _ _ after_completed.1 in
    let token = first_fault-none _ _ after_user.1 in
    let password = first_fault-none _ _ token.1 in
    let api_key = first_fault-none _ _ password.1 in
    let nzb_key = first_fault-none _ _ api_key.1 in
    (
      validate_secret-IsSecret _ _ token.0,
      validate_secret-IsSecret _ _ password.0,
      validate_secret-IsSecret _ _ api_key.0,
      validate_secret-IsSecret _ _ nzb_key.0,
    )

validated-IsSecured :
    (c : Config) (fault : Option Error) → validate c ≡ fault → Holds IsSecured (validated c fault)
validated-IsSecured c none h = validate-IsSecured c h
validated-IsSecured c (some x) h = tt

loaded-IsSecured : (l : Loaded) → Holds IsSecured (load_from l)
loaded-IsSecured (env, some x) = tt
loaded-IsSecured (env, none) =
    validated-IsSecured (apply_derived (apply_env env default_config)) _ refl

no_blank : (password : Str) → IsSecret password → str_eq [] password ≡ false
unfolding str_eq trim_space trim drop_while
no_blank [] h = absurd (true_not_false h.filled)
  where
    true_not_false : true ≡ false → ⊥
    true_not_false p = cc
no_blank (c ∷ s) h = refl

-- A configuration that is loaded has no secret that is blank or an unresolved reference, be it the
-- token of the service, the password or one of the two keys; and where the password of the sessions is
-- the configured one, no login with an empty password matches.
pub load-IsSecured :
    (f : DotenvFile) (env : Variables) (c : Config) (m : SessionManager) (username : Str)
    → load f env ≡ ok c
    → m.password ≡ c.qbit_password
    → IsSecured c × (credentials_match m username [] ≡ false)
unfolding load
load-IsSecured f env c m username h same =
    let secured = subst (Holds IsSecured) h (loaded-IsSecured (load_dot_env f env)) in
    (secured, rw (same, no_blank c.qbit_password secured.1) (ground arith))
