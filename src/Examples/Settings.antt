-- ===== src/Examples/Settings.antt =====
-- The configuration at a concrete environment.
use tor_boxarr.Auth.Qbit.{SessionManager, credentials_match}
use tor_boxarr.Base.{
  [], drop_while, false, has_prefix, join_by, lit, none, refl, some, str_eq, trim, trim_space, ◌∷◌,
  ◌≡◌,
}
use tor_boxarr.Config.{
  Config, Variables, apply_derived, apply_env, default_config, first_fault, is_env_placeholder,
  lookup_env, validate, validate_secret,
}
use tor_boxarr.Config.Dotenv.{
  DotenvFile, cut, load, load_dot_env, parse_dot_env_value, read_line, read_lines,
}
use tor_boxarr.Config.Dotenv.Kept.{load_dot_env-kept}
use tor_boxarr.Config.Dotenv.Quoted.{parse_dot_env_value-quoted, quoted}
use tor_boxarr.Config.Secrets.{IsSecured, load-IsSecured}
use tor_boxarr.Paths.{
  clean, clean_from, clean_part, clean_parts, go_up, is_abs, is_dot_dot, is_skipped, join, render,
}
use tor_boxarr.Torbox.Client.{ok}

abbrev no_file : DotenvFile
no_file = record {
  open_error = none;
  is_missing = false;
  lines = lit "TORBOXARR_SAB_API_KEY=x" ∷ [];
  scan_error = none;
  unquote = λ s. ok s;
  setenv_error = λ key. none;
}

abbrev variables : Variables
variables =
    (lit "TORBOXARR_TORBOX_API_TOKEN", lit "t")
    ∷ (lit "TORBOXARR_QBIT_PASSWORD", lit "p")
    ∷ (lit "TORBOXARR_SAB_API_KEY", lit "k")
    ∷ []

api_key_set : lookup_env variables (lit "TORBOXARR_SAB_API_KEY") ≡ some (lit "k")
unfolding lookup_env str_eq lit
api_key_set = refl

load_dot_env-kept_example :
    lookup_env (load_dot_env no_file variables).0 (lit "TORBOXARR_SAB_API_KEY") ≡ some (lit "k")
load_dot_env-kept_example =
    load_dot_env-kept no_file variables (lit "TORBOXARR_SAB_API_KEY") (lit "k") api_key_set

abbrev settings : Config
settings = apply_derived (apply_env variables default_config)

loaded : load no_file variables ≡ ok settings
unfolding load load_dot_env read_lines read_line cut lookup_env apply_env apply_derived
    default_config validate validate_secret first_fault is_env_placeholder str_eq lit trim_space
    trim drop_while has_prefix join clean clean_from clean_part clean_parts go_up is_abs is_dot_dot
    is_skipped render join_by
loaded = refl

abbrev configured : SessionManager
configured = record {
  username = settings.qbit_username;
  password = settings.qbit_password;
  ttl = settings.session_ttl;
  random_hex = λ n. ok (lit "c");
}

load-IsSecured_example :
    IsSecured settings × (credentials_match configured (lit "admin") [] ≡ false)
load-IsSecured_example =
    load-IsSecured no_file variables settings configured (lit "admin") loaded refl

parse_dot_env_value-quoted_example :
    parse_dot_env_value no_file (quoted (lit "a = b")) ≡ ok (lit "a = b")
parse_dot_env_value-quoted_example = parse_dot_env_value-quoted no_file (lit "a = b")
