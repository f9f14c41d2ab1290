-- ===== src/Config.antt =====
-- internal/config/config.go: the configuration and where it comes from.
pub mod Dotenv
pub mod Secrets
use mathlib.Core.List.{reverse}
use tor_boxarr.Api.Library.{Compatibility}
use tor_boxarr.Api.Sab.{field}
use tor_boxarr.Base.{
  Bool, List, Option, Str, [], has_prefix, if◌then◌else◌, is_empty, lit, none, pos, some, str_eq,
  trim_space, ℕ, ℤ, ◌&&◌, ◌*◌, ◌++◌, ◌∷◌,
}
use tor_boxarr.Model.{Duration}
use tor_boxarr.Paths.{join}
use tor_boxarr.Torbox.Client.{Error, new_error}

pub record Config : Type 0 where
  pub server_address : Str
  pub server_base_url : Str
  pub logging_level : Str
  pub database_path : Str
  pub busy_timeout : Duration
  pub root : Str
  pub staging : Str
  pub completed_dir : Str
  pub payloads : Str
  pub torbox_base_url : Str
  pub api_token : Str
  pub request_timeout : Duration
  pub download_timeout : Duration
  pub create_per_hour : ℤ
  pub poll_per_minute : ℤ
  pub download_link_per_minute : ℤ
  pub user_agent : Str
  pub qbit_username : Str
  pub qbit_password : Str
  pub sab_api_key : Str
  pub sab_nzb_key : Str
  pub session_ttl : Duration
  pub compatibility : Compatibility
  pub submit_interval : Duration
  pub poll_interval : Duration
  pub download_interval : Duration
  pub finalize_interval : Duration
  pub remove_interval : Duration
  pub prune_interval : Duration
  pub submit_retry_min : Duration
  pub submit_retry_max : Duration
  pub removed_retention : Duration
  pub batch_size : ℤ

abbrev pub seconds : ℕ → Duration
seconds n = pos (n * 1000000000)

abbrev pub or_value : Str → Str → Str
or_value v fallback = if is_empty (trim_space v) then fallback else v

abbrev pub trimmed_or : Str → Str → Str
trimmed_or v fallback = if is_empty (trim_space v) then fallback else trim_space v

abbrev pub default_data_root : Str
default_data_root = lit "/data"

abbrev pub default_database_path : Str
default_database_path = lit "/config/torboxarr.db"

abbrev pub default_qbit_user : Str
default_qbit_user = lit "admin"

unfoldable pub apply_derived : Config → Config
apply_derived c =
    let root = trimmed_or c.root default_data_root in
    record c {
      root = root;
      database_path = trimmed_or c.database_path default_database_path;
      staging = join (root ∷ lit "staging" ∷ []);
      completed_dir = join (root ∷ lit "completed" ∷ []);
      payloads = join (root ∷ lit "payloads" ∷ []);
      qbit_username = or_value c.qbit_username default_qbit_user;
      sab_nzb_key = or_value c.sab_nzb_key c.sab_api_key;
    }

unfoldable pub default_config : Config
default_config = apply_derived (record {
  server_address = lit ":8085";
  server_base_url = lit "http://localhost:8085";
  logging_level = lit "INFO";
  database_path = default_database_path;
  busy_timeout = seconds 5;
  root = default_data_root;
  staging = [];
  completed_dir = [];
  payloads = [];
  torbox_base_url = lit "https://api.torbox.app/v1";
  api_token = [];
  request_timeout = seconds 45;
  download_timeout = pos 0;
  create_per_hour = pos 60;
  poll_per_minute = pos 300;
  download_link_per_minute = pos 300;
  user_agent = lit "torboxarr/1.0";
  qbit_username = default_qbit_user;
  qbit_password = [];
  sab_api_key = [];
  sab_nzb_key = [];
  session_ttl = seconds 86400;
  compatibility = record {
    qbit_version = lit "5.0.0";
    qbit_web_api = lit "2.11.3";
    sab_version = lit "4.5.1";
    default_category = lit "torboxarr";
  };
  submit_interval = seconds 5;
  poll_interval = seconds 30;
  download_interval = seconds 5;
  finalize_interval = seconds 3;
  remove_interval = seconds 5;
  prune_interval = seconds 43200;
  submit_retry_min = seconds 15;
  submit_retry_max = seconds 900;
  removed_retention = seconds 2592000;
  batch_size = pos 25;
})

-- The environment of the process; `getenv` of a variable that is not set is empty.
abbrev pub Variables : Type 0
Variables = List (Str × Str)

unfoldable pub lookup_env : Variables → Str → Option Str
lookup_env [] key = none
lookup_env ((k, v) ∷ env) key = if str_eq k key then some v else lookup_env env key

abbrev pub or_empty : Option Str → Str
or_empty none = []
or_empty (some v) = v

abbrev pub set_string : Variables → Str → Str → Str
set_string env old key =
    if is_empty (trim_space (or_empty (lookup_env env key)))
    then old
    else trim_space (or_empty (lookup_env env key))

unfoldable pub apply_env : Variables → Config → Config
apply_env env c = record c {
  server_base_url = set_string env c.server_base_url (lit "TORBOXARR_SERVER_BASE_URL");
  logging_level = set_string env c.logging_level (lit "TORBOXARR_LOG_LEVEL");
  root = set_string env c.root (lit "TORBOXARR_DATA_ROOT");
  database_path = set_string env c.database_path (lit "TORBOXARR_DATABASE_PATH");
  api_token = set_string env c.api_token (lit "TORBOXARR_TORBOX_API_TOKEN");
  qbit_password = set_string env c.qbit_password (lit "TORBOXARR_QBIT_PASSWORD");
  sab_api_key = set_string env c.sab_api_key (lit "TORBOXARR_SAB_API_KEY");
  sab_nzb_key = set_string env c.sab_nzb_key (lit "TORBOXARR_SAB_NZB_KEY");
}

-- `${` at the start and `}` at the end.
unfoldable pub is_env_placeholder : Str → Bool
is_env_placeholder value = has_prefix value (lit "${") && has_prefix (reverse value) (lit "}")

unfoldable pub validate_secret : Str → Str → Option Error
validate_secret field value =
    if is_empty (trim_space value)
    then some (new_error (field ++ lit " is required"))
    else if is_env_placeholder (trim_space value)
    then some (new_error (field ++ lit " must be resolved before startup"))
    else none

abbrev pub required : Str → Str → Option Error
required [] message = some (new_error message)
required (c ∷ s) message = none

unfoldable pub first_fault : List (Option Error) → Option Error
first_fault [] = none
first_fault (none ∷ faults) = first_fault faults
first_fault (some x ∷ faults) = some x

unfoldable pub validate : Config → Option Error
validate c = first_fault (
    required c.server_address (lit "server.address is required")
    ∷ required c.server_base_url (lit "server.base_url is required")
    ∷ required c.database_path (lit "database.path is required")
    ∷ required c.root (lit "data.root is required")
    ∷ required c.staging (lit "data.staging is required")
    ∷ required c.completed_dir (lit "data.completed is required")
    ∷ required c.qbit_username (lit "auth.qbit_username is required")
    ∷ validate_secret (lit "torbox.api_token") c.api_token
    ∷ validate_secret (lit "auth.qbit_password") c.qbit_password
    ∷ validate_secret (lit "auth.sab_api_key") c.sab_api_key
    ∷ validate_secret (lit "auth.sab_nzb_key") c.sab_nzb_key
    ∷ [])
