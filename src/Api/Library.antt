-- ===== src/Api/Library.antt =====
-- What internal/api uses of packages that are not in the repository: net/url, crypto/sha1,
-- encoding/hex, encoding/base32, fmt and html. Also the fields of `Server` and of the configuration.
use tor_boxarr.Auth.Qbit.{SessionManager}
use tor_boxarr.Auth.Sab.{SabAuth}
use tor_boxarr.Base.{List, Option, Str, ℤ}
use tor_boxarr.Files.Layout.{Layout}
use tor_boxarr.World.{Env}

-- A parsed URL: what the program reads or sets of it, and the rest.
pub record Url : Type 0 where
  pub scheme : Str
  pub fragment : Str
  pub raw_query : Str
  pub rest : Str

pub record Library : Type 0 where
  -- `url.Parse`, `u.Query`, `Values.Encode` of the pairs in the order they were added, `u.String`.
  pub parse_url : Str → Option Url
  pub query_of : Str → List (Str × List Str)
  pub encode : List (Str × Str) → Str
  pub url_text : Url → Str
  pub sha1_hex : Str → Str
  pub hex_decode : Str → Option Str
  pub hex_encode : Str → Str
  pub base32_decode : Str → Option Str
  -- `Sscanf` with `%d`.
  pub scan_int : Str → Option ℤ

pub record Compatibility : Type 0 where
  pub qbit_version : Str
  pub qbit_web_api : Str
  pub sab_version : Str
  pub default_category : Str

pub record Server : Type 0 where
  pub env : Env
  pub layout : Layout
  pub base_url : Str
  pub staging_dir : Str
  pub completed_dir : Str
  pub compatibility : Compatibility
  pub qbit_auth : SessionManager
  pub sab_auth : SabAuth
  pub library : Library
