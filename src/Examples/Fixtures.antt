-- ===== src/Examples/Fixtures.antt =====
-- A server, its libraries and a request.
use tor_boxarr.Api.Http.{Request, sab_api}
use tor_boxarr.Api.Library.{Library, Server}
use tor_boxarr.Auth.Qbit.{SessionManager}
use tor_boxarr.Base.{[], lit, ltb_ℤ, none, pos, ℤ}
use tor_boxarr.Compat.Floats.{Floats}
use tor_boxarr.Examples.Data.{fixed_env, fixed_layout}
use tor_boxarr.Torbox.Client.{ok}

abbrev pub toy_library : Library
toy_library = record {
  parse_url = λ s. none;
  query_of = λ s. [];
  encode = λ ps. [];
  url_text = λ u. [];
  sha1_hex = λ s. s;
  hex_decode = λ s. none;
  hex_encode = λ s. s;
  base32_decode = λ s. none;
  scan_int = λ s. none;
}

abbrev pub manager : SessionManager
manager = record {
  username = lit "u";
  password = lit "p";
  ttl = pos 100;
  random_hex = λ n. ok (lit "c");
}

abbrev pub server : Server
server = record {
  env = fixed_env;
  layout = fixed_layout;
  base_url = lit "http://h";
  staging_dir = lit "/data/s";
  completed_dir = lit "/data/c";
  compatibility = record {
    qbit_version = lit "v";
    qbit_web_api = lit "2";
    sab_version = lit "4";
    default_category = lit "tv";
  };
  qbit_auth = manager;
  sab_auth = record { api_key = lit "k"; nzb_key = lit "z" };
  library = toy_library;
}

-- Numbers as their whole part.
abbrev pub toy_floats : Floats
toy_floats = record {
  Float = ℤ;
  of_int = λ n. n;
  to_int = λ n. n;
  div = λ a b. pos 0;
  mul = λ a b. pos 0;
  less = ltb_ℤ;
  round = λ a. a;
  ceil = λ a. a;
  two_digits = λ a. [];
  seconds = λ a. a;
}

-- A request without credentials, as for one of the SABnzbd interface.
abbrev pub bare_request : Request
bare_request = record {
  method = lit "GET";
  path = lit "/api";
  route = sab_api;
  content_type = [];
  media_type = [];
  cookie = none;
  query = [];
  post_form = [];
  form = [];
  form_error = none;
  multipart_error = none;
  files = [];
}
