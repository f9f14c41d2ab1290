-- ===== src/Api/Http.antt =====
-- What the handlers of internal/api read of an `http.Request` and what they answer. The answers of
-- net/http (how a body is parsed, which pattern a path matches) are fields of the request.
use tor_boxarr.Api.Source.{first_value, values_of}
use tor_boxarr.Base.{List, Option, Str, none, ℕ}
use tor_boxarr.Compat.Qbit.{QbitCategory, QbitTorrentInfo, QbitTransferInfo}
use tor_boxarr.Compat.Sab.{SabHistory, SabQueue}
use tor_boxarr.Files.Payload.{Upload}
use tor_boxarr.Model.{Time}
use tor_boxarr.Torbox.Client.{Error, Result, err, ok}
use tor_boxarr.World.{M, attempt, pure, ◌>>=◌}

-- A pattern of `Router` in internal/api/router.go.
pub data Route : Type 0 where
  health login_route logout_route version_route web_api_version preferences : Route
  default_save_path add_route info_route delete_route categories_route : Route
  create_category_route transfer_route sab_api config_categories : Route

pub record Request : Type 0 where
  pub method : Str
  pub path : Str
  pub route : Route
  pub content_type : Str
  -- `mime.ParseMediaType` of it.
  pub media_type : Str
  -- The cookie of the session, if it is sent.
  pub cookie : Option Str
  -- `r.URL.Query()`, `r.PostForm` and `r.Form` after parsing; the errors of `ParseForm` and of
  -- `ParseMultipartForm`; the files of a multipart body.
  pub query : List (Str × List Str)
  pub post_form : List (Str × List Str)
  pub form : List (Str × List Str)
  pub form_error : Option Error
  pub multipart_error : Option Error
  pub files : List (Str × List Upload)

-- `Values.Get`.
abbrev pub get : List (Str × List Str) → Str → Str
get values key = first_value (values_of key values)

pub record SabCategory : Type 0 where
  pub name : Str
  pub dir : Str

-- A body: a text, or the value that `writeJSON` encodes.
pub data Body (Float : Type 0) : Type 0 where
  empty_body : Body Float
  plain_text : Str → Body Float
  error_text : Str → Body Float
  error_json : Str → Body Float
  not_added : Str → Body Float
  health_json : Time → Body Float
  save_path_json : Str → Body Float
  torrents : List (QbitTorrentInfo Float) → Body Float
  transfer : QbitTransferInfo → Body Float
  qbit_categories_json : List (Str × QbitCategory) → Body Float
  version_json : Str → Body Float
  auth_json : Body Float
  config_json : Str → Str → List SabCategory → Body Float
  category_names : List Str → Body Float
  scripts : Body Float
  added : List Str → Body Float
  queue_json : SabQueue → Body Float
  history_json : SabHistory → Body Float
  removed_ids : List Str → Body Float
  categories_page : List SabCategory → Body Float

-- The session that the cookie of an answer sets: none leaves the cookie alone, and an empty text
-- clears it.
pub record Response (Float : Type 0) : Type 0 where
  pub status : ℕ
  pub set_cookie : Option Str
  pub body : Body Float

module _ {Float : Type 0} where
  abbrev pub plain : ℕ → Body Float → Response Float
  plain status body = record { status = status; set_cookie = none; body = body }

  -- `http.Error(w, err.Error(), http.StatusInternalServerError)`, and the JSON of the same.
  abbrev pub error_500 : Error → Response Float
  error_500 x = plain 500 (error_text x.message)

  abbrev pub json_500 : Error → Response Float
  json_500 x = plain 500 (error_json x.message)

  -- A call, and the answer if it fails.
  abbrev pub or_answer :
      {A : Type 0}
      → (Error → Response Float)
      → (A → M (Response Float))
      → Result A
      → M (Response Float)
  or_answer refuse next (ok a) = next a
  or_answer refuse next (err x) = pure (refuse x)

  abbrev pub checked :
      {A : Type 0} → (Error → Response Float) → M A → (A → M (Response Float)) → M (Response Float)
  checked refuse call next = attempt call >>= or_answer refuse next
