-- ===== src/Api/Router.antt =====
-- internal/api/router.go and sab.go: which handler answers a request, behind which checks.
pub mod Guard
pub mod Reading
use tor_boxarr.Api.Http.{
  Request, Response, Route, add_route, auth_json, categories_route, config_categories,
  create_category_route, default_save_path, delete_route, error_json, error_text, health,
  health_json, info_route, login_route, logout_route, plain, plain_text, preferences, sab_api,
  save_path_json, scripts, transfer_route, version_json, version_route, web_api_version,
}
use tor_boxarr.Api.Library.{Server}
use tor_boxarr.Api.Qbit.{
  handle_qbit_add, handle_qbit_categories, handle_qbit_create_category, handle_qbit_delete,
  handle_qbit_info, handle_qbit_login, handle_qbit_logout, handle_qbit_transfer_info,
}
use tor_boxarr.Api.Sab.{
  Reply, field, handle_sab_add_file, handle_sab_add_url, handle_sab_config_categories,
  handle_sab_delete, handle_sab_get_cats, handle_sab_get_config, handle_sab_history,
  handle_sab_queue, handle_sab_set_config, is_multipart, key_given, lower_field, mode_of,
}
use tor_boxarr.Auth.Qbit.{middleware}
use tor_boxarr.Auth.Sab.{allow}
use tor_boxarr.Base.{
  Bool, Option, Str, [], any, if◌then◌else◌, is_some, lit, none, not, some, str_eq, ◌∷◌,
}
use tor_boxarr.Compat.Floats.{Floats}
use tor_boxarr.World.{ask, pure, ◌>>=◌}

module _ (fl : Floats) (s : Server) where
  abbrev pub method_not_allowed : Response fl.Float
  method_not_allowed = plain 405 (error_text (lit "Method Not Allowed"))

  abbrev pub forbidden : Response fl.Float
  forbidden = plain 403 (error_text (lit "Forbidden"))

  abbrev pub key_incorrect : Response fl.Float
  key_incorrect = plain 403 (error_json (lit "API Key Incorrect"))

  unfoldable pub require_method : Str → Request → Reply fl s → Reply fl s
  require_method method r next =
      if not (str_eq r.method method) then pure method_not_allowed else next

  abbrev pub get_only : Request → Reply fl s → Reply fl s
  get_only = require_method (lit "GET")

  abbrev pub post_only : Request → Reply fl s → Reply fl s
  post_only = require_method (lit "POST")

  unfoldable pub qbit_protected : Request → Reply fl s → Reply fl s
  qbit_protected r next = middleware s.env r.cookie forbidden next

  abbrev pub with_name : Request → Reply fl s → Reply fl s
  with_name r otherwise =
      if str_eq (lower_field (field r (lit "name" ∷ []))) (lit "delete")
      then handle_sab_delete fl s r
      else otherwise

  -- The second switch of `handleSABAPI`.
  unfoldable pub dispatch_mode : Request → Str → Reply fl s
  dispatch_mode r mode =
      if str_eq mode (lit "version")
      then pure (plain 200 (version_json s.compatibility.sab_version))
      else if str_eq mode (lit "auth")
      then pure (plain 200 auth_json)
      else if str_eq mode (lit "get_config")
      then handle_sab_get_config fl s
      else if str_eq mode (lit "get_cats")
      then handle_sab_get_cats fl s
      else if str_eq mode (lit "get_scripts")
      then pure (plain 200 scripts)
      else if str_eq mode (lit "set_config")
      then handle_sab_set_config fl s r
      else if str_eq mode (lit "addurl")
      then handle_sab_add_url fl s r
      else if str_eq mode (lit "addfile")
      then handle_sab_add_file fl s r
      else if str_eq mode (lit "queue")
      then with_name r (handle_sab_queue fl s r)
      else if str_eq mode (lit "history")
      then with_name r (handle_sab_history fl s r)
      else pure (plain 400 (error_json (lit "unsupported mode")))

  abbrev pub reads_body : Str → Bool
  reads_body mode =
      any (str_eq mode)
        (lit "addurl" ∷ lit "addfile" ∷ lit "queue" ∷ lit "history" ∷ lit "set_config" ∷ [])

  abbrev pub body_refused : Request → Str → Option Str
  body_refused r mode =
      if not (reads_body mode)
      then none
      else if is_multipart r
      then (if is_some r.multipart_error then some (lit "invalid multipart body") else none)
      else if is_some r.form_error
      then some (lit "invalid form body")
      else none

  abbrev pub with_body : Request → Str → Option Str → Reply fl s
  with_body r mode none = dispatch_mode r mode
  with_body r mode (some why) = pure (plain 400 (error_json why))

  unfoldable pub handle_sab_api : Request → Reply fl s
  handle_sab_api r =
      if not (allow s.sab_auth (mode_of r) (key_given r))
      then pure key_incorrect
      else with_body r (mode_of r) (body_refused r (mode_of r))

  unfoldable pub handle_health : Reply fl s
  handle_health = ask s.env.now >>= λ now. pure (plain 200 (health_json now))

  -- `Router`, for the pattern that the request matches.
  unfoldable pub serve : Request → Route → Reply fl s
  serve r health = get_only r handle_health
  serve r login_route = post_only r (handle_qbit_login fl s r)
  serve r logout_route = post_only r (handle_qbit_logout fl s r)
  serve r version_route =
      get_only r (qbit_protected r (pure (plain 200 (plain_text s.compatibility.qbit_version))))
  serve r web_api_version =
      get_only r (qbit_protected r (pure (plain 200 (plain_text s.compatibility.qbit_web_api))))
  serve r preferences =
      get_only r (qbit_protected r (pure (plain 200 (save_path_json s.completed_dir))))
  serve r default_save_path =
      get_only r (qbit_protected r (pure (plain 200 (plain_text s.completed_dir))))
  serve r add_route = post_only r (qbit_protected r (handle_qbit_add fl s r))
  serve r info_route = get_only r (qbit_protected r (handle_qbit_info fl s r))
  serve r delete_route = post_only r (qbit_protected r (handle_qbit_delete fl s r))
  serve r categories_route = get_only r (qbit_protected r (handle_qbit_categories fl s r))
  serve r create_category_route =
      post_only r (qbit_protected r (handle_qbit_create_category fl s r))
  serve r transfer_route = get_only r (qbit_protected r (handle_qbit_transfer_info fl s r))
  serve r sab_api = handle_sab_api r
  serve r config_categories = handle_sab_config_categories fl s r
