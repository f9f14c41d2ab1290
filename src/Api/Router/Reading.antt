-- ===== src/Api/Router/Reading.antt =====
-- The handlers that change nothing.
use tor_boxarr.Api.Categories.{configs_with, qbit_categories, sab_category_configs}
use tor_boxarr.Api.Http.{
  Request, Response, Route, add_route, categories_route, checked, config_categories,
  create_category_route, default_save_path, delete_route, error_500, health, info_route,
  login_route, logout_route, or_answer, preferences, sab_api, transfer_route, version_route,
  web_api_version,
}
use tor_boxarr.Api.Library.{Server}
use tor_boxarr.Api.Progress.{
  needs_local_transfer_overlay, over_parts, overlay, with_local_transfer_progress,
}
use tor_boxarr.Api.Qbit.{
  handle_qbit_categories, handle_qbit_info, handle_qbit_transfer_info, visible_with_progress,
}
use tor_boxarr.Api.Router.{forbidden, handle_health, qbit_protected, require_method, serve}
use tor_boxarr.Api.Sab.{handle_sab_config_categories}
use tor_boxarr.Auth.Qbit.{admitted, middleware, valid_session}
use tor_boxarr.Base.{
  Bool, List, Option, Str, [], false, lit, none, not, pos, some, str_eq, true, ◌&&◌, ◌∷◌, ◌≡◌,
}
use tor_boxarr.Compat.Floats.{Floats}
use tor_boxarr.Model.{ClientKind, Job}
use tor_boxarr.Store.Jobs.{list_visible_client_jobs}
use tor_boxarr.Store.Parts.{list_transfer_parts}
use tor_boxarr.Store.Sessions.{session_live, validate_qbit_session}
use tor_boxarr.Torbox.Client.{Error, Result, err, ok}
use tor_boxarr.World.{Env, M, QbitSession, World}
use tor_boxarr.World.Reads.{
  IsUntouched, Reads, Reads-attempt, Reads-if, Reads-lift, Reads-pure, Reads-query,
  reads-IsUntouched,
}
use tor_boxarr.World.Triple.{Assertion, Triple-ask, Triple-bind, Triple-with_text}

-- A request at these patterns can change something.
abbrev pub is_writing : Route → Bool
is_writing login_route = true
is_writing logout_route = true
is_writing add_route = true
is_writing delete_route = true
is_writing create_category_route = true
is_writing sab_api = true
is_writing _ = false

module _ {P : Assertion} (fl : Floats) (s : Server) where
  pub checked-Reads :
      {A : Type 0} (refuse : Error → Response fl.Float) {call : M A}
      {next : A → M (Response fl.Float)}
      → Reads P call
      → ((a : A) → Reads P (next a))
      → Reads P (checked refuse call next)
  checked-Reads {A} refuse {call} {next} h k = Triple-bind (Reads-attempt h) go
    where
      go : (r : Result A) → Reads P (or_answer refuse next r)
      go (ok a) = k a
      go (err x) = Reads-pure (refuse x)

  visible-Reads :
      (kind : ClientKind) (category : Str)
      → Reads P (list_visible_client_jobs s.env kind category (pos 1000))
  unfolding list_visible_client_jobs
  visible-Reads kind category = Reads-query s.env _

  overlay-Reads : (job : Job) → Reads P (overlay s.env job)
  unfolding overlay list_transfer_parts
  overlay-Reads job =
      Reads-if (not (needs_local_transfer_overlay job.state)) (λ _. Reads-pure job)
        λ _. Triple-bind (Reads-query s.env _) λ parts. Reads-pure (over_parts job parts)

  progress-Reads : (jobs : List Job) → Reads P (with_local_transfer_progress s.env jobs)
  unfolding with_local_transfer_progress
  progress-Reads [] = Reads-pure []
  progress-Reads (job ∷ jobs) =
      Triple-bind (overlay-Reads job)
        λ shown. Triple-bind (progress-Reads jobs) λ rest. Reads-pure (shown ∷ rest)

  pub visible_with_progress-Reads :
      (kind : ClientKind) (category : Str) → Reads P (visible_with_progress fl s kind category)
  unfolding visible_with_progress
  visible_with_progress-Reads kind category =
      Triple-bind (visible-Reads kind category) progress-Reads

  qbit_categories-Reads : Reads P (qbit_categories s)
  unfolding qbit_categories
  qbit_categories-Reads = Triple-bind (Triple-ask _) λ found.
      Triple-bind (Reads-lift _) λ entries. Triple-bind (visible-Reads _ _) λ jobs. Reads-pure _

  pub sab_category_configs-Reads : Reads P (sab_category_configs s)
  unfolding sab_category_configs
  sab_category_configs-Reads = Triple-bind (Reads-attempt (visible-Reads _ _)) go
    where
      go : (r : Result (List Job)) → Reads P (configs_with s r)
      go (ok jobs) = Triple-bind (Triple-ask _) λ found. Reads-pure _
      go (err x) = Reads-pure _

  pub require_method-Reads :
      (method : Str) (r : Request) {next : M (Response fl.Float)}
      → Reads P next
      → Reads P (require_method fl s method r next)
  unfolding require_method
  require_method-Reads method r h =
      Reads-if (not (str_eq r.method method)) (λ _. Reads-pure _) λ _. h

  session_live-Reads : (e : Env) (row : Option QbitSession) → Reads P (session_live e row)
  unfolding session_live
  session_live-Reads e none = Reads-pure false
  session_live-Reads e (some row) = Triple-bind (Triple-ask _) λ now. Reads-pure _

  pub valid_session-Reads : (sid : Str) → Reads P (valid_session s.env sid)
  unfolding valid_session validate_qbit_session
  valid_session-Reads sid =
      Triple-bind (Triple-with_text _ (Reads-query s.env _)) (session_live-Reads s.env)

  pub qbit_protected-Reads :
      (r : Request) {next : M (Response fl.Float)}
      → Reads P next
      → Reads P (qbit_protected fl s r next)
  unfolding qbit_protected middleware
  qbit_protected-Reads r {next} h = go r.cookie
    where
      go : (cookie : Option Str) → Reads P (middleware s.env cookie (forbidden fl s) next)
      go none = Reads-pure _
      go (some []) = Reads-pure _
      go (some (c ∷ sid)) =
          Triple-bind (Reads-attempt (valid_session-Reads (c ∷ sid)))
            λ r. Reads-if (admitted r) (λ _. h) λ _. Reads-pure _

  behind :
      (r : Request) {next : M (Response fl.Float)}
      → Reads P next
      → Reads P (require_method fl s (lit "GET") r (qbit_protected fl s r next))
  behind r h = require_method-Reads (lit "GET") r (qbit_protected-Reads r h)

  pub serve-Reads :
      (r : Request) (route : Route) → is_writing route ≡ false → Reads P (serve fl s r route)
  unfolding serve handle_health handle_qbit_info handle_qbit_categories handle_qbit_transfer_info
      handle_sab_config_categories
  serve-Reads r health h = require_method-Reads _ r (Triple-bind (Triple-ask _) λ now. Reads-pure _)
  serve-Reads r version_route h = behind r (Reads-pure _)
  serve-Reads r web_api_version h = behind r (Reads-pure _)
  serve-Reads r preferences h = behind r (Reads-pure _)
  serve-Reads r default_save_path h = behind r (Reads-pure _)
  serve-Reads r info_route h =
      behind r (checked-Reads error_500 (visible_with_progress-Reads _ _) λ jobs. Reads-pure _)
  serve-Reads r categories_route h =
      behind r (checked-Reads error_500 qbit_categories-Reads λ payload. Reads-pure _)
  serve-Reads r transfer_route h =
      behind r (checked-Reads error_500 (visible_with_progress-Reads _ _) λ jobs. Reads-pure _)
  serve-Reads r config_categories h =
      Reads-if
        (not (str_eq r.path (lit "/config/categories"))
          && not (str_eq r.path (lit "/config/categories/")))
        (λ _. Reads-pure _)
        λ _.
          Reads-if (not (str_eq r.method (lit "GET"))) (λ _. Reads-pure _)
            λ _. Triple-bind sab_category_configs-Reads λ categories. Reads-pure _
  serve-Reads r login_route h = cc
  serve-Reads r logout_route h = cc
  serve-Reads r add_route h = cc
  serve-Reads r delete_route h = cc
  serve-Reads r create_category_route h = cc
  serve-Reads r sab_api h = cc

-- A request at a pattern that is not one to log in or out, to add or delete torrents, to create a
-- category or to call the SABnzbd API leaves all tables as they are and makes no call that changes
-- something outside, whoever sends it and whatever fails.
pub serve-reading :
    (fl : Floats) (s : Server) (r : Request) (route : Route) (w : World)
    → is_writing route ≡ false
    → IsUntouched w (serve fl s r route w).1
serve-reading fl s r route w h =
    reads-IsUntouched (serve fl s r route) w (serve-Reads fl s r route h)
