-- ===== src/Api/Router/Guard.antt =====
-- What a request without valid credentials can do.
use tor_boxarr.Api.Http.{
  Body, Request, Response, Route, add_route, categories_route, config_categories,
  create_category_route, default_save_path, delete_route, error_text, health, info_route,
  login_route, logout_route, plain, preferences, sab_api, transfer_route, version_route,
  web_api_version,
}
use tor_boxarr.Api.Library.{Server}
use tor_boxarr.Api.Router.{forbidden, handle_sab_api, qbit_protected, require_method, serve}
use tor_boxarr.Api.Router.Reading.{valid_session-Reads}
use tor_boxarr.Api.Sab.{Reply, key_given, mode_of}
use tor_boxarr.Auth.Qbit.{admitted, middleware, valid_session}
use tor_boxarr.Auth.Qbit.Lifetime.{missing_refused, with_sid}
use tor_boxarr.Auth.Sab.{allow}
use tor_boxarr.Base.{
  Bool, Bool-cases, Option, Str, [], arith, false, find, inl, inr, lit, none, not, refl, some,
  str_eq, true, ℕ, ◌∷◌, ◌≡◌, ◌≤◌,
}
use tor_boxarr.Compat.Floats.{Floats}
use tor_boxarr.Torbox.Client.{Result, ok}
use tor_boxarr.World.{World, attempt, pure, ◌>>=◌}
use tor_boxarr.World.Reads.{IsUntouched, reads-IsUntouched}

-- The patterns that ask for a session or for a key.
abbrev pub guarded : Route → Bool
guarded health = false
guarded login_route = false
guarded logout_route = false
guarded config_categories = false
guarded _ = true

-- A cookie that names no session of the table.
abbrev pub IsStranger : Option Str → World → Type 0
IsStranger none w = Unit
IsStranger (some sid) w = find (with_sid sid) w.sessions ≡ none

-- The answer of a run is an error of the client, and the run changed nothing.
pub record IsRefused {Float : Type 0} (w : World) (run : Result (Response Float) × World)
    : Type 0 where
  pub status : ℕ
  pub body : Body Float
  pub answer : run.0 ≡ ok (plain status body)
  pub client_error : 400 ≤ status
  pub untouched : IsUntouched w run.1

module _ (fl : Floats) (s : Server) where
  plain-IsRefused :
      (status : ℕ) (body : Body fl.Float) (w : World)
      → 400 ≤ status
      → IsRefused w (pure (plain status body) w)
  unfolding pure
  plain-IsRefused status body w h = record {
    status = status;
    body = body;
    answer = refl;
    client_error = h;
    untouched = record { tables = refl; effects = refl };
  }

  not_admitted :
      (c : ℕ) (sid : Str) (next : Reply fl s) (w : World)
      → admitted (valid_session s.env (c ∷ sid) w).0 ≡ false
      → middleware s.env (some (c ∷ sid)) (forbidden fl s) next w
        ≡ (ok (forbidden fl s), (valid_session s.env (c ∷ sid) w).1)
  unfolding middleware ◌>>=◌ attempt pure
  not_admitted c sid next w h = rw h

  stranger-IsRefused :
      (cookie : Option Str) (next : Reply fl s) (w : World)
      → IsStranger cookie w
      → IsRefused w (middleware s.env cookie (forbidden fl s) next w)
  unfolding middleware
  stranger-IsRefused none next w h = plain-IsRefused 403 _ w (omega arith)
  stranger-IsRefused (some []) next w h = plain-IsRefused 403 _ w (omega arith)
  stranger-IsRefused (some (c ∷ sid)) next w h =
      rw (not_admitted c sid next w (missing_refused s.env (c ∷ sid) w h)) (record {
        status = 403;
        body = error_text (lit "Forbidden");
        answer = refl;
        client_error = omega arith;
        untouched =
            reads-IsUntouched (valid_session s.env (c ∷ sid)) w
              (valid_session-Reads fl s (c ∷ sid));
      })

  behind_session :
      (method : Str) (r : Request) (next : Reply fl s) (w : World)
      → IsStranger r.cookie w
      → IsRefused w (require_method fl s method r (qbit_protected fl s r next) w)
  unfolding require_method qbit_protected
  behind_session method r next w h = elim (Bool-cases (not (str_eq r.method method))) [
    | inl other ↦ rw other (plain-IsRefused 405 _ w (omega arith))
    | inr same ↦ rw same (stranger-IsRefused r.cookie next w h)
  ]

  without_key :
      (r : Request) (w : World)
      → allow s.sab_auth (mode_of r) (key_given r) ≡ false
      → IsRefused w (handle_sab_api fl s r w)
  unfolding handle_sab_api
  without_key r w h = rw h (plain-IsRefused 403 _ w (omega arith))

-- A request whose cookie names no session and whose mode and key the SABnzbd interface does not allow
-- is answered with an error of the client at every pattern but those for the health, to log in or out,
-- and for the page of categories; it changes no table, and nothing outside.
pub serve-guarded :
    (fl : Floats) (s : Server) (r : Request) (route : Route) (w : World)
    → IsStranger r.cookie w
    → allow s.sab_auth (mode_of r) (key_given r) ≡ false
    → guarded route ≡ true
    → IsRefused w (serve fl s r route w)
unfolding serve
serve-guarded fl s r version_route w h k g = behind_session fl s _ r _ w h
serve-guarded fl s r web_api_version w h k g = behind_session fl s _ r _ w h
serve-guarded fl s r preferences w h k g = behind_session fl s _ r _ w h
serve-guarded fl s r default_save_path w h k g = behind_session fl s _ r _ w h
serve-guarded fl s r add_route w h k g = behind_session fl s _ r _ w h
serve-guarded fl s r info_route w h k g = behind_session fl s _ r _ w h
serve-guarded fl s r delete_route w h k g = behind_session fl s _ r _ w h
serve-guarded fl s r categories_route w h k g = behind_session fl s _ r _ w h
serve-guarded fl s r create_category_route w h k g = behind_session fl s _ r _ w h
serve-guarded fl s r transfer_route w h k g = behind_session fl s _ r _ w h
serve-guarded fl s r sab_api w h k g = without_key fl s r w k
serve-guarded fl s r health w h k g = cc
serve-guarded fl s r login_route w h k g = cc
serve-guarded fl s r logout_route w h k g = cc
serve-guarded fl s r config_categories w h k g = cc
