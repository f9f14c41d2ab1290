-- ===== src/Auth/Qbit.antt =====
-- internal/auth/qbit.go: sessions of the qBittorrent interface. A cookie is its value, if it is sent.
pub mod Lifetime
use tor_boxarr.Base.{
  Bool, Option, Str, [], false, if◌then◌else◌, lit, none, not, some, str_eq, ℕ, ◌&&◌, ◌+ℤ◌, ◌∷◌,
}
use tor_boxarr.Model.{Duration}
use tor_boxarr.Store.Sessions.{create_qbit_session, delete_qbit_session, validate_qbit_session}
use tor_boxarr.Torbox.Client.{Result, err, new_error, ok}
use tor_boxarr.World.{Env, M, ask, attempt, fail, lift, pure, ◌>>=◌, ◌>>◌}

pub record SessionManager : Type 0 where
  pub username : Str
  pub password : Str
  pub ttl : Duration
  -- `util.RandomHex(16)`, of internal/util/crypto.go: the bytes come from crypto/rand.
  pub random_hex : ℕ → Result Str

abbrev pub credentials_match : SessionManager → Str → Str → Bool
credentials_match m username password = str_eq username m.username && str_eq password m.password

unfoldable pub login : Env → SessionManager → Str → Str → M Str
login e m username password =
    if not (credentials_match m username password)
    then fail (new_error (lit "invalid credentials"))
    else (do
      drawn ← ask m.random_hex
      sid ← lift drawn
      now ← ask e.now
      create_qbit_session e sid username (now +ℤ m.ttl)
      pure sid)

unfoldable pub logout : Env → Str → M (Unit {0})
logout e sid = delete_qbit_session e sid

unfoldable pub valid_session : Env → Str → M Bool
valid_session e sid = validate_qbit_session e sid

abbrev pub admitted : Result Bool → Bool
admitted (ok b) = b
admitted (err x) = false

-- `Middleware`: `next` runs only for a live session; `forbidden` is the answer otherwise.
unfoldable pub middleware : {R : Type 0} → Env → Option Str → R → M R → M R
middleware e none forbidden next = pure forbidden
middleware e (some []) forbidden next = pure forbidden
middleware e (some (c ∷ sid)) forbidden next =
    attempt (valid_session e (c ∷ sid)) >>= λ r. if admitted r then next else pure forbidden
