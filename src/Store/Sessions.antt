-- ===== src/Store/Sessions.antt =====
-- internal/store/store.go: the sessions of the qBittorrent interface.
use tor_boxarr.Base.{
  ℤ, pos, Str, Bool, not, false, Option, none, some, [], ◌∷◌, ◌++◌, filter, any, find, length,
  if◌then◌else◌, lit, str_eq, text_le, ltb_ℤ,
}
use tor_boxarr.Model.{Time}
use tor_boxarr.World.{Env, QbitSession, M, pure, ◌>>=◌, ask, with_text}
use tor_boxarr.Torbox.Client.{ok, err, wrap, new_error}
use tor_boxarr.Store.Retry.{Statement, exec_write, query}

unfoldable pub insert_session : QbitSession → Statement (Unit {0})
insert_session s t =
    if any (λ row. str_eq row.sid s.sid) t.sessions
    then err (new_error (lit "constraint failed"))
    else ok (tt, record t { sessions = t.sessions ++ (s ∷ []) })

unfoldable pub create_qbit_session : Env → Str → Str → Time → M (Unit {0})
create_qbit_session e sid username expires_at = do
  now ← ask e.now
  with_text (wrap (lit "create qbit session")) (
      exec_write e (
        insert_session
          (record { sid = sid; username = username; expires_at = expires_at; created_at = now })))

-- `parsed.After(s.now())`, once a row is found.
unfoldable pub session_live : Env → Option QbitSession → M Bool
session_live e none = pure false
session_live e (some s) = ask e.now >>= λ now. pure (ltb_ℤ now s.expires_at)

unfoldable pub validate_qbit_session : Env → Str → M Bool
validate_qbit_session e sid =
    with_text (wrap (lit "query session"))
      (query e (λ t. find (λ row. str_eq row.sid sid) t.sessions))
    >>= session_live e

unfoldable pub delete_qbit_session : Env → Str → M (Unit {0})
delete_qbit_session e sid = with_text (wrap (lit "delete qbit session")) (
    exec_write e
      λ t. ok (tt, record t { sessions = filter (λ row. not (str_eq row.sid sid)) t.sessions }))

abbrev pub expired : Env → Time → QbitSession → Bool
expired e now s = text_le (e.format_time s.expires_at) (e.format_time now)

unfoldable pub prune_expired_qbit_sessions : Env → M ℤ
prune_expired_qbit_sessions e = do
  now ← ask e.now
  with_text (wrap (lit "prune qbit sessions")) (
      exec_write e λ t. ok (
        pos (length (filter (expired e now) t.sessions)),
        record t { sessions = filter (λ s. not (expired e now s)) t.sessions },
      ))
