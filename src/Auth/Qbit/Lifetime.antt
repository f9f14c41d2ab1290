-- ===== src/Auth/Qbit/Lifetime.antt =====
-- A session lives from its login to its expiry or its logout.
use tor_boxarr.Api.Router.{forbidden}
use tor_boxarr.Auth.Qbit.{
  SessionManager, admitted, credentials_match, login, logout, middleware, valid_session,
}
use tor_boxarr.Base.{
  Bool, Bool-cases, List, Option-cases, Str, [], any, false, filter, find, inl, inr, ltb_ℤ, none,
  not, or_parts, refl, some, str_eq, str_eq_refl, subst, suc, sym, true, ℕ, ◌++◌, ◌+ℤ◌, ◌∷◌, ◌≡◌,
}
use tor_boxarr.Model.{Time}
use tor_boxarr.Store.Retry.{query}
use tor_boxarr.Store.Rules.{Applied, Triple-exec_write}
use tor_boxarr.Store.Sessions.{
  create_qbit_session, delete_qbit_session, insert_session, session_live, validate_qbit_session,
}
use tor_boxarr.Torbox.Client.{ok}
use tor_boxarr.World.{
  Effect, Env, M, QbitSession, Tables, World, ask, attempt, fail, lift, pure, with_text, ◌>>=◌,
  ◌>>◌,
}
use tor_boxarr.World.Triple.{
  After, Anything, Triple, Triple-any, Triple-bind, Triple-pure, Triple-with_text, after_ok,
}

abbrev pub with_sid : Str → QbitSession → Bool
with_sid sid row = str_eq row.sid sid

abbrev pub IsSession : Str → Time → List QbitSession → Type 0
IsSession sid expires_at rows =
    (row : QbitSession) × (find (with_sid sid) rows ≡ some row) × (row.expires_at ≡ expires_at)

find-append :
    (s : QbitSession) (rows : List QbitSession)
    → any (with_sid s.sid) rows ≡ false
    → find (with_sid s.sid) (rows ++ (s ∷ [])) ≡ some s
find-append s [] h = rw (str_eq_refl s.sid)
find-append s (row ∷ rows) h =
    let (other, rest) = or_parts (str_eq row.sid s.sid) _ h in rw other (find-append s rows rest)

insert-IsSession :
    (s : QbitSession) (t : Tables) (l : List Effect)
    → Applied (λ _ t l. IsSession s.sid s.expires_at t.sessions) Anything t (insert_session s t) l
unfolding insert_session
insert-IsSession s t l = elim (Bool-cases (any (λ row. str_eq row.sid s.sid) t.sessions)) [
  | inl taken ↦ rw taken tt
  | inr fits ↦ rw fits (s, find-append s t.sessions fits, refl)
]

create-IsSession :
    (e : Env) (sid username : Str) (expires_at : Time)
    → Triple Anything
        (create_qbit_session e sid username expires_at)
        (λ _ t l. IsSession sid expires_at t.sessions)
        Anything
unfolding create_qbit_session
create-IsSession e sid username expires_at = Triple-bind {Q = λ _. Anything} (Triple-any _) λ now.
    Triple-with_text _
      (Triple-exec_write e _ (λ t l d h. h) (λ t l h. h) (λ t l h. insert-IsSession _ t l))

-- The rest of a login with good credentials and good random bytes.
opened : Env → SessionManager → Str → Str → Time → M Str
opened e m username sid now = create_qbit_session e sid username (now +ℤ m.ttl) >> pure sid

record Opened (sid : Str) (expires_at : Time) (got : Str) (t : Tables) (l : List Effect)
    : Type 0 where
  fact : got ≡ sid
  state : IsSession sid expires_at t.sessions

opened-IsSession :
    (e : Env) (m : SessionManager) (username sid : Str) (now : Time)
    → Triple Anything (opened e m username sid now) (Opened sid (now +ℤ m.ttl)) Anything
unfolding opened
opened-IsSession e m username sid now =
    Triple-bind (create-IsSession e sid username _)
      λ _. Triple-pure sid (λ t l h. record { fact = refl; state = h })

login_opens :
    (e : Env) (m : SessionManager) (username password sid : Str) (w : World)
    → credentials_match m username password ≡ true
    → m.random_hex w.tick ≡ ok sid
    → login e m username password w
      ≡ opened e m username sid (e.now (suc w.tick)) (record w { tick = suc (suc w.tick) })
unfolding login opened ◌>>=◌ ask lift
login_opens e m username password sid w good drawn = rw (good, drawn)

valid_session-found :
    (e : Env) (sid : Str) (expires_at : Time) (w : World)
    → e.query_fault w.tick ≡ none
    → IsSession sid expires_at w.sessions
    → (valid_session e sid w).0 ≡ ok (ltb_ℤ (e.now (suc w.tick)) expires_at)
unfolding valid_session validate_qbit_session session_live query with_text ◌>>=◌ ask pure
valid_session-found e sid expires_at w calm (row, found, expiry) = rw (calm, found, expiry)

-- A login with the configured credentials stores a session under the random text it drew, which
-- expires at the clock of the login plus the time to live. In whatever later world the table still has
-- that session under that text, a check finds it valid exactly if the clock shows less than this, if
-- the read of the table does not fail.
pub login-valid :
    (e : Env) (m : SessionManager) (username password drawn sid : Str) (w later : World)
    → credentials_match m username password ≡ true
    → m.random_hex w.tick ≡ ok drawn
    → (login e m username password w).0 ≡ ok sid
    → IsSession sid (e.now (suc w.tick) +ℤ m.ttl) later.sessions
    → e.query_fault later.tick ≡ none
    → (sid ≡ drawn)
      × (IsSession sid (e.now (suc w.tick) +ℤ m.ttl) (login e m username password w).1.sessions)
      × ((valid_session e sid later).0
          ≡ ok (ltb_ℤ (e.now (suc later.tick)) (e.now (suc w.tick) +ℤ m.ttl)))
login-valid e m username password drawn sid w later good random result there calm =
    let w' = (login e m username password w).1 in
    let same = login_opens e m username password drawn w good random in
    let after =
      after_ok (Opened drawn (e.now (suc w.tick) +ℤ m.ttl)) (login e m username password w).0 w' sid
        result
        (subst (λ r. After (Opened drawn (e.now (suc w.tick) +ℤ m.ttl)) Anything r.0 r.1) (sym same)
          ((opened-IsSession e m username drawn (e.now (suc w.tick))).run
            (record w { tick = suc (suc w.tick) }) tt)) in
    (after.fact, rw (after.fact) (after.state), valid_session-found e sid _ later calm there)

find-delete :
    (sid : Str) (rows : List QbitSession)
    → find (with_sid sid) (filter (λ row. not (str_eq row.sid sid)) rows) ≡ none
find-delete sid [] = refl
find-delete sid (row ∷ rows) = elim (Bool-cases (str_eq row.sid sid)) [
  | inl gone ↦ rw gone (find-delete sid rows)
  | inr stays ↦ rw (stays, stays) (find-delete sid rows)
]

logout-Triple :
    (e : Env) (sid : Str)
    → Triple Anything (logout e sid) (λ _ t l. find (with_sid sid) t.sessions ≡ none) Anything
unfolding logout delete_qbit_session
logout-Triple e sid =
    Triple-with_text _
      (Triple-exec_write e _ (λ t l d h. h) (λ t l h. h) (λ t l h. find-delete sid t.sessions))

not_admitted :
    {R : Type 0} (e : Env) (c : ℕ) (sid : Str) (forbidden : R) (next : M R) (w : World)
    → admitted (valid_session e (c ∷ sid) w).0 ≡ false
    → (middleware e (some (c ∷ sid)) forbidden next w).0 ≡ ok forbidden
unfolding middleware ◌>>=◌ attempt pure
not_admitted e c sid forbidden next w h = rw h

pub missing_refused :
    (e : Env) (sid : Str) (w : World)
    → find (with_sid sid) w.sessions ≡ none
    → admitted (valid_session e sid w).0 ≡ false
unfolding valid_session validate_qbit_session session_live query with_text ◌>>=◌ ask pure fail
missing_refused e sid w gone = elim (Option-cases (e.query_fault w.tick)) [
  | inl calm ↦ rw (calm, gone)
  | inr (x, broken) ↦ rw broken
]

-- After a logout that succeeded the session is not valid any more, and a request that shows its cookie
-- is answered as forbidden, whatever handler stands behind the check, and whether or not the read of
-- the table fails.
pub logout-forbids :
    {R : Type 0} (e : Env) (c : ℕ) (sid : Str) (forbidden : R) (next : M R) (w : World)
    → (logout e (c ∷ sid) w).0 ≡ ok tt
    → let w' = (logout e (c ∷ sid) w).1 in
      (find (with_sid (c ∷ sid)) w'.sessions ≡ none)
      × ((middleware e (some (c ∷ sid)) forbidden next w').0 ≡ ok forbidden)
logout-forbids e c sid forbidden next w result =
    let w' = (logout e (c ∷ sid) w).1 in
    let gone =
      after_ok (λ _ t l. find (with_sid (c ∷ sid)) t.sessions ≡ none) (logout e (c ∷ sid) w).0 w' tt
        result ((logout-Triple e (c ∷ sid)).run w tt) in
    (gone, not_admitted e c sid forbidden next w' (missing_refused e (c ∷ sid) w' gone))
