-- ===== src/Store/Retry.antt =====
-- internal/store/store.go: `retrySQLiteBusy`, `sleepContext`, `isSQLiteBusy` and `execWrite`.
use tor_boxarr.Base.{
  ℕ, zero, suc, ◌+◌, ◌-◌, ◌%◌, pos, Bool, false, not, ◌||◌, Option, none, some, ltb, leb, ◌==◌,
  if◌then◌else◌, lit, to_lower, contains,
}
use tor_boxarr.World.{
  Env, Tables, M, pure, fail, ◌>>=◌, ◌>>◌, attempt, lift, fault, ask, emit, slept,
}
use tor_boxarr.Torbox.Client.{Error, Result, ok, err, new_error}

-- In nanoseconds.
abbrev pub retry_base_delay : ℕ
retry_base_delay = 25_000_000

abbrev pub retry_max_delay : ℕ
retry_max_delay = 250_000_000

abbrev pub retry_attempts : ℕ
retry_attempts = 6

abbrev pub busy_code : Option ℕ → Bool
busy_code none = false
busy_code (some c) = c % 256 == 5 || c % 256 == 6

unfoldable pub is_sqlite_busy : Error → Bool
is_sqlite_busy e =
    busy_code e.sqlite_code
    || contains (to_lower e.message) (lit "sqlite_busy")
    || contains (to_lower e.message) (lit "sqlite_locked")
    || contains (to_lower e.message) (lit "database is locked")
    || contains (to_lower e.message) (lit "database table is locked")

unfoldable pub sleep_context : Env → ℕ → M (Unit {0})
sleep_context e delay = do emit (slept (pos delay)); f ← ask e.sleep_fault; lift (fault f)

unfoldable pub next_delay : ℕ → ℕ
next_delay d =
    if ltb d retry_max_delay
    then if ltb retry_max_delay (d + d) then retry_max_delay else d + d
    else d

-- What the loop does with the outcome of an attempt; `again` is the rest of the loop.
unfoldable pub settle : {A : Type 0} → Env → ℕ → ℕ → (ℕ → M A) → Result A → M A
settle e n delay again (ok a) = pure a
settle e n delay again (err x) =
    if not (is_sqlite_busy x) || leb (retry_attempts - 1) n
    then fail x
    else sleep_context e delay >> again (next_delay delay)

unfoldable pub out_of_fuel : Error
out_of_fuel = new_error (lit "out of fuel")

unfoldable pub retry_loop : {A : Type 0} → Env → ℕ → ℕ → ℕ → M A → M A
retry_loop e zero n delay fn = fail out_of_fuel
retry_loop e (suc fuel) n delay fn =
    attempt fn >>= settle e n delay (λ d. retry_loop e fuel (n + 1) d fn)

unfoldable pub retry_sqlite_busy : {A : Type 0} → Env → M A → M A
retry_sqlite_busy e fn = retry_loop e retry_attempts 0 retry_base_delay fn

-- A statement changes the tables, or is refused by a constraint and changes nothing.
abbrev pub Statement : Type 0 → Type 0
Statement A = Tables → Result (A × Tables)

abbrev pub applied : {A : Type 0} → Result (A × Tables) → M A
applied (ok (a, t)) w = (ok a, record w { db = t })
applied (err x) w = (err x, w)

abbrev pub unless_fault : {A : Type 0} → Option Error → M A → M A
unless_fault none m = m
unless_fault (some x) m = fail x

unfoldable pub exec_once : {A : Type 0} → Env → Statement A → M A
exec_once e stmt = ask e.exec_fault >>= λ f. unless_fault f (λ w. applied (stmt w.db) w)

unfoldable pub exec_write : {A : Type 0} → Env → Statement A → M A
exec_write e stmt = retry_sqlite_busy e (exec_once e stmt)

-- A query reads the tables.
unfoldable pub query : {A : Type 0} → Env → (Tables → A) → M A
query e read = ask e.query_fault >>= λ f. unless_fault f (λ w. (ok (read w.db), w))
