-- ===== src/World.antt =====
-- What the program runs in: the tables of the database, the numbered calls of everything that is not
-- code of the repository (clock, SQLite, remote service, file system, random numbers), and a log of
-- the calls that change the outside world. `M` is a function of the program that may fail.
pub mod Reads
pub mod Triple
use tor_boxarr.Base.{ℕ, suc, ℤ, Str, Bool, Option, none, some, List, [], ◌∷◌, ◌++◌}
use tor_boxarr.Model.{Time, Job, TransferPart, JobEvent}
use tor_boxarr.Torbox.Client.{
  Error, Result, ok, err, Client, CreateTorrentTaskRequest, CreateUsenetTaskRequest,
}

pub record QbitSession : Type 0 where
  pub sid : Str
  pub username : Str
  pub expires_at : Time
  pub created_at : Time

-- The tables of internal/store/migrations, oldest row first.
pub record Tables : Type 0 where
  pub jobs : List Job
  pub parts : List TransferPart
  pub next_part : ℤ
  pub events : List JobEvent
  pub next_event : ℤ
  pub sessions : List QbitSession

-- A chunk is what one `Read` of the response body returns.
pub record HttpResponse : Type 0 where
  pub status_code : ℕ
  pub content_length : ℤ
  pub content_range : Str
  pub etag : Str
  pub chunks : List ℕ
  -- How the body ends: none is `io.EOF`.
  pub read_error : Option Error

-- What is asked of the outside. A number is the number of the call.
pub record Env : Type 0 where
  pub now : ℕ → Time
  -- The text of a time, RFC 3339 with nanoseconds, as `formatTime` stores it.
  pub format_time : Time → Str
  -- Whether SQLite fails at this statement.
  pub exec_fault : ℕ → Option Error
  pub query_fault : ℕ → Option Error
  -- Whether the context ends while the program sleeps.
  pub sleep_fault : ℕ → Option Error
  -- `rand.Int64N`.
  pub random : ℕ → ℤ → ℤ
  pub client : Client
  pub mkdir_all : ℕ → Str → Option Error
  -- The size of the file at a path, if `os.Stat` finds it.
  pub stat : ℕ → Str → Result ℤ
  -- `os.IsNotExist` of the error of a `Stat`.
  pub is_not_exist : Error → Bool
  pub rename : ℕ → Str → Str → Option Error
  pub remove_all : ℕ → Str → Option Error
  -- The directories in a directory, and whether each is one.
  pub read_dir : ℕ → Str → Result (List (Str × Bool))
  pub open_file : ℕ → Str → Option Error
  pub write_file : ℕ → Str → Option Error
  pub http_get : ℕ → Str → Option ℤ → Result HttpResponse
  -- `%q` of `fmt`.
  pub quote : Str → Str
  pub html_unescape : Str → Str
  -- The working directory, for `filepath.Abs`.
  pub cwd : Str

-- The calls that change something outside, as they were made.
pub data Effect : Type 0 where
  created_torrent : CreateTorrentTaskRequest → Effect
  created_usenet : CreateUsenetTaskRequest → Effect
  made_dir : Str → Effect
  renamed : Str → Str → Effect
  removed_all : Str → Effect
  opened_append opened_truncate : Str → Effect
  written : Str → ℕ → Effect
  slept : ℤ → Effect

pub record World : Type 0 where
  pub db : Tables
  pub open db use *
  pub tick : ℕ
  pub log : List Effect

abbrev pub M : Type 0 → Type 0
M A = World → Result A × World

unfoldable pub pure : {A : Type 0} → A → M A
pure a w = (ok a, w)

unfoldable pub fail : {A : Type 0} → Error → M A
fail e w = (err e, w)

abbrev pub bind_result : {A B : Type 0} → Result A → (A → M B) → M B
bind_result (ok a) f w = f a w
bind_result (err e) f w = (err e, w)

infixl 5 ◌>>=◌ ◌>>◌
unfoldable pub ◌>>=◌ : {A B : Type 0} → M A → (A → M B) → M B
◌>>=◌ m f w = let r = m w in bind_result r.0 f r.1

abbrev pub ◌>>◌ : {B : Type 0} → M (Unit {0}) → M B → M B
m >> k = m >>= λ _. k

-- The result as a value: `x, err := m`.
unfoldable pub attempt : {A : Type 0} → M A → M (Result A)
attempt m w = let r = m w in (ok r.0, r.1)

-- `_ = m`.
unfoldable pub ignore : {A : Type 0} → M A → M (Unit {0})
ignore m w = let r = m w in (ok tt, r.1)

unfoldable pub lift : {A : Type 0} → Result A → M A
lift r w = (r, w)

abbrev pub fault : Option Error → Result (Unit {0})
fault none = ok tt
fault (some e) = err e

abbrev pub map_error : {A : Type 0} → (Error → Error) → Result A → Result A
map_error f (ok a) = ok a
map_error f (err e) = err (f e)

-- `return fmt.Errorf("…: %w", err)` behind a call.
unfoldable pub with_text : {A : Type 0} → (Error → Error) → M A → M A
with_text f m w = let r = m w in (map_error f r.0, r.1)

-- One numbered call to the outside.
unfoldable pub ask : {A : Type 0} → (ℕ → A) → M A
ask f w = (ok (f w.tick), record w { tick = suc w.tick })

unfoldable pub emit : Effect → M (Unit {0})
emit x w = (ok tt, record w { log = w.log ++ (x ∷ []) })
