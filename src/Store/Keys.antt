-- ===== src/Store/Keys.antt =====
-- The unique columns of the job table: `id`, `public_id`, and `submission_key` among the open jobs.
pub mod Writes
use tor_boxarr.Base.{
  or_intro, or_parts, Bool, true, false, not, ◌&&◌, ◌||◌, ◌≡◌, refl, Str, Option, some, none, List,
  [], ◌∷◌, ◌++◌, any, str_eq, str_eq_iff, str_eq→eq, ◌∙◌, if◌then◌else◌, arith, Bool-cases, inl,
  inr,
}
use tor_boxarr.Model.{Job, JobState, Time}
use tor_boxarr.Torbox.Client.{Result, ok, err}
use tor_boxarr.World.{Env, Tables, World, Effect}
use tor_boxarr.World.Triple.{
  Triple, After, Assertion, Triple-bind, Triple-pure, Triple-ask, Triple-with_text,
}
use tor_boxarr.Store.Rules.{Applied, Triple-exec_write}
use tor_boxarr.Store.Jobs.{
  keys_clash, inserted, insert_clash, insert_job, overwritten, overwrite, update_clash, update_row,
  insert_event, append_event, create_job, update_job, write_state, update_job_state, moved,
}

-- No two rows share an `id` or a `public_id`, and no two open rows share a `submission_key`.
abbrev pub IsKeyed : List Job → Type 0
IsKeyed [] = Unit
IsKeyed (row ∷ rows) = (any (insert_clash row) rows ≡ false) × IsKeyed rows

pub str_eq_sym : (s t : Str) → str_eq s t ≡ str_eq t s
str_eq_sym s t = ground (arith, str_eq_iff s t, str_eq_iff t s)

insert_clash-sym : (a b : Job) → insert_clash a b ≡ insert_clash b a
insert_clash-sym a b = ground (
  arith,
  str_eq_sym a.id b.id,
  str_eq_sym a.public_id b.public_id,
  str_eq_sym a.submission_key b.submission_key,
)

apart_from_new :
    (job row : Job) (rows : List Job)
    → insert_clash job row ≡ false
    → any (insert_clash row) rows ≡ false
    → any (insert_clash row) (rows ++ (inserted job ∷ [])) ≡ false
apart_from_new job row [] new old = ground (arith, insert_clash-sym job row)
apart_from_new job row (r ∷ rows) new old = ground (arith, apart_from_new job row rows new)

pub insert-IsKeyed :
    (job : Job) (rows : List Job)
    → any (insert_clash job) rows ≡ false
    → IsKeyed rows
    → IsKeyed (rows ++ (inserted job ∷ []))
insert-IsKeyed job [] fits h = (refl, tt)
insert-IsKeyed job (row ∷ rows) fits h =
    (ground (arith, apart_from_new job row rows, h.0), insert-IsKeyed job rows (ground arith) h.1)

keys_clash-sym : (a b : Job) → keys_clash a b ≡ keys_clash b a
keys_clash-sym a b = ground (arith, str_eq_sym a.submission_key b.submission_key)

all_false : (a b c : Bool) → a ≡ false → b ≡ false → c ≡ false → (a || b || c) ≡ false
all_false a b c h k l = ground arith

none_true : (a b c : Bool) → (a || b || c) ≡ false → (a ≡ false) × (b ≡ false) × (c ≡ false)
none_true a b c h = (ground arith, ground arith, ground arith)

pub clash_parts :
    (a b : Job)
    → insert_clash a b ≡ false
    → (str_eq b.id a.id ≡ false)
      × (str_eq b.public_id a.public_id ≡ false)
      × (keys_clash a b ≡ false)
clash_parts a b h = none_true _ _ _ h

put : Job → Job → Job
put job row = if str_eq row.id job.id then overwritten job row else row

kept_one :
    (job row r : Job)
    → str_eq row.id job.id ≡ false
    → keys_clash job row ≡ false
    → insert_clash row r ≡ false
    → insert_clash row (put job r) ≡ false
unfolding put
kept_one job row r other fits h = elim (Bool-cases (str_eq r.id job.id)) [
  | inr unlike ↦ rw unlike h
  | inl same ↦ rw same (
      all_false (str_eq job.id row.id) (str_eq r.public_id row.public_id) (keys_clash row job)
        (str_eq_sym job.id row.id ∙ other) (clash_parts row r h).1 (keys_clash-sym row job ∙ fits))
]

kept_apart :
    (job row : Job) (rows : List Job)
    → str_eq row.id job.id ≡ false
    → keys_clash job row ≡ false
    → any (insert_clash row) rows ≡ false
    → any (insert_clash row) (overwrite job rows) ≡ false
unfolding overwrite put
kept_apart job row [] other fits h = refl
kept_apart job row (r ∷ rows) other fits h =
    let (one, rest) = or_parts (insert_clash row r) (any (insert_clash row) rows) h in
    or_intro (insert_clash row (put job r)) _ (kept_one job row r other fits one)
      (kept_apart job row rows other fits rest)

unmet : (a b : Bool) → a ≡ false → (not a && b) ≡ false → b ≡ false
unmet a b h k = ground arith

taken_one :
    (job row r : Job)
    → str_eq row.id job.id ≡ true
    → update_clash job r ≡ false
    → insert_clash row r ≡ false
    → insert_clash (overwritten job row) (put job r) ≡ false
unfolding put
taken_one job row r same fits h =
    let (ids, publics, keys) = clash_parts row r h in
    let unlike : str_eq r.id job.id ≡ false = rw (str_eq→eq row.id job.id same) at ids in
    rw unlike (
      all_false (str_eq r.id job.id) (str_eq r.public_id row.public_id) (keys_clash job r) unlike
        publics (unmet _ _ unlike fits))

taken_apart :
    (job row : Job) (rows : List Job)
    → str_eq row.id job.id ≡ true
    → any (update_clash job) rows ≡ false
    → any (insert_clash row) rows ≡ false
    → any (insert_clash (overwritten job row)) (overwrite job rows) ≡ false
unfolding overwrite put
taken_apart job row [] same fits h = refl
taken_apart job row (r ∷ rows) same fits h =
    let (one, rest) = or_parts (insert_clash row r) (any (insert_clash row) rows) h in
    let (fit, fits') = or_parts (update_clash job r) (any (update_clash job) rows) fits in
    or_intro (insert_clash (overwritten job row) (put job r)) _ (taken_one job row r same fit one)
      (taken_apart job row rows same fits' rest)

pub overwrite-IsKeyed :
    (job : Job) (rows : List Job)
    → any (update_clash job) rows ≡ false
    → IsKeyed rows
    → IsKeyed (overwrite job rows)
unfolding overwrite
overwrite-IsKeyed job [] fits h = tt
overwrite-IsKeyed job (row ∷ rows) fits h = elim (Bool-cases (str_eq row.id job.id)) [
  | inl same ↦ rw same (
    taken_apart job row rows same (ground arith) h.0,
    overwrite-IsKeyed job rows (ground arith) h.1,
  )
  | inr other ↦ rw other (
    kept_apart job row rows other (ground arith) h.0,
    overwrite-IsKeyed job rows (ground arith) h.1,
  )
]

pub overwrite-absent :
    (job : Job) (rows : List Job)
    → any (λ row. str_eq row.id job.id) rows ≡ false
    → overwrite job rows ≡ rows
unfolding overwrite
overwrite-absent job [] h = refl
overwrite-absent job (row ∷ rows) h = ground (arith, overwrite-absent job rows)
