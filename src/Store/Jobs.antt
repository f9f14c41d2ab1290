-- ===== src/Store/Jobs.antt =====
-- internal/store/store.go: the job table and the event log. A row is the `Job` that `scanJob` reads
-- from it; `local_download_started_at` is no column. The constraints are those of the migrations.
use tor_boxarr.Base.{
  ℤ, pos, Str, Bool, true, false, not, ◌&&◌, ◌||◌, Option, none, some, List, [], ◌∷◌, ◌++◌, filter,
  any, find, take, sort_by, add64, if◌then◌else◌, lit, str_eq, text_le, is_empty,
}
use tor_boxarr.Model.{
  Job, JobState, JobEvent, Time, ClientKind, qbit, sab, closed, removed, state_eq,
}
use tor_boxarr.World.{Env, M, pure, ◌>>=◌, ◌>>◌, ask, with_text}
use tor_boxarr.Torbox.Client.{Error, ok, err, new_error, wrap}
use tor_boxarr.Store.Retry.{Statement, exec_write, query}

unfoldable pub constraint_failed : Error
constraint_failed = new_error (lit "constraint failed")

-- A clash on `submission_key` counts only between two jobs that are not closed.
abbrev pub keys_clash : Job → Job → Bool
keys_clash a b =
    not (closed a.state) && not (closed b.state) && str_eq a.submission_key b.submission_key

-- What an INSERT of `job` stores, and whether a row of the table forbids it.
abbrev pub inserted : Job → Job
inserted job = record job { local_download_started_at = none; claimed_by = none; claimed_at = none }

abbrev pub insert_clash : Job → Job → Bool
insert_clash job row =
    str_eq row.id job.id || str_eq row.public_id job.public_id || keys_clash job row

unfoldable pub insert_job : Job → Statement (Unit {0})
insert_job job t =
    if any (insert_clash job) t.jobs
    then err constraint_failed
    else ok (tt, record t { jobs = t.jobs ++ (inserted job ∷ []) })

-- The row after the UPDATE: `public_id` and `created_at` stay, and the claim is cleared.
abbrev pub overwritten : Job → Job → Job
overwritten job row = record job {
  public_id = row.public_id;
  created_at = row.created_at;
  local_download_started_at = none;
  claimed_by = none;
  claimed_at = none;
}

unfoldable pub overwrite : Job → List Job → List Job
overwrite job [] = []
overwrite job (row ∷ rows) =
    (if str_eq row.id job.id then overwritten job row else row) ∷ overwrite job rows

abbrev pub update_clash : Job → Job → Bool
update_clash job row = not (str_eq row.id job.id) && keys_clash job row

unfoldable pub update_row : Job → Statement (Unit {0})
update_row job t =
    if any (λ row. str_eq row.id job.id) t.jobs && any (update_clash job) t.jobs
    then err constraint_failed
    else ok (tt, record t { jobs = overwrite job t.jobs })

-- `job_id` of an event refers to a job.
unfoldable pub insert_event :
    Str → Option JobState → Option JobState → Str → Time → Statement (Unit {0})
insert_event job_id from to message now t =
    if any (λ row. str_eq row.id job_id) t.jobs
    then ok (
      tt,
      record t { events = t.events ++ (event ∷ []); next_event = add64 t.next_event (pos 1) },
    )
    else err constraint_failed
  where
    event : JobEvent
    event = record {
      id = t.next_event;
      job_id = job_id;
      from_state = from;
      to_state = to;
      message = message;
      created_at = now;
    }

unfoldable pub append_event : Env → Str → Option JobState → Option JobState → Str → M (Unit {0})
append_event e job_id from to message = do
  now ← ask e.now
  with_text (wrap (lit "append job event")) (exec_write e (insert_event job_id from to message now))

unfoldable pub create_job : Env → Job → M (Unit {0})
create_job e job = do
  with_text (wrap (lit "insert job")) (exec_write e (insert_job job))
  append_event e job.id none (some job.state) (lit "job created")

unfoldable pub update_job : Env → Job → M (Unit {0})
update_job e job = with_text (wrap (lit "update job")) (exec_write e (update_row job))

-- The job as the method leaves it in memory.
abbrev pub moved : Job → JobState → Time → Job
moved job next now = record job { state = next; updated_at = now }

-- The two writes: the row, then the event.
unfoldable pub write_state : Env → Job → JobState → JobState → Str → M (Unit {0})
write_state e job prev next message = do
  update_job e job
  append_event e job.id (some prev) (some next) message

unfoldable pub update_job_state : Env → Job → JobState → Str → M Job
update_job_state e job next message = do
  now ← ask e.now
  write_state e (moved job next now) job.state next message
  pure (moved job next now)

unfoldable pub find_active_by_submission_key : Env → Str → M (Option Job)
find_active_by_submission_key e key =
    query e (λ t. find (λ row. str_eq row.submission_key key && not (closed row.state)) t.jobs)

unfoldable pub get_job_by_id : Env → Str → M (Option Job)
get_job_by_id e id = query e (λ t. find (λ row. str_eq row.id id) t.jobs)

unfoldable pub get_job_by_public_id : Env → Str → M (Option Job)
get_job_by_public_id e public_id =
    query e (λ t. find (λ row. str_eq row.public_id public_id) t.jobs)

-- `ORDER BY created_at ASC`: the texts are compared; rows with one text keep their order.
abbrev pub oldest_first : Env → List Job → List Job
oldest_first e = sort_by (λ a b. text_le (e.format_time a.created_at) (e.format_time b.created_at))

abbrev pub newer : Env → Job → Job → Bool
newer e a b = text_le (e.format_time b.created_at) (e.format_time a.created_at)

abbrev pub newest_first : Env → List Job → List Job
newest_first e = sort_by (newer e)

-- `LIMIT`: a negative limit is none.
abbrev pub limited {ℓ} : {A : Type ℓ} → ℤ → List A → List A
limited (pos n) xs = take n xs
limited (ℤ.negsuc n) xs = xs

abbrev pub kind_eq : ClientKind → ClientKind → Bool
kind_eq qbit qbit = true
kind_eq sab sab = true
kind_eq _ _ = false

unfoldable pub list_visible_client_jobs : Env → ClientKind → Str → ℤ → M (List Job)
list_visible_client_jobs e kind category limit =
    query e (λ t. limited limit (newest_first e (filter visible t.jobs)))
  where
    visible : Job → Bool
    visible row =
        kind_eq row.client_kind kind
        && not (state_eq row.state removed)
        && (is_empty category || str_eq row.category category)

-- `next_run_at IS NULL OR next_run_at <= ?`, on the stored texts.
abbrev pub time_due : Env → Time → Option Time → Bool
time_due e now none = true
time_due e now (some t) = text_le (e.format_time t) (e.format_time now)

abbrev pub in_states : List JobState → JobState → Bool
in_states states s = any (state_eq s) states

unfoldable pub list_jobs_due : Env → List JobState → Time → ℤ → M (List Job)
list_jobs_due e [] now limit = pure []
list_jobs_due e (s ∷ ss) now limit = query e (λ t. limited limit (
    oldest_first e
      (filter (λ row. in_states (s ∷ ss) row.state && time_due e now row.next_run_at) t.jobs)))

unfoldable pub list_open_jobs : Env → M (List Job)
list_open_jobs e = query e (λ t. oldest_first e (filter (λ row. not (closed row.state)) t.jobs))

unfoldable pub get_jobs_by_ids : Env → List Str → M (List Job)
get_jobs_by_ids e [] = pure []
get_jobs_by_ids e (i ∷ is) =
    query e (λ t. oldest_first e (filter (λ row. any (str_eq row.id) (i ∷ is)) t.jobs))
