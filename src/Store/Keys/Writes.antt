-- ===== src/Store/Keys/Writes.antt =====
-- The writes of jobs keep the unique columns of the job table unique.
use tor_boxarr.Base.{Str, Option, some, none, List, any, str_eq, Bool-cases, inl, inr}
use tor_boxarr.Model.{Job, JobState, Time}
use tor_boxarr.Torbox.Client.{Result, ok, err}
use tor_boxarr.World.{Env, Tables, World, Effect}
use tor_boxarr.World.Triple.{
  Triple, After, Assertion, Triple-bind, Triple-pure, Triple-ask, Triple-with_text,
}
use tor_boxarr.Store.Rules.{Applied, Triple-exec_write}
use tor_boxarr.Store.Jobs.{
  insert_clash, insert_job, update_clash, update_row, insert_event, append_event, create_job,
  update_job, write_state, update_job_state, moved,
}
use tor_boxarr.Store.Keys.{IsKeyed, insert-IsKeyed, overwrite-IsKeyed, overwrite-absent}

pub update-IsKeyed :
    (job : Job) (t : Tables) (l : List Effect)
    → IsKeyed t.jobs
    → Applied (λ _ t l. IsKeyed t.jobs) (λ t l. IsKeyed t.jobs) t (update_row job t) l
unfolding update_row
update-IsKeyed job t l h = elim (Bool-cases (any (λ row. str_eq row.id job.id) t.jobs)) [
  | inr absent ↦ rw (absent, overwrite-absent job t.jobs absent) h
  | inl there ↦ elim (Bool-cases (any (update_clash job) t.jobs)) [
    | inl clash ↦ rw (there, clash) h
    | inr fits ↦ rw (there, fits) (overwrite-IsKeyed job t.jobs fits h)
  ]
]

new-IsKeyed :
    (job : Job) (t : Tables) (l : List Effect)
    → IsKeyed t.jobs
    → Applied (λ _ t l. IsKeyed t.jobs) (λ t l. IsKeyed t.jobs) t (insert_job job t) l
unfolding insert_job
new-IsKeyed job t l h = elim (Bool-cases (any (insert_clash job) t.jobs)) [
  | inl clash ↦ rw clash h
  | inr fits ↦ rw fits (insert-IsKeyed job t.jobs fits h)
]

event-IsKeyed :
    (id : Str) (from to : Option JobState) (message : Str) (now : Time) (t : Tables)
    (l : List Effect)
    → IsKeyed t.jobs
    → Applied
        (λ _ t l. IsKeyed t.jobs)
        (λ t l. IsKeyed t.jobs)
        t
        (insert_event id from to message now t)
        l
unfolding insert_event
event-IsKeyed id from to message now t l h =
    elim (Bool-cases (any (λ row. str_eq row.id id) t.jobs)) [
      | inl there ↦ rw there h
      | inr missing ↦ rw missing h
    ]

abbrev pub KeepsKeys : {A : Type 0} → (World → Result A × World) → Type 0
KeepsKeys m = Triple (λ t l. IsKeyed t.jobs) m (λ _ t l. IsKeyed t.jobs) (λ t l. IsKeyed t.jobs)

append_event-keeps :
    (e : Env) (id : Str) (from to : Option JobState) (message : Str)
    → KeepsKeys (append_event e id from to message)
unfolding append_event
append_event-keeps e id from to message = Triple-bind (Triple-ask _) λ now.
    Triple-with_text _
      (Triple-exec_write e _ (λ t l d h. h) (λ t l h. h) (event-IsKeyed id from to message now))

pub create_job-keeps : (e : Env) (job : Job) → KeepsKeys (create_job e job)
unfolding create_job
create_job-keeps e job =
    Triple-bind
      (Triple-with_text _ (Triple-exec_write e _ (λ t l d h. h) (λ t l h. h) (new-IsKeyed job)))
      λ _. append_event-keeps e job.id none (some job.state) _

pub update_job_state-keeps :
    (e : Env) (job : Job) (next : JobState) (message : Str)
    → KeepsKeys (update_job_state e job next message)
unfolding update_job_state write_state update_job
update_job_state-keeps e job next message = Triple-bind (Triple-ask _) λ now.
    Triple-bind
      (Triple-bind
        (Triple-with_text _
          (Triple-exec_write e _ (λ t l d h. h) (λ t l h. h) (update-IsKeyed (moved job next now))))
        λ _. append_event-keeps e job.id (some job.state) (some next) message)
      λ _. Triple-pure _ (λ t l h. h)

pub result_free :
    {A : Type 0} (P : Assertion) (r : Result A) (w : World) → After (λ _. P) P r w → P w.db w.log
result_free P (ok a) w h = h
result_free P (err x) w h = h

-- Whatever a job to create or to move looks like and whatever fails, `CreateJob` and `UpdateJobState`
-- keep the rows of the job table apart: no two share an `id` or a `public_id`, and no two open ones
-- share a `submission_key`, so that one submission has at most one open job.
pub job_writes-IsKeyed :
    (e : Env) (job : Job) (next : JobState) (message : Str) (w : World)
    → IsKeyed w.jobs
    → IsKeyed (create_job e job w).1.jobs × IsKeyed (update_job_state e job next message w).1.jobs
job_writes-IsKeyed e job next message w h = (
  result_free (λ t l. IsKeyed t.jobs) (create_job e job w).0 _ ((create_job-keeps e job).run w h),
  result_free (λ t l. IsKeyed t.jobs) (update_job_state e job next message w).0 _
      ((update_job_state-keeps e job next message).run w h),
)
