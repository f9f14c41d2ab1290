-- ===== src/Store/Audit.antt =====
-- A change of a job's state is stored with an event that tells of it.
use tor_boxarr.Base.{
  ℕ, suc, pos, ◌≡◌, refl, true, false, Str, some, none, List, [], ◌∷◌, ◌++◌, any, str_eq, str_eq→eq,
  add64, Bool-cases, inl, inr, ◌∙◌,
}
use tor_boxarr.Model.{Job, JobState, JobEvent}
use tor_boxarr.Torbox.Client.{ok}
use tor_boxarr.World.{Env, World, Tables, ◌>>=◌, ask, attempt, with_text, pure}
use tor_boxarr.Store.Retry.{Statement, exec_write, exec_once, retry_sqlite_busy, retry_loop, settle}
use tor_boxarr.Store.Jobs.{
  update_clash, update_row, overwrite, insert_event, update_job, append_event, write_state,
  update_job_state, moved,
}

-- Where SQLite does not fail, a statement is applied once.
pub exec_write-once :
    {A : Type 0} (e : Env) (stmt : Statement A) (w : World) (a : A) (t : Tables)
    → e.exec_fault w.tick ≡ none
    → stmt w.db ≡ ok (a, t)
    → exec_write e stmt w ≡ (ok a, record w { db = t; tick = suc w.tick })
unfolding exec_write exec_once retry_sqlite_busy retry_loop settle ◌>>=◌ ask attempt pure
exec_write-once e stmt w a t calm done = rw (calm, done)

any_id-overwrite :
    (job : Job) (id : Str) (rows : List Job)
    → any (λ row. str_eq row.id id) (overwrite job rows) ≡ any (λ row. str_eq row.id id) rows
unfolding overwrite
any_id-overwrite job id [] = refl
any_id-overwrite job id (row ∷ rows) = elim (Bool-cases (str_eq row.id job.id)) [
  | inl same ↦ rw (same, str_eq→eq row.id job.id same, any_id-overwrite job id rows)
  | inr other ↦ rw (other, any_id-overwrite job id rows)
]

abbrev pub told : Env → World → Job → JobState → Str → JobEvent
told e w job next message = record {
  id = w.next_event;
  job_id = job.id;
  from_state = some job.state;
  to_state = some next;
  message = message;
  created_at = e.now (suc (suc w.tick));
}

pub update_row-fits :
    (job : Job) (t : Tables)
    → any (λ row. str_eq row.id job.id) t.jobs ≡ true
    → any (update_clash job) t.jobs ≡ false
    → update_row job t ≡ ok (tt, record t { jobs = overwrite job t.jobs })
unfolding update_row
update_row-fits job t there fits = rw (there, fits)

insert_event-fits :
    (v : JobEvent) (t : Tables)
    → any (λ row. str_eq row.id v.job_id) t.jobs ≡ true
    → v.id ≡ t.next_event
    → insert_event v.job_id v.from_state v.to_state v.message v.created_at t
      ≡ ok (tt, record t { events = t.events ++ (v ∷ []); next_event = add64 t.next_event (pos 1) })
unfolding insert_event
insert_event-fits v t there first = rw (there, first)

-- Where SQLite does not fail, the row of the job exists and no other open job has its submission
-- key, `UpdateJobState` returns the job in its new state, overwrites that row with it, and appends
-- to the event log exactly one event: of this job, from the old state to the new one, with the
-- message.
pub update_job_state-audited :
    (e : Env) (job : Job) (next : JobState) (message : Str) (w : World)
    → ((n : ℕ) → e.exec_fault n ≡ none)
    → any (λ row. str_eq row.id job.id) w.jobs ≡ true
    → any (update_clash (moved job next (e.now w.tick))) w.jobs ≡ false
    → let r = update_job_state e job next message w in
      (r.0 ≡ ok (moved job next (e.now w.tick)))
      × (r.1.jobs ≡ overwrite (moved job next (e.now w.tick)) w.jobs)
      × (r.1.events ≡ w.events ++ (told e w job next message ∷ []))
unfolding update_job_state write_state update_job append_event ◌>>=◌ ask with_text pure
update_job_state-audited e job next message w calm there fits =
    let next_job = moved job next (e.now w.tick) in
    let row_written =
      exec_write-once e (update_row next_job) (record w { tick = suc w.tick }) tt
        (record w.db { jobs = overwrite next_job w.jobs }) (calm (suc w.tick))
        (update_row-fits next_job w.db there fits) in
    let event_written =
      exec_write-once e
        (insert_event job.id (some job.state) (some next) message (e.now (suc (suc w.tick))))
        (record w {
          db = record w.db { jobs = overwrite next_job w.jobs };
          tick = suc (suc (suc w.tick));
        })
        tt
        (record w.db {
          jobs = overwrite next_job w.jobs;
          events = w.events ++ (told e w job next message ∷ []);
          next_event = add64 w.next_event (pos 1);
        })
        (calm (suc (suc (suc w.tick))))
        (insert_event-fits (told e w job next message)
          (record w.db { jobs = overwrite next_job w.jobs })
          (any_id-overwrite next_job job.id w.jobs ∙ there) refl) in
    rw (row_written, event_written) (refl, refl, refl)
