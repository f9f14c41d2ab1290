-- ===== src/Worker/Moves.antt =====
-- The handlers of internal/worker against the diagram of the states: the headline statements.
use tor_boxarr.Base.{List, Str, refl, some, ◌≡◌}
use tor_boxarr.Diagram.{
  MovesOnly, Worker, downloader, finalizer, poller, remover, state_of, submitter,
}
use tor_boxarr.Model.{Job, JobState, local_verify, remove_pending}
use tor_boxarr.Store.StateRules.{Held, Moved}
use tor_boxarr.Torbox.Client.{Result, err, ok}
use tor_boxarr.Worker.Download.Process.{process_download_job}
use tor_boxarr.Worker.Download.Safe.{IsDownloadable}
use tor_boxarr.Worker.Download.States.{download_job-Triple}
use tor_boxarr.Worker.Finalize.{process_finalize_job}
use tor_boxarr.Worker.Finalize.States.{finalize_job-Triple}
use tor_boxarr.Worker.Helpers.{Orchestrator}
use tor_boxarr.Worker.Poll.{process_poll_job}
use tor_boxarr.Worker.Poll.States.{IsPollable, poll_job-Triple}
use tor_boxarr.Worker.Remove.{process_remove_job}
use tor_boxarr.Worker.Remove.States.{remove_job-Triple}
use tor_boxarr.Worker.Submit.{process_submit_job}
use tor_boxarr.Worker.Submit.States.{IsSubmittable, submit_job-Triple}
use tor_boxarr.World.{M, World}
use tor_boxarr.World.Triple.{After, Triple}

either :
    {by : Worker} {old : List Job} {id : Str} {s : JobState} (r : Result (Unit {0})) (w : World)
    → After (λ _. Moved by old id s) (Moved by old id s) r w
    → MovesOnly by id s old w.jobs
either (ok _) w h = h
either (err x) w h = h

-- A triple, read at the tables that the handler starts from.
pub moves_from :
    {by : Worker} {id : Str} {s : JobState} {m : M (Unit {0})} (w : World)
    → Triple (Held w.jobs id s) m (λ _. Moved by w.jobs id s) (Moved by w.jobs id s)
    → state_of id w.jobs ≡ some s
    → MovesOnly by id s w.jobs (m w).1.jobs
moves_from {m} w h stored = either (m w).0 (m w).1 (h.run w (λ other ne. refl, stored))

module _ (o : Orchestrator) (w : World) (job : Job)
    (stored : state_of job.id w.jobs ≡ some job.state) where
  -- Whatever the remote service, the clock, the random numbers and the database answer, errors
  -- included, submitting a job that waits for submission leaves the state of its row or moves it along
  -- one of the submitter's own edges of the diagram, to `submit_retry`, `remote_queued`,
  -- `remote_active` or `remote_failed`, and changes the state of no other row.
  pub process_submit_job-moves :
      IsSubmittable job.state
      → MovesOnly submitter job.id job.state w.jobs (process_submit_job o job w).1.jobs
  process_submit_job-moves sub = moves_from w (submit_job-Triple o w.jobs sub job) stored

  -- Whatever the outside answers, polling a job that is queued or active at the remote service leaves
  -- the state of its row or moves it along one of the poller's own edges, of a queued job also along
  -- one of an active job: to `remote_active`, `remote_failed` or `local_download_pending`. It changes
  -- the state of no other row.
  pub process_poll_job-moves :
      IsPollable job.state
      → MovesOnly poller job.id job.state w.jobs (process_poll_job o job w).1.jobs
  process_poll_job-moves pol = moves_from w (poll_job-Triple o w.jobs pol job refl) stored

  -- Whatever the outside answers, downloading a job that waits for its local download or is in it
  -- leaves the state of its row or moves it along one of the downloader's own edges, to
  -- `local_downloading`, `local_verify` or `failed`, and changes the state of no other row.
  pub process_download_job-moves :
      IsDownloadable job.state
      → MovesOnly downloader job.id job.state w.jobs (process_download_job o job w).1.jobs
  process_download_job-moves dl = moves_from w (download_job-Triple o w.jobs dl job) stored

module _ (o : Orchestrator) (w : World) (job : Job) where
  -- Whatever the outside answers, finalizing a job whose row waits for verification leaves the state
  -- of that row or moves it along one of the finalizer's own edges, to `completed`,
  -- `local_downloading` or `failed`, and changes the state of no other row.
  pub process_finalize_job-moves :
      state_of job.id w.jobs ≡ some local_verify
      → MovesOnly finalizer job.id local_verify w.jobs (process_finalize_job o job w).1.jobs
  process_finalize_job-moves stored = moves_from w (finalize_job-Triple o w.jobs job) stored

  -- Whatever the outside answers, removing a job whose row waits for removal leaves the state of that
  -- row or moves it along one of the remover's own edges, to `removed` or `failed`, and changes the
  -- state of no other row.
  pub process_remove_job-moves :
      state_of job.id w.jobs ≡ some remove_pending
      → MovesOnly remover job.id remove_pending w.jobs (process_remove_job o job w).1.jobs
  process_remove_job-moves stored = moves_from w (remove_job-Triple o w.jobs job) stored
