-- ===== src/Worker/Batch.antt =====
-- The loop that `runSubmitter`, `runPoller`, `runDownloader`, `runFinalizer` and `runRemover` share:
-- claim the due jobs, process each, log its error, and release its claim.
use tor_boxarr.Base.{Str, List, [], ◌∷◌}
use tor_boxarr.Model.{Job, JobState}
use tor_boxarr.World.{M, pure, ask, ignore, ◌>>=◌, ◌>>◌}
use tor_boxarr.Store.Claims.{claim_jobs_due}
use tor_boxarr.Worker.Helpers.{Orchestrator, release_claim}

unfoldable pub process_jobs : Orchestrator → (Job → M (Unit {0})) → List Job → M (Unit {0})
process_jobs o process [] = pure tt
process_jobs o process (job ∷ jobs) = do
  ignore (process job)
  release_claim o job.id
  process_jobs o process jobs

unfoldable pub run_batch : Orchestrator → Str → List JobState → (Job → M (Unit {0})) → M (Unit {0})
run_batch o worker states process = do
  now ← ask o.env.now
  jobs ← claim_jobs_due o.env worker states now o.workers.batch_size
  process_jobs o process jobs
