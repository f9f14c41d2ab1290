-- ===== src/Worker/Startup.antt =====
-- internal/worker/orchestrator.go: `reconcileStartup`. Claims of an earlier run are released, and each
-- open job is compared with what is on the disk.
pub mod Released
pub mod Awake
use tor_boxarr.Base.{
  Bool, List, Option, Str, [], false, if◌then◌else◌, is_none, lit, none, not, some, true, ℤ, ◌&&◌,
  ◌||◌, ◌∷◌,
}
use tor_boxarr.Files.Layout.{Layout, remove_orphan_staging_dirs, staging_path_for_job}
use tor_boxarr.Model.{
  Job, JobState, TransferPart, local_download_pending, local_downloading, local_verify,
  remove_pending, state_eq,
}
use tor_boxarr.Store.Claims.{ids_of, release_all_claims}
use tor_boxarr.Store.Jobs.{list_open_jobs, update_job, update_job_state}
use tor_boxarr.Store.Parts.{list_transfer_parts}
use tor_boxarr.Torbox.Client.{Result, err, ok, wrap}
use tor_boxarr.Worker.Helpers.{Orchestrator, all_parts_completed, needs_wakeup}
use tor_boxarr.World.{Env, M, ask, attempt, ignore, pure, with_text, ◌>>=◌, ◌>>◌}

abbrev pub staging_of : Layout → Job → Option Str → Option Str
staging_of l job none = some (staging_path_for_job l job.id)
staging_of l job (some p) = some p

abbrev pub staged : Layout → Job → Job
staged l job = record job { staging_path = staging_of l job job.staging_path }

-- Whether `os.Stat` finds a file at the path, if there is one.
abbrev pub found_file : Result ℤ → Bool
found_file (ok size) = true
found_file (err x) = false

abbrev pub exists : Env → Option Str → M Bool
exists e none = pure false
exists e (some path) = ask λ n. found_file (e.stat n path)

abbrev pub is_done : JobState → Bool
is_done s = state_eq s JobState.completed || state_eq s remove_pending

abbrev pub is_local : JobState → Bool
is_local s =
    state_eq s local_download_pending || state_eq s local_downloading || state_eq s local_verify

abbrev pub found_parts : Result (List TransferPart) → List TransferPart
found_parts (ok parts) = parts
found_parts (err x) = []

module _ (o : Orchestrator) where
  unfoldable pub promote_found : Job → M (Unit {0})
  promote_found job = do
    now ← ask o.env.now
    ignore (
        update_job_state o.env (record job { updated_at = now }) JobState.completed
          (lit "startup reconciliation promoted completed path"))

  unfoldable pub advance_to_verify : Job → M (Unit {0})
  advance_to_verify job = do
    now ← ask o.env.now
    ignore (
        update_job_state o.env (record job { next_run_at = some now; updated_at = now })
          local_verify (lit "startup reconciliation detected complete staging payload"))

  unfoldable pub wake : Job → M (Unit {0})
  wake job =
      if needs_wakeup job.state && is_none job.next_run_at
      then (do
        now ← ask o.env.now
        ignore (update_job o.env (record job { next_run_at = some now; updated_at = now })))
      else pure tt

  abbrev pub with_staged_parts : Job → Result (List TransferPart) → M (Unit {0})
  with_staged_parts job r =
      if all_parts_completed (found_parts r) then advance_to_verify job else wake job

  -- The rest, once the completed path has nothing to tell.
  unfoldable pub check_staging : Job → M (Unit {0})
  check_staging job = do
    there ← exists o.env job.staging_path
    if there && is_local job.state
        then attempt (list_transfer_parts o.env job.id) >>= with_staged_parts job
        else wake job

  unfoldable pub check_completed : Job → M (Unit {0})
  check_completed job = do
    there ← exists o.env job.completed_path
    if there && not (is_done job.state) then promote_found job else check_staging job

  unfoldable pub reconcile_job : Job → M (Unit {0})
  reconcile_job job =
      let job = staged o.layout job in
      if is_done job.state
      then (do
        there ← exists o.env job.completed_path
        if there then pure tt else check_completed job)
      else check_completed job

  unfoldable pub reconcile_jobs : List Job → M (Unit {0})
  reconcile_jobs [] = pure tt
  reconcile_jobs (job ∷ jobs) = do reconcile_job job; reconcile_jobs jobs

  unfoldable pub reconcile_startup : M (Unit {0})
  reconcile_startup = do
    with_text (wrap (lit "release stale claims")) (release_all_claims o.env)
    jobs ← list_open_jobs o.env
    reconcile_jobs jobs
    _ ← remove_orphan_staging_dirs o.env o.layout (ids_of jobs)
    pure tt
