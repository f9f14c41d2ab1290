-- ===== src/Worker/Remove.antt =====
-- internal/worker/remove.go: the files of a job are removed, and old rows are pruned.
pub mod States
pub mod Containment
use tor_boxarr.Base.{Option, none, some, [], ◌∷◌, ◌++◌, Str, lit, ◌-ℤ◌}
use tor_boxarr.Model.{Job, failed, remove_pending, removed}
use tor_boxarr.Torbox.Client.{Result, ok, err, wrap}
use tor_boxarr.World.{M, pure, ask, with_text, ◌>>=◌, ◌>>◌}
use tor_boxarr.Paths.{dir}
use tor_boxarr.Files.Layout.{remove_path}
use tor_boxarr.Store.Jobs.{update_job_state}
use tor_boxarr.Store.Claims.{delete_removed_older_than}
use tor_boxarr.Store.Sessions.{prune_expired_qbit_sessions}
use tor_boxarr.Worker.Helpers.{Orchestrator, ensure_path_within_root}
use tor_boxarr.Worker.Batch.{run_batch}

unfoldable pub fail_unsafe_removal : Orchestrator → Job → Str → Str → M (Unit {0})
fail_unsafe_removal o job label path =
    let msg = lit "refusing to remove " ++ (label ++ (lit " outside configured root: " ++ path)) in
    do
      now ← ask o.env.now
      _ ←
          update_job_state o.env
            (record job { error_message = some msg; next_run_at = none; updated_at = now }) failed
            msg
      pure tt

-- One of the three removals: a path that is not within its root ends the handler.
abbrev pub remove_checked :
    Orchestrator → Job → Str → Str → Str → Result (Unit {0}) → M (Unit {0}) → M (Unit {0})
remove_checked o job label path text (err x) next = fail_unsafe_removal o job label path
remove_checked o job label path text (ok _) next =
    with_text (wrap text) (remove_path o.env path) >> next

unfoldable pub mark_removed : Orchestrator → Job → M (Unit {0})
mark_removed o job = do
  now ← ask o.env.now
  _ ←
      update_job_state o.env
        (record job { error_message = none; next_run_at = none; updated_at = now }) removed
        (lit "local payload removed; torbox content retained")
  pure tt

unfoldable pub remove_payload : Orchestrator → Job → Option Str → M (Unit {0})
remove_payload o job none = mark_removed o job
remove_payload o job (some path) =
    remove_checked o job (lit "payload path") (dir path) (lit "remove payload path")
      (ensure_path_within_root o.env o.layout.payloads (dir path))
      (mark_removed o (record job { payload_ref = none }))

unfoldable pub remove_staging : Orchestrator → Job → Option Str → M (Unit {0})
remove_staging o job none = remove_payload o job job.payload_ref
remove_staging o job (some path) =
    remove_checked o job (lit "staging path") path (lit "remove staging path")
      (ensure_path_within_root o.env o.layout.staging path)
      (remove_payload o (record job { staging_path = none }) job.payload_ref)

unfoldable pub remove_completed : Orchestrator → Job → Option Str → M (Unit {0})
remove_completed o job none = remove_staging o job job.staging_path
remove_completed o job (some path) =
    remove_checked o job (lit "completed path") path (lit "remove completed path")
      (ensure_path_within_root o.env o.layout.completed path)
      (remove_staging o (record job { completed_path = none }) job.staging_path)

unfoldable pub process_remove_job : Orchestrator → Job → M (Unit {0})
process_remove_job o job = remove_completed o job job.completed_path

unfoldable pub run_remover : Orchestrator → M (Unit {0})
run_remover o = run_batch o (lit "remover") (remove_pending ∷ []) (process_remove_job o)

unfoldable pub run_pruner : Orchestrator → M (Unit {0})
run_pruner o = do
  now ← ask o.env.now
  _ ← delete_removed_older_than o.env (now -ℤ o.workers.removed_retention)
  _ ← prune_expired_qbit_sessions o.env
  pure tt
