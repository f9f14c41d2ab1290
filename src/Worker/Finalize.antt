-- ===== src/Worker/Finalize.antt =====
-- internal/worker/finalize.go: a downloaded job is checked and moved to its completed path.
pub mod Back
pub mod States
pub mod Verified
use tor_boxarr.Base.{
  ℤ, pos, ◌&&◌, Option, none, some, List, [], ◌∷◌, ◌++◌, Str, if◌then◌else◌, lit, ltb_ℤ, ◌+ℤ◌,
}
use tor_boxarr.Model.{Job, TransferPart, failed, local_downloading, local_verify, completed}
use tor_boxarr.Torbox.Client.{Result, ok, err}
use tor_boxarr.World.{M, pure, ask, attempt, ◌>>=◌}
use tor_boxarr.Files.Layout.{completed_path_for_job, promote}
use tor_boxarr.Store.Jobs.{update_job_state}
use tor_boxarr.Store.Parts.{list_transfer_parts}
use tor_boxarr.Worker.Helpers.{Orchestrator, deref, sync_job_bytes_from_parts}
use tor_boxarr.Worker.Batch.{run_batch}

unfoldable pub fail_verify : Orchestrator → Job → Str → M (Unit {0})
fail_verify o job msg = do
  now ← ask o.env.now
  _ ← update_job_state o.env (record job { error_message = some msg; updated_at = now }) failed msg
  pure tt

-- Back to the download, which resumes the part.
unfoldable pub download_again : Orchestrator → Job → Str → M (Unit {0})
download_again o job msg = do
  now ← ask o.env.now
  later ← ask o.env.now
  _ ←
      update_job_state o.env
        (record job {
          error_message = some msg;
          updated_at = now;
          next_run_at = some (later +ℤ o.workers.download_interval);
        })
        local_downloading msg
  pure tt

-- What is wrong with a part, by the size of its file.
unfoldable pub part_fault : TransferPart → Result ℤ → Option Str
part_fault part (err x) = some (lit "missing downloaded part " ++ part.temp_path)
part_fault part (ok size) =
    if ltb_ℤ (pos 0) part.content_length && ltb_ℤ size part.content_length
    then some (lit "part " ++ (part.temp_path ++ lit " is incomplete"))
    else none

abbrev pub or_next : Option Str → M (Option Str) → M (Option Str)
or_next none next = next
or_next (some msg) next = pure (some msg)

-- The loop over the parts: the first fault ends it.
unfoldable pub verify_parts : Orchestrator → List TransferPart → M (Option Str)
verify_parts o [] = pure none
verify_parts o (part ∷ parts) = do
  found ← ask (λ n. o.env.stat n part.temp_path)
  or_next (part_fault part found) (verify_parts o parts)

unfoldable pub finish_job : Orchestrator → Job → List TransferPart → Str → M (Unit {0})
finish_job o job parts path = do
  now ← ask o.env.now
  _ ←
      update_job_state o.env
        (record (sync_job_bytes_from_parts job parts) {
          completed_path = some path;
          error_message = none;
          next_run_at = none;
          updated_at = now;
        })
        completed (lit "moved to completed path")
  pure tt

abbrev pub after_promote :
    Orchestrator → Job → List TransferPart → Str → Result (Unit {0}) → M (Unit {0})
after_promote o job parts path (err x) = fail_verify o job x.message
after_promote o job parts path (ok _) = finish_job o job parts path

abbrev pub after_verify : Orchestrator → Job → List TransferPart → Option Str → M (Unit {0})
after_verify o job parts (some msg) = download_again o job msg
after_verify o job parts none =
    let path = completed_path_for_job o.layout job.category job.display_name job.id in
    attempt (promote o.env (deref job.staging_path) path) >>= after_promote o job parts path

unfoldable pub finalize_parts : Orchestrator → Job → List TransferPart → M (Unit {0})
finalize_parts o job [] = fail_verify o job (lit "no transfer parts available for verification")
finalize_parts o job (p ∷ ps) = verify_parts o (p ∷ ps) >>= after_verify o job (p ∷ ps)

unfoldable pub process_finalize_job : Orchestrator → Job → M (Unit {0})
process_finalize_job o job = list_transfer_parts o.env job.id >>= finalize_parts o job

unfoldable pub run_finalizer : Orchestrator → M (Unit {0})
run_finalizer o = run_batch o (lit "finalizer") (local_verify ∷ []) (process_finalize_job o)
