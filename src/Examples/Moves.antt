-- ===== src/Examples/Moves.antt =====
-- The handlers at concrete jobs.
use tor_boxarr.Base.{inl, lit, refl, some, str_eq, ◌≡◌}
use tor_boxarr.Diagram.{MovesOnly, downloader, finalizer, poller, remover, state_of, submitter}
use tor_boxarr.Examples.Data.{demo, job_in, world_with}
use tor_boxarr.Model.{
  JobState, local_download_pending, local_verify, remote_queued, remove_pending, submit_pending,
}
use tor_boxarr.Worker.Download.Process.{process_download_job}
use tor_boxarr.Worker.Finalize.{process_finalize_job}
use tor_boxarr.Worker.Moves.{
  process_download_job-moves, process_finalize_job-moves, process_poll_job-moves,
  process_remove_job-moves, process_submit_job-moves,
}
use tor_boxarr.Worker.Poll.{process_poll_job}
use tor_boxarr.Worker.Remove.{process_remove_job}
use tor_boxarr.Worker.Submit.{process_submit_job}

first_stored : (s : JobState) → state_of (lit "a") (world_with s).jobs ≡ some s
unfolding str_eq lit
first_stored s = refl

process_submit_job-moves_example :
    MovesOnly submitter
      (lit "a")
      submit_pending
      (world_with submit_pending).jobs
      (process_submit_job demo (job_in (lit "a") submit_pending) (world_with submit_pending)).1.jobs
process_submit_job-moves_example =
    process_submit_job-moves demo (world_with submit_pending) (job_in (lit "a") submit_pending)
      (first_stored submit_pending) (inl refl)

process_poll_job-moves_example :
    MovesOnly poller
      (lit "a")
      remote_queued
      (world_with remote_queued).jobs
      (process_poll_job demo (job_in (lit "a") remote_queued) (world_with remote_queued)).1.jobs
process_poll_job-moves_example =
    process_poll_job-moves demo (world_with remote_queued) (job_in (lit "a") remote_queued)
      (first_stored remote_queued) (inl refl)

process_download_job-moves_example :
    MovesOnly downloader
      (lit "a")
      local_download_pending
      (world_with local_download_pending).jobs
      (process_download_job demo
        (job_in (lit "a") local_download_pending)
        (world_with local_download_pending)).1.jobs
process_download_job-moves_example =
    process_download_job-moves demo (world_with local_download_pending)
      (job_in (lit "a") local_download_pending) (first_stored local_download_pending) (inl refl)

process_finalize_job-moves_example :
    MovesOnly finalizer
      (lit "a")
      local_verify
      (world_with local_verify).jobs
      (process_finalize_job demo (job_in (lit "a") local_verify) (world_with local_verify)).1.jobs
process_finalize_job-moves_example =
    process_finalize_job-moves demo (world_with local_verify) (job_in (lit "a") local_verify)
      (first_stored local_verify)

process_remove_job-moves_example :
    MovesOnly remover
      (lit "a")
      remove_pending
      (world_with remove_pending).jobs
      (process_remove_job demo (job_in (lit "a") remove_pending) (world_with remove_pending)).1.jobs
process_remove_job-moves_example =
    process_remove_job-moves demo (world_with remove_pending) (job_in (lit "a") remove_pending)
      (first_stored remove_pending)
