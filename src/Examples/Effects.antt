-- ===== src/Examples/Effects.antt =====
-- The log of calls at concrete jobs.
use tor_boxarr.Base.{All, some, lit}
use tor_boxarr.Model.{remove_pending}
use tor_boxarr.Worker.Remove.{process_remove_job}
use tor_boxarr.Worker.Remove.Containment.{IsContained, process_remove_job-IsContained}
use tor_boxarr.Examples.Data.{job_in, demo, world_with}

process_remove_job-IsContained_example :
    All
      (IsContained demo)
      (process_remove_job demo
        (record (job_in (lit "a") remove_pending) { staging_path = some (lit "/data/../etc") })
        (world_with remove_pending)).1.log
process_remove_job-IsContained_example =
    process_remove_job-IsContained demo
      (record (job_in (lit "a") remove_pending) { staging_path = some (lit "/data/../etc") })
      (world_with remove_pending) tt
