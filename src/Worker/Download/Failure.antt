-- ===== src/Worker/Download/Failure.antt =====
-- internal/worker/download.go: what follows an error of `Download`. The handler ends in any case; the
-- errors of its writes are dropped.
use tor_boxarr.Base.{
  ℕ, ℤ, pos, Bool, false, not, ◌&&◌, Option, none, some, ◌++◌, Str, if◌then◌else◌, ◌==◌, lit, add64,
  leb_ℤ, ◌+ℤ◌, show_nat, show_int,
}
use tor_boxarr.Model.{Job, TransferPart, failed, local_downloading}
use tor_boxarr.Torbox.Client.{Error, Result, ok, err}
use tor_boxarr.World.{M, ask, ignore, ◌>>=◌, ◌>>◌}
use tor_boxarr.Store.Jobs.{update_job_state}
use tor_boxarr.Store.Parts.{upsert_transfer_part}
use tor_boxarr.Worker.Helpers.{Orchestrator}
use tor_boxarr.Worker.Download.Links.{refresh_download_part_source_url, is_refresh_5xx}

abbrev pub max_5xx_retries : ℤ
max_5xx_retries = pos 3

-- The status of the error, 0 if it has none.
abbrev pub status_of : Option ℕ → ℕ
status_of none = 0
status_of (some code) = code

abbrev pub was_refreshed : Result Bool → Bool
was_refreshed (ok b) = b
was_refreshed (err x) = false

unfoldable pub fail_download : Orchestrator → Job → Str → M (Unit {0})
fail_download o job msg = do
  now ← ask o.env.now
  ignore (
      update_job_state o.env
        (record job { error_message = some msg; next_run_at = none; updated_at = now }) failed msg)

unfoldable pub retry_download : Orchestrator → Job → Str → M (Unit {0})
retry_download o job msg = do
  now ← ask o.env.now
  later ← ask o.env.now
  ignore (
      update_job_state o.env
        (record job {
          error_message = some msg;
          updated_at = now;
          next_run_at = some (later +ℤ o.workers.download_interval);
        })
        local_downloading msg)

-- A status that is no 5xx sets the count back; a 5xx counts once more.
abbrev pub counted : Job → ℕ → Job
counted job code = record job {
  retry_count = if is_refresh_5xx code then add64 job.retry_count (pos 1) else pos 0;
}

abbrev pub repeated_text : TransferPart → ℕ → ℤ → Str
repeated_text part code count =
    lit "download part "
    ++ (part.part_key
        ++ (lit " returned HTTP "
            ++ (show_nat code ++ (lit " " ++ (show_int count ++ lit " consecutive times")))))

-- `job` has its count already.
unfoldable pub conclude : Orchestrator → Job → TransferPart → ℕ → Bool → Str → M (Unit {0})
conclude o job part code refreshed msg =
    if code == 404 && not refreshed
    then fail_download o job (lit "download part returned HTTP 404 and no fresh link was available")
    else if is_refresh_5xx code && leb_ℤ max_5xx_retries job.retry_count
    then fail_download o job (repeated_text part code job.retry_count)
    else retry_download o job msg

unfoldable pub handle_download_error : Orchestrator → Job → TransferPart → Error → M (Unit {0})
handle_download_error o job part x =
    let code = status_of x.http_status in
    do
      (part', r) ← refresh_download_part_source_url o job part x
      let refreshed = was_refreshed r
      let msg =
          if refreshed
          then lit "download link refreshed after HTTP " ++ show_nat code
          else x.message
      ignore (upsert_transfer_part o.env part')
      conclude o (counted job code) part' code refreshed msg
