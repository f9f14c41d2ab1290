-- ===== src/Worker/Download/Progress.antt =====
-- internal/worker/download.go: the callback that `Download` calls with its progress. A session is the
-- job, and what the callback keeps between calls. Log lines are left out.
use tor_boxarr.Base.{
  ℤ, pos, Bool, true, not, ◌&&◌, ◌||◌, Option, none, some, if◌then◌else◌, lit, ltb_ℤ, leb_ℤ, eqb_ℤ,
  ◌+ℤ◌, ◌-ℤ◌,
}
use tor_boxarr.Model.{Job, TransferPart, Time, zero_time, local_downloading}
use tor_boxarr.Torbox.Client.{Error, Result, ok, err}
use tor_boxarr.World.{M, pure, ask, attempt, ◌>>=◌}
use tor_boxarr.Files.Downloader.{Outcome}
use tor_boxarr.Store.Jobs.{moved, write_state}
use tor_boxarr.Store.Parts.{upsert_transfer_part}
use tor_boxarr.Worker.Helpers.{Orchestrator}

pub record Session : Type 0 where
  pub job : Job
  -- `visibleLocalDownload`.
  pub visible : Bool
  -- `lastProgressPersist`.
  pub last_persist : Time

unfoldable pub reset_5xx_count : Job → ℤ → ℤ → Job
reset_5xx_count job prev_done done =
    if ltb_ℤ prev_done done && ltb_ℤ (pos 0) job.retry_count
    then record job { retry_count = pos 0 }
    else job

-- 15 seconds.
abbrev pub checkpoint_interval : ℤ
checkpoint_interval = pos 15_000_000_000

unfoldable pub should_checkpoint_progress : Time → Time → ℤ → ℤ → Bool
should_checkpoint_progress last_persist now done total =
    eqb_ℤ last_persist zero_time
    || (ltb_ℤ (pos 0) total && leb_ℤ total done)
    || leb_ℤ checkpoint_interval (now -ℤ last_persist)

abbrev pub error_of {ℓ} : {A : Type ℓ} → Result A → Option Error
error_of (ok a) = none
error_of (err x) = some x

-- The end of the callback: the part is stored from time to time.
unfoldable pub checkpoint :
    Orchestrator → Time → ℤ → ℤ → Session → TransferPart → M (Outcome Session)
checkpoint o now done total s part =
    if should_checkpoint_progress s.last_persist now done total
    then (do
      stored ← attempt (upsert_transfer_part o.env part)
      pure (record {
        state = record s { last_persist = now };
        part = part;
        error = error_of stored;
      }))
    else pure (record { state = s; part = part; error = none })

-- The job when the first bytes of a part of known size arrive.
abbrev pub started : Orchestrator → Time → ℤ → ℤ → Job → Job
started o now done total job = record job {
  bytes_total = total;
  bytes_done = if ltb_ℤ job.bytes_done done then done else job.bytes_done;
  error_message = none;
  updated_at = now;
  next_run_at = some (now +ℤ o.workers.download_interval);
}

abbrev pub after_start :
    Orchestrator → Time → ℤ → ℤ → Session → TransferPart → Result (Unit {0}) → M (Outcome Session)
after_start o now done total s part (err x) =
    pure (record { state = s; part = part; error = some x })
after_start o now done total s part (ok _) =
    checkpoint o now done total (record s { visible = true }) part

-- The job is in memory in its new state also where the write fails.
unfoldable pub make_visible :
    Orchestrator → Time → ℤ → ℤ → Session → TransferPart → M (Outcome Session)
make_visible o now done total s part = do
  later ← ask o.env.now
  let job = started o now done total s.job
  let job' = moved job local_downloading later
  stored ←
      attempt (write_state o.env job' job.state local_downloading (lit "local download started"))
  after_start o now done total (record s { job = job' }) part stored

unfoldable pub on_progress : Orchestrator → Session → TransferPart → ℤ → ℤ → M (Outcome Session)
on_progress o s part done total = do
  now ← ask o.env.now
  let job = reset_5xx_count s.job part.bytes_done done
  let part = record part {
    bytes_done = done;
    content_length = if ltb_ℤ (pos 0) total then total else part.content_length;
    updated_at = now;
  }
  if not s.visible && ltb_ℤ (pos 0) total
      then make_visible o now done total (record s { job = job }) part
      else checkpoint o now done total (record s { job = job }) part
