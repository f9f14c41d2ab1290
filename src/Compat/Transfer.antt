-- ===== src/Compat/Transfer.antt =====
-- internal/compat/qbit.go: the bytes of the local transfer, its rate and its remaining time.
use tor_boxarr.Base.{
  Bool, Option, false, if◌then◌else◌, leb_ℤ, max_ℤ, negsuc, none, not, pos, some, sub64, true, ℤ,
  ◌-ℤ◌, ◌/◌, ◌||◌,
}
use tor_boxarr.Compat.Floats.{Floats}
use tor_boxarr.Model.{
  Job, JobState, Time, completed, failed, local_downloading, local_verify, remove_pending, state_eq,
}
use tor_boxarr.Worker.Download.Progress.{started}

abbrev pub shows_bytes : JobState → Bool
shows_bytes local_downloading = true
shows_bytes local_verify = true
shows_bytes completed = true
shows_bytes remove_pending = true
shows_bytes failed = true
shows_bytes _ = false

-- Done and total.
unfoldable pub project_local_transfer_bytes : Job → ℤ × ℤ
project_local_transfer_bytes job =
    if shows_bytes job.state
    then (max_ℤ job.bytes_done (pos 0), max_ℤ job.bytes_total (pos 0))
    else (pos 0, pos 0)

abbrev pub is_downloading : Job → Bool
is_downloading job = state_eq job.state local_downloading

abbrev pub or_created : Job → Option Time → Option Time
or_created job (some t) = some t
or_created job none = if is_downloading job then some job.created_at else none

unfoldable pub local_transfer_started_at : Job → Option Time
local_transfer_started_at job = or_created job job.local_download_started_at

-- `Time.Unix`.
unfoldable pub unix : Time → ℤ
unix (pos n) = pos (n / 1_000_000_000)
unix (negsuc n) = negsuc (n / 1_000_000_000)

module _ (fl : Floats) where
  abbrev pub rate_since : Job → ℤ → Option Time → fl.Float
  rate_since job done none = fl.of_int (pos 0)
  rate_since job done (some started) =
      let elapsed = job.updated_at -ℤ started in
      if leb_ℤ elapsed (pos 0)
      then fl.of_int (pos 0)
      else fl.div (fl.of_int done) (fl.seconds elapsed)

  unfoldable pub local_transfer_rate : Job → fl.Float
  local_transfer_rate job =
      let done = (project_local_transfer_bytes job).0 in
      if not (is_downloading job)
      then fl.of_int (pos 0)
      else if leb_ℤ done (pos 0)
      then fl.of_int (pos 0)
      else rate_since job done (local_transfer_started_at job)

  unfoldable pub local_transfer_eta : Job → ℤ
  local_transfer_eta job =
      let done = (project_local_transfer_bytes job).0 in
      let total = (project_local_transfer_bytes job).1 in
      let rate = local_transfer_rate job in
      if not (is_downloading job)
      then pos 0
      else if leb_ℤ done (pos 0) || leb_ℤ total done
      then pos 0
      else if not (fl.less (fl.of_int (pos 0)) rate)
      then pos 0
      else fl.to_int (fl.ceil (fl.div (fl.of_int (sub64 total done)) rate))
