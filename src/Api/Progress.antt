-- ===== src/Api/Progress.antt =====
-- internal/api/progress.go: the counters of the parts over those of the rows.
use tor_boxarr.Base.{
  Bool, List, [], add64, eqb_ℤ, false, if◌then◌else◌, ltb_ℤ, not, pos, some, true, ℤ, ◌||◌, ◌∷◌,
}
use tor_boxarr.Model.{
  Job, JobState, Time, TransferPart, local_download_pending, local_downloading, local_verify,
  remove_pending, zero_time,
}
use tor_boxarr.Store.Parts.{list_transfer_parts}
use tor_boxarr.World.{Env, M, pure, ◌>>=◌}

abbrev pub needs_local_transfer_overlay : JobState → Bool
needs_local_transfer_overlay local_download_pending = true
needs_local_transfer_overlay local_downloading = true
needs_local_transfer_overlay local_verify = true
needs_local_transfer_overlay JobState.completed = true
needs_local_transfer_overlay remove_pending = true
needs_local_transfer_overlay JobState.failed = true
needs_local_transfer_overlay _ = false

-- What the loop over the parts keeps. The zero time is a time that is not set.
pub record Overlay : Type 0 where
  pub total : ℤ
  pub done : ℤ
  pub started_at : Time
  pub updated_at : Time

abbrev pub no_parts : Overlay
no_parts = record { total = pos 0; done = pos 0; started_at = zero_time; updated_at = zero_time }

abbrev pub is_zero : Time → Bool
is_zero t = eqb_ℤ t zero_time

abbrev pub with_part : Overlay → TransferPart → Overlay
with_part o part = record {
  total = add64 o.total part.content_length;
  done = add64 o.done part.bytes_done;
  started_at =
      if is_zero o.started_at || ltb_ℤ part.created_at o.started_at
      then part.created_at
      else o.started_at;
  updated_at = if ltb_ℤ o.updated_at part.updated_at then part.updated_at else o.updated_at;
}

unfoldable pub with_parts : Overlay → List TransferPart → Overlay
with_parts o [] = o
with_parts o (part ∷ parts) = with_parts (with_part o part) parts

abbrev pub overlaid : Job → Overlay → Job
overlaid job o = record job {
  bytes_total = o.total;
  bytes_done = o.done;
  local_download_started_at =
      if is_zero o.started_at then job.local_download_started_at else some o.started_at;
  updated_at = if ltb_ℤ job.updated_at o.updated_at then o.updated_at else job.updated_at;
}

abbrev pub over_parts : Job → List TransferPart → Job
over_parts job [] = job
over_parts job (part ∷ parts) = overlaid job (with_parts no_parts (part ∷ parts))

unfoldable pub overlay : Env → Job → M Job
overlay e job =
    if not (needs_local_transfer_overlay job.state)
    then pure job
    else (do parts ← list_transfer_parts e job.id; pure (over_parts job parts))

unfoldable pub with_local_transfer_progress : Env → List Job → M (List Job)
with_local_transfer_progress e [] = pure []
with_local_transfer_progress e (job ∷ jobs) = do
  shown ← overlay e job
  rest ← with_local_transfer_progress e jobs
  pure (shown ∷ rest)
