-- ===== src/Worker/Download/Process.antt =====
-- internal/worker/download.go: `processDownloadJob` and `runDownloader`.
use tor_boxarr.Base.{
  ℕ, ◌+◌, pos, Bool, true, false, ◌&&◌, ◌||◌, Option, none, some, List, [], ◌∷◌, ◌++◌, Str,
  if◌then◌else◌, lit, is_empty, ltb_ℤ, leb_ℤ, eqb_ℤ, ◌+ℤ◌,
}
use tor_boxarr.Model.{
  Job, TransferPart, Time, zero_time, failed, local_download_pending, local_downloading,
  local_verify, state_eq,
}
use tor_boxarr.Torbox.Client.{Error, Result, ok, err, DownloadAsset}
use tor_boxarr.World.{M, pure, ask, ignore, made_dir, ◌>>=◌, ◌>>◌}
use tor_boxarr.Paths.{join}
use tor_boxarr.Files.Layout.{staging_path_for_job, fs_call}
use tor_boxarr.Files.Downloader.{Outcome, download}
use tor_boxarr.Store.Jobs.{update_job_state}
use tor_boxarr.Store.Parts.{upsert_transfer_part, list_transfer_parts}
use tor_boxarr.Worker.Helpers.{
  Orchestrator, source_text, part_key, safe_relative_path, ensure_path_within_root, deref,
  all_parts_completed, sync_job_bytes_from_parts,
}
use tor_boxarr.Worker.Batch.{run_batch}
use tor_boxarr.Worker.Download.Progress.{Session, on_progress}
use tor_boxarr.Worker.Download.Failure.{handle_download_error}

abbrev pub staging_or_default : Orchestrator → Job → Str
staging_or_default o job = elim job.staging_path [
  | none ↦ staging_path_for_job o.layout job.id
  | some p ↦ p
]

-- The part that an asset is registered as.
abbrev pub new_part : Job → Time → Str → Str → DownloadAsset → ℕ → TransferPart
new_part job now path temp_path asset idx = record {
  id = pos 0;
  job_id = job.id;
  part_key = part_key asset idx;
  file_id = if is_empty asset.file_id then none else some asset.file_id;
  source_url = asset.url;
  temp_path = temp_path;
  relative_path = path;
  content_length = asset.size;
  bytes_done = pos 0;
  etag = none;
  completed = false;
  created_at = now;
  updated_at = now;
}

unfoldable pub reject_path : Orchestrator → Job → Str → M (Unit {0})
reject_path o job path =
    let msg = lit "refusing to use download path outside staging root: " ++ o.env.quote path in
    do
      now ← ask o.env.now
      _ ←
          update_job_state o.env
            (record job { error_message = some msg; next_run_at = none; updated_at = now }) failed
            msg
      pure tt

-- One asset: its path was checked, and the loop goes on with `rest`.
abbrev pub register_one :
    Orchestrator → Job → Str → TransferPart → Result (Unit {0}) → M Bool → M Bool
register_one o job path part (err x) rest = reject_path o job path >> pure false
register_one o job path part (ok _) rest = upsert_transfer_part o.env part >> rest

-- The loop over the assets: false means that the handler has ended.
unfoldable pub register_assets : Orchestrator → Job → Str → Time → ℕ → List DownloadAsset → M Bool
register_assets o job staging now idx [] = pure true
register_assets o job staging now idx (asset ∷ assets) =
    let path = safe_relative_path asset.relative_path idx in
    let temp_path = join (staging ∷ path ∷ []) in
    register_one o job asset.relative_path (new_part job now path temp_path asset idx)
      (ensure_path_within_root o.env staging temp_path)
      (register_assets o job staging now (idx + 1) assets)

unfoldable pub links_failed : Orchestrator → Job → Error → M (Unit {0})
links_failed o job x = do
  now ← ask o.env.now
  later ← ask o.env.now
  ignore (
      update_job_state o.env
        (record job {
          next_run_at = some (now +ℤ o.workers.download_interval);
          error_message = some x.message;
          updated_at = later;
        })
        local_downloading x.message)

unfoldable pub no_assets : Orchestrator → Job → M (Unit {0})
no_assets o job =
    let msg = lit "remote task returned no downloadable assets" in
    do
      now ← ask o.env.now
      _ ←
          update_job_state o.env (record job { error_message = some msg; updated_at = now }) failed
            msg
      pure tt

unfoldable pub use_assets : Orchestrator → Job → Str → Result (List DownloadAsset) → M Bool
use_assets o job staging (err x) = links_failed o job x >> pure false
use_assets o job staging (ok []) = no_assets o job >> pure false
use_assets o job staging (ok (a ∷ more)) =
    ask o.env.now >>= λ now. register_assets o job staging now 0 (a ∷ more)

-- The parts of the job, registered first if there are none; none means that the handler has ended.
unfoldable pub load_parts :
    Orchestrator → Job → Str → List TransferPart → M (Option (List TransferPart))
load_parts o job staging [] = do
  links ←
      ask λ n. o.env.client.get_download_links n (source_text job.source_type) (deref job.remote_id)
  go_on ← use_assets o job staging links
  if go_on then (list_transfer_parts o.env job.id >>= λ parts. pure (some parts)) else pure none
load_parts o job staging (p ∷ ps) = pure (some (p ∷ ps))

unfoldable pub complete_part : TransferPart → TransferPart
complete_part part = record part {
  completed = eqb_ℤ part.content_length (pos 0) || leb_ℤ part.content_length part.bytes_done;
}

abbrev pub touched : TransferPart → Time → TransferPart
touched part now = record part {
  updated_at = now;
  created_at = if eqb_ℤ part.created_at zero_time then now else part.created_at;
}

-- The end of the download of a part. none means that the handler has ended.
abbrev pub after_download_on : Orchestrator → Option Error → Outcome Session → M (Option Session)
after_download_on o (some x) r = handle_download_error o r.state.job r.part x >> pure none
after_download_on o none r = do
  now ← ask o.env.now
  upsert_transfer_part o.env (record (complete_part r.part) { updated_at = now })
  pure (some (record (r.state) { job = record (r.state.job) { retry_count = pos 0 } }))

abbrev pub after_download : Orchestrator → Outcome Session → M (Option Session)
after_download o r = after_download_on o r.error r

unfoldable pub download_part : Orchestrator → Session → TransferPart → M (Option Session)
download_part o s part = if part.completed then pure (some s) else (do
  now ← ask o.env.now
  r ← download o.env (on_progress o) (record s { last_persist = zero_time }) (touched part now)
  after_download o r)

abbrev pub or_ended : Option Session → (Session → M (Option Session)) → M (Option Session)
or_ended none next = pure none
or_ended (some s) next = next s

unfoldable pub download_parts : Orchestrator → List TransferPart → Session → M (Option Session)
download_parts o [] s = pure (some s)
download_parts o (part ∷ parts) s =
    download_part o s part >>= λ r. or_ended r (download_parts o parts)

-- All parts have been through the loop.
unfoldable pub settle_download : Orchestrator → Job → List TransferPart → M (Unit {0})
settle_download o job parts = do
  now ← ask o.env.now
  let job = record (sync_job_bytes_from_parts job parts) { error_message = none; updated_at = now }
  later ← ask o.env.now
  _ ←
      if all_parts_completed parts
      then update_job_state o.env (record job { next_run_at = some later }) local_verify
          (lit "local download finished")
      else update_job_state o.env
          (record job { next_run_at = some (later +ℤ o.workers.download_interval) })
          local_downloading (lit "local download in progress")
  pure tt

unfoldable pub after_parts : Orchestrator → Str → Option Session → M (Unit {0})
after_parts o job_id none = pure tt
after_parts o job_id (some s) = list_transfer_parts o.env job_id >>= settle_download o s.job

abbrev pub is_visible : Job → Bool
is_visible job = state_eq job.state local_downloading && ltb_ℤ (pos 0) job.bytes_total

unfoldable pub download_loaded : Orchestrator → Job → Option (List TransferPart) → M (Unit {0})
download_loaded o job none = pure tt
download_loaded o job (some parts) =
    download_parts o parts
      (record { job = job; visible = is_visible job; last_persist = zero_time })
    >>= after_parts o job.id

unfoldable pub process_download_job : Orchestrator → Job → M (Unit {0})
process_download_job o job =
    let staging = staging_or_default o job in
    let job' = record job { staging_path = some staging } in
    do
      fs_call (made_dir staging) (λ n. o.env.mkdir_all n staging) (lit "ensure staging path")
      parts ← list_transfer_parts o.env job.id
      loaded ← load_parts o job' staging parts
      download_loaded o job' loaded

unfoldable pub run_downloader : Orchestrator → M (Unit {0})
run_downloader o =
    run_batch o (lit "downloader") (local_download_pending ∷ local_downloading ∷ [])
      (process_download_job o)
