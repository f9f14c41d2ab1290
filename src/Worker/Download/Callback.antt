-- ===== src/Worker/Download/Callback.antt =====
-- What the callback and the error path of the downloader do to the states of the rows.
use tor_boxarr.Base.{
  Bool, List, Option, Str, arith, is_empty, leb_ℤ, ltb_ℤ, none, not, pos, some, str_eq, trim_space,
  ℕ, ℤ, ◌&&◌, ◌==◌, ◌||◌, ◌∙◌, ◌≡◌,
}
use tor_boxarr.Model.{Job, JobState, Time, TransferPart, failed, local_downloading}
use tor_boxarr.Store.Jobs.{moved}
use tor_boxarr.Torbox.Client.{DownloadAsset, Error, Result, err, ok}
use tor_boxarr.Worker.Download.Failure.{
  conclude, fail_download, handle_download_error, max_5xx_retries, retry_download,
}
use tor_boxarr.Worker.Download.Links.{
  find_matching_download_asset, is_refresh_5xx, refresh_download_part_source_url, refreshable,
  use_asset, use_links,
}
use tor_boxarr.Worker.Download.Progress.{
  Session, after_start, checkpoint, make_visible, on_progress, reset_5xx_count,
  should_checkpoint_progress, started,
}
use tor_boxarr.Worker.Download.Safe.{
  IsDownloadable, Names, Safe, SafeStep, attempt-Safe, ignore-Safe, move-Safe, pure-SafeStep,
  to_downloading, to_failed, upsert-Safe, write-Safe,
}
use tor_boxarr.Worker.Helpers.{Orchestrator, deref}
use tor_boxarr.World.Triple.{Triple-ask, Triple-bind, Triple-if, Triple-pure}

module _ (o : Orchestrator) (old : List Job) (id : Str) {s0 : JobState}
    (dl : IsDownloadable s0) where
  checkpoint-Safe :
      (now : Time) (done total : ℤ) (s : Session) (part : TransferPart)
      → Names id s
      → SafeStep o old id dl (checkpoint o now done total s part)
  unfolding checkpoint
  checkpoint-Safe now done total s part e =
      Triple-if (should_checkpoint_progress s.last_persist now done total)
        (λ _.
          Triple-bind (attempt-Safe o old id dl (upsert-Safe o old id dl part))
            λ stored. pure-SafeStep o old id dl _ e)
        (λ _. pure-SafeStep o old id dl _ e)

  after_start-Safe :
      (now : Time) (done total : ℤ) (s : Session) (part : TransferPart) (r : Result (Unit {0}))
      → Names id s
      → SafeStep o old id dl (after_start o now done total s part r)
  after_start-Safe now done total s part (ok _) e = checkpoint-Safe now done total _ part e
  after_start-Safe now done total s part (err x) e = pure-SafeStep o old id dl _ e

  make_visible-Safe :
      (now : Time) (done total : ℤ) (s : Session) (part : TransferPart)
      → Names id s
      → SafeStep o old id dl (make_visible o now done total s part)
  unfolding make_visible
  make_visible-Safe now done total s part e = Triple-bind (Triple-ask _) λ later.
      Triple-bind
        (attempt-Safe o old id dl (
          write-Safe o old id dl (moved (started o now done total s.job) local_downloading later) _
            _ e (to_downloading s0 dl)))
        λ r. after_start-Safe now done total _ part r e

  reset-id : (job : Job) (prev done : ℤ) → (reset_5xx_count job prev done).id ≡ job.id
  unfolding reset_5xx_count
  reset-id job prev done = ground arith

  pub on_progress-Safe :
      (s : Session) (part : TransferPart) (done total : ℤ)
      → Names id s
      → SafeStep o old id dl (on_progress o s part done total)
  unfolding on_progress
  on_progress-Safe s part done total e =
      let e' = reset-id s.job part.bytes_done done ∙ e in
      Triple-bind (Triple-ask _) λ now.
        Triple-if (not s.visible && ltb_ℤ (pos 0) total)
          (λ _. make_visible-Safe now done total _ _ e')
          (λ _. checkpoint-Safe now done total _ _ e')

  fail_download-Safe :
      (job : Job) (msg : Str) → job.id ≡ id → Safe o old id dl (fail_download o job msg)
  unfolding fail_download
  fail_download-Safe job msg e =
      Triple-bind (Triple-ask _)
        λ now. ignore-Safe o old id dl (move-Safe o old id dl _ failed msg e (to_failed s0 dl))

  retry_download-Safe :
      (job : Job) (msg : Str) → job.id ≡ id → Safe o old id dl (retry_download o job msg)
  unfolding retry_download
  retry_download-Safe job msg e = Triple-bind (Triple-ask _) λ now.
      Triple-bind (Triple-ask _) λ later.
        ignore-Safe o old id dl
          (move-Safe o old id dl _ local_downloading msg e (to_downloading s0 dl))

  conclude-Safe :
      (job : Job) (part : TransferPart) (code : ℕ) (refreshed : Bool) (msg : Str)
      → job.id ≡ id
      → Safe o old id dl (conclude o job part code refreshed msg)
  unfolding conclude
  conclude-Safe job part code refreshed msg e =
      Triple-if (code == 404 && not refreshed) (λ _. fail_download-Safe job _ e)
        λ _.
          Triple-if (is_refresh_5xx code && leb_ℤ max_5xx_retries job.retry_count)
            (λ _. fail_download-Safe job _ e) (λ _. retry_download-Safe job msg e)

  use_asset-Safe :
      (part : TransferPart) (asset : Option DownloadAsset)
      → Safe o old id dl (use_asset o part asset)
  use_asset-Safe part none = Triple-pure _ (λ t l h. h)
  use_asset-Safe part (some asset) =
      Triple-if (is_empty asset.url || str_eq asset.url part.source_url)
        (λ _. Triple-pure _ (λ t l h. h))
        (λ _. Triple-bind (Triple-ask _) λ now.
          Triple-bind (attempt-Safe o old id dl (upsert-Safe o old id dl _))
            λ r. Triple-pure _ (λ t l h. h))

  use_links-Safe :
      (part : TransferPart) (r : Result (List DownloadAsset))
      → Safe o old id dl (use_links o part r)
  use_links-Safe part (err x) = Triple-pure _ (λ t l h. h)
  use_links-Safe part (ok assets) = use_asset-Safe part (find_matching_download_asset part assets)

  refresh-Safe :
      (job : Job) (part : TransferPart) (x : Error)
      → Safe o old id dl (refresh_download_part_source_url o job part x)
  unfolding refresh_download_part_source_url
  refresh-Safe job part x =
      Triple-if (not (refreshable x.http_status) || is_empty (trim_space (deref job.remote_id)))
        (λ _. Triple-pure _ (λ t l h. h))
        (λ _. Triple-bind (Triple-ask _) λ r. use_links-Safe part r)

  pub handle_download_error-Safe :
      (job : Job) (part : TransferPart) (x : Error)
      → job.id ≡ id
      → Safe o old id dl (handle_download_error o job part x)
  unfolding handle_download_error
  handle_download_error-Safe job part x e = Triple-bind (refresh-Safe job part x) λ r.
      Triple-bind (ignore-Safe o old id dl (upsert-Safe o old id dl r.0))
        λ _. conclude-Safe _ r.0 _ _ _ e
