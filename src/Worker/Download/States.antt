-- ===== src/Worker/Download/States.antt =====
-- What the downloader does to the states of the rows.
use tor_boxarr.Base.{Bool, List, Option, Str, [], none, refl, some, ℕ, ◌+◌, ◌∷◌, ◌≡◌}
use tor_boxarr.Diagram.{downloader, here}
use tor_boxarr.Files.Downloader.{Outcome}
use tor_boxarr.Files.Downloader.Rules.{download-Keeps}
use tor_boxarr.Model.{Job, JobState, Time, TransferPart, failed, local_downloading, local_verify}
use tor_boxarr.Store.StateRules.{Held, Held-Moved, Moved}
use tor_boxarr.Torbox.Client.{DownloadAsset, Error, Result, err, ok}
use tor_boxarr.Worker.Download.Callback.{handle_download_error-Safe, on_progress-Safe}
use tor_boxarr.Worker.Download.Process.{
  after_download_on, after_parts, download_loaded, download_part, download_parts, links_failed,
  load_parts, no_assets, or_ended, process_download_job, register_assets, register_one, reject_path,
  settle_download, use_assets,
}
use tor_boxarr.Worker.Download.Progress.{Session, on_progress}
use tor_boxarr.Worker.Download.Safe.{
  IsDownloadable, Names, Safe, ignore-Safe, move-Safe, to_downloading, to_failed, to_verify,
  upsert-Safe,
}
use tor_boxarr.Worker.Finalize.States.{fs_call-Triple, list_parts-Triple}
use tor_boxarr.Worker.Helpers.{Orchestrator, all_parts_completed, sync_job_bytes_from_parts}
use tor_boxarr.World.{M}
use tor_boxarr.World.Triple.{
  Triple, Triple-ask, Triple-bind, Triple-given, Triple-if, Triple-pure, Triple-weaken,
}

module _ (o : Orchestrator) (old : List Job) (id : Str) {s0 : JobState}
    (dl : IsDownloadable s0) where
  -- A session that goes on keeps its job.
  abbrev IsGoing : Option Session → Type 0
  IsGoing none = Unit {0}
  IsGoing (some s) = Names id s

  abbrev SafeLoop : M (Option Session) → Type 0
  SafeLoop m =
      Triple (Moved downloader old id s0) m
        (λ r t l. record { fact : IsGoing r; state : Moved downloader old id s0 t l })
        (Moved downloader old id s0)

  reject-Safe : (job : Job) (path : Str) → job.id ≡ id → Safe o old id dl (reject_path o job path)
  unfolding reject_path
  reject-Safe job path e = Triple-bind (Triple-ask _) λ now.
      Triple-bind (move-Safe o old id dl _ failed _ e (to_failed s0 dl))
        λ _. Triple-pure _ (λ t l h. h)

  register_one-Safe :
      (job : Job) (path : Str) (part : TransferPart) (r : Result (Unit {0})) (rest : M Bool)
      → job.id ≡ id
      → Safe o old id dl rest
      → Safe o old id dl (register_one o job path part r rest)
  register_one-Safe job path part (err x) rest e h =
      Triple-bind (reject-Safe job path e) λ _. Triple-pure _ (λ t l h. h)
  register_one-Safe job path part (ok _) rest e h =
      Triple-bind (upsert-Safe o old id dl part) λ _. h

  register-Safe :
      (job : Job) (staging : Str) (now : Time) (idx : ℕ) (assets : List DownloadAsset)
      → job.id ≡ id
      → Safe o old id dl (register_assets o job staging now idx assets)
  unfolding register_assets
  register-Safe job staging now idx [] e = Triple-pure _ (λ t l h. h)
  register-Safe job staging now idx (a ∷ assets) e =
      register_one-Safe job _ _ _ _ e (register-Safe job staging now (idx + 1) assets e)

  links_failed-Safe :
      (job : Job) (x : Error) → job.id ≡ id → Safe o old id dl (links_failed o job x)
  unfolding links_failed
  links_failed-Safe job x e = Triple-bind (Triple-ask _) λ now. Triple-bind (Triple-ask _) λ later.
      ignore-Safe o old id dl
        (move-Safe o old id dl _ local_downloading x.message e (to_downloading s0 dl))

  no_assets-Safe : (job : Job) → job.id ≡ id → Safe o old id dl (no_assets o job)
  unfolding no_assets
  no_assets-Safe job e = Triple-bind (Triple-ask _) λ now.
      Triple-bind (move-Safe o old id dl _ failed _ e (to_failed s0 dl))
        λ _. Triple-pure _ (λ t l h. h)

  use_assets-Safe :
      (job : Job) (staging : Str) (r : Result (List DownloadAsset))
      → job.id ≡ id
      → Safe o old id dl (use_assets o job staging r)
  unfolding use_assets
  use_assets-Safe job staging (err x) e =
      Triple-bind (links_failed-Safe job x e) λ _. Triple-pure _ (λ t l h. h)
  use_assets-Safe job staging (ok []) e =
      Triple-bind (no_assets-Safe job e) λ _. Triple-pure _ (λ t l h. h)
  use_assets-Safe job staging (ok (a ∷ more)) e =
      Triple-bind (Triple-ask _) λ now. register-Safe job staging now 0 (a ∷ more) e

  load-Safe :
      (job : Job) (staging : Str) (parts : List TransferPart)
      → job.id ≡ id
      → Safe o old id dl (load_parts o job staging parts)
  unfolding load_parts
  load-Safe job staging [] e = Triple-bind (Triple-ask _) λ r.
      Triple-bind (use_assets-Safe job staging r e) λ go_on.
        Triple-if go_on
          (λ _.
            Triple-bind (list_parts-Triple o.env job.id (λ t l h. h))
              λ parts. Triple-pure _ (λ t l h. h))
          (λ _. Triple-pure _ (λ t l h. h))
  load-Safe job staging (p ∷ ps) e = Triple-pure _ (λ t l h. h)

  after_download_on-Safe :
      (f : Option Error) (r : Outcome Session)
      → Names id r.state
      → SafeLoop (after_download_on o f r)
  after_download_on-Safe (some x) r e =
      Triple-bind (handle_download_error-Safe o old id dl r.state.job r.part x e)
        λ _. Triple-pure _ (λ t l h. record { fact = tt; state = h })
  after_download_on-Safe none r e = Triple-bind (Triple-ask _) λ now.
      Triple-bind (upsert-Safe o old id dl _)
        λ _. Triple-pure _ (λ t l h. record { fact = e; state = h })

  download_part-Safe :
      (s : Session) (part : TransferPart) → Names id s → SafeLoop (download_part o s part)
  unfolding download_part
  download_part-Safe s part e =
      Triple-if part.completed (λ _. Triple-pure _ (λ t l h. record { fact = e; state = h }))
        λ _. Triple-bind (Triple-ask _) λ now.
          Triple-bind
            (download-Keeps (Names id) (λ t l l' h. h) o.env (on_progress o)
              (on_progress-Safe o old id dl) _ _ e)
            λ r. Triple-given λ e'. after_download_on-Safe r.error r e'

  or_ended-Safe :
      (r : Option Session) (next : Session → M (Option Session))
      → IsGoing r
      → ((s : Session) → Names id s → SafeLoop (next s))
      → SafeLoop (or_ended r next)
  or_ended-Safe none next g h = Triple-pure _ (λ t l h. record { fact = tt; state = h })
  or_ended-Safe (some s) next g h = h s g

  download_parts-Safe :
      (parts : List TransferPart) (s : Session) → Names id s → SafeLoop (download_parts o parts s)
  unfolding download_parts
  download_parts-Safe [] s e = Triple-pure _ (λ t l h. record { fact = e; state = h })
  download_parts-Safe (part ∷ parts) s e =
      Triple-bind (download_part-Safe s part e)
        λ r. Triple-given λ g. or_ended-Safe r _ g (download_parts-Safe parts)

  settle-Safe :
      (job : Job) (parts : List TransferPart)
      → job.id ≡ id
      → Safe o old id dl (settle_download o job parts)
  unfolding settle_download sync_job_bytes_from_parts
  settle-Safe job parts e = Triple-bind (Triple-ask _) λ now. Triple-bind (Triple-ask _) λ later.
      Triple-bind
        (Triple-if (all_parts_completed parts)
          (λ _. move-Safe o old id dl _ local_verify _ e (to_verify s0 dl))
          (λ _. move-Safe o old id dl _ local_downloading _ e (to_downloading s0 dl)))
        λ _. Triple-pure _ (λ t l h. h)

  after_parts-Safe : (r : Option Session) → IsGoing r → Safe o old id dl (after_parts o id r)
  unfolding after_parts
  after_parts-Safe none g = Triple-pure _ (λ t l h. h)
  after_parts-Safe (some s) g =
      Triple-bind (list_parts-Triple o.env id (λ t l h. h)) λ parts. settle-Safe s.job parts g

module _ (o : Orchestrator) (old : List Job) {s0 : JobState} (dl : IsDownloadable s0) where
  loaded-Safe :
      (job : Job) (parts : Option (List TransferPart))
      → Safe o old job.id dl (download_loaded o job parts)
  unfolding download_loaded
  loaded-Safe job none = Triple-pure _ (λ t l h. h)
  loaded-Safe job (some parts) =
      Triple-bind (download_parts-Safe o old job.id dl parts _ refl)
        λ r. Triple-given λ g. after_parts-Safe o old job.id dl r g

  -- The downloader moves the row of its job along its own edges, and no other row.
  pub download_job-Triple :
      (job : Job)
      → Triple
          (Held old job.id s0)
          (process_download_job o job)
          (λ _. Moved downloader old job.id s0)
          (Moved downloader old job.id s0)
  unfolding process_download_job
  download_job-Triple job =
      Triple-weaken
        (Triple-bind (fs_call-Triple _ _ _ (λ t l l' h. h) (λ t l h. h)) λ _.
          Triple-bind (list_parts-Triple o.env job.id (λ t l h. h)) λ parts.
            Triple-bind (load-Safe o old job.id dl _ _ parts refl) λ loaded. loaded-Safe _ loaded)
        (Held-Moved old job.id here) (λ _ t l h. h) (λ t l h. h)
