-- ===== src/Compat/Qbit.antt =====
-- internal/compat/qbit.go
use tor_boxarr.Base.{
  Bool, List, Option, Str, [], add64, eqb_ℤ, false, has_prefix, if◌then◌else◌, join_by, leb_ℤ, lit,
  ltb_ℤ, max_ℤ, none, pos, some, str_eq, sub64, to_lower, trim_space, true, ℤ, ◌&&◌, ◌∷◌,
}
use tor_boxarr.Compat.Floats.{Floats}
use tor_boxarr.Compat.Transfer.{
  is_downloading, local_transfer_eta, local_transfer_rate, project_local_transfer_bytes, unix,
}
use tor_boxarr.Model.{
  Job, JobState, accepted, failed, local_download_pending, local_downloading, local_verify,
  remote_active, remote_failed, remote_queued, remove_pending, removed, state_eq, submit_pending,
  submit_retry,
}
use tor_boxarr.Paths.{dir, dot}

pub record QbitCategory : Type 0 where
  pub name : Str
  pub save_path : Str

unfoldable pub project_qbit_category : Str → Str → QbitCategory
project_qbit_category category save_path = record {
  name = category;
  save_path = trim_space save_path;
}

-- The fields that are constants of the projections are left out: `dht_nodes`, the rate limits, the
-- upload, `auto_tmm`, `availability`, `priority`, `ratio`, `seeding_time`.
pub record QbitTransferInfo : Type 0 where
  pub connection_status : Str
  pub dl_info_data : ℤ
  pub dl_info_speed : ℤ

pub record QbitTorrentInfo (Float : Type 0) : Type 0 where
  pub added_on : ℤ
  pub amount_left : ℤ
  pub category : Str
  pub completed : ℤ
  pub completion_on : ℤ
  pub content_path : Str
  pub dl_speed : ℤ
  pub downloaded : ℤ
  pub eta : ℤ
  pub hash : Str
  pub infohash_v1 : Str
  pub magnet_uri : Str
  pub name : Str
  pub progress : Float
  pub save_path : Str
  pub size : ℤ
  pub state : Str
  pub tags : Str
  pub total_size : ℤ

abbrev pub parent_or_empty : Str → Str
parent_or_empty p = if str_eq (dir p) dot then [] else dir p

abbrev pub paths_from : Option Str → Option Str → Str × Str
paths_from (some p) q = (parent_or_empty (trim_space p), trim_space p)
paths_from none (some q) = (parent_or_empty (trim_space q), trim_space q)
paths_from none none = ([], [])

-- The save path and the content path.
unfoldable pub qbit_paths_for_job : Job → Str × Str
qbit_paths_for_job job = paths_from job.completed_path job.staging_path

-- The flag says that the total is not known.
abbrev pub state_text : JobState → Bool → Str
state_text accepted unknown = lit "queuedDL"
state_text submit_pending unknown = lit "queuedDL"
state_text submit_retry unknown = lit "queuedDL"
state_text remote_queued unknown = lit "queuedDL"
state_text remote_active unknown = lit "queuedDL"
state_text local_download_pending unknown = lit "queuedDL"
state_text local_downloading true = lit "queuedDL"
state_text local_downloading false = lit "downloading"
state_text local_verify unknown = lit "checkingResumeData"
state_text JobState.completed unknown = lit "pausedUP"
state_text remove_pending unknown = lit "pausedUP"
state_text remote_failed unknown = lit "error"
state_text failed unknown = lit "error"
state_text removed unknown = lit "stoppedDL"

unfoldable pub project_qbit_state : Job → Str
project_qbit_state job = state_text job.state (leb_ℤ (project_local_transfer_bytes job).1 (pos 0))

abbrev pub magnet_of : Option Str → Str
magnet_of none = []
magnet_of (some uri) = if has_prefix (to_lower uri) (lit "magnet:") then uri else []

module _ (fl : Floats) where
  unfoldable pub clamp : fl.Float → fl.Float
  clamp v =
      if fl.less v (fl.of_int (pos 0))
      then fl.of_int (pos 0)
      else if fl.less (fl.of_int (pos 1)) v
      then fl.of_int (pos 1)
      else v

  abbrev pub part_of : ℤ → ℤ → fl.Float
  part_of done total = clamp (fl.div (fl.of_int done) (fl.of_int total))

  abbrev pub progress_in : JobState → ℤ → ℤ → fl.Float
  progress_in local_downloading done total =
      if eqb_ℤ total (pos 0) then fl.of_int (pos 0) else part_of done total
  progress_in local_verify done total = fl.of_int (pos 1)
  progress_in JobState.completed done total = fl.of_int (pos 1)
  progress_in remove_pending done total = fl.of_int (pos 1)
  progress_in remote_failed done total =
      if ltb_ℤ (pos 0) total && ltb_ℤ (pos 0) done then part_of done total else fl.of_int (pos 0)
  progress_in failed done total =
      if ltb_ℤ (pos 0) total && ltb_ℤ (pos 0) done then part_of done total else fl.of_int (pos 0)
  progress_in _ done total = fl.of_int (pos 0)

  unfoldable pub project_qbit_progress : Job → fl.Float
  project_qbit_progress job =
      progress_in job.state (project_local_transfer_bytes job).0
        (project_local_transfer_bytes job).1

  unfoldable pub qbit_dl_speed : Job → ℤ
  qbit_dl_speed job = if is_downloading job then fl.to_int (local_transfer_rate fl job) else pos 0

  unfoldable pub qbit_eta : Job → ℤ
  qbit_eta job =
      if leb_ℤ (local_transfer_eta fl job) (pos 0) then pos 0 else local_transfer_eta fl job

  unfoldable pub project_qbit_torrent : Job → QbitTorrentInfo fl.Float
  project_qbit_torrent job =
      let done = (project_local_transfer_bytes job).0 in
      let total = (project_local_transfer_bytes job).1 in
      record {
        added_on = unix job.created_at;
        amount_left = max_ℤ (sub64 total done) (pos 0);
        category = job.category;
        completed = done;
        completion_on =
            if state_eq job.state JobState.completed then unix job.updated_at else pos 0;
        content_path = (qbit_paths_for_job job).1;
        dl_speed = qbit_dl_speed job;
        downloaded = done;
        eta = qbit_eta job;
        hash = job.public_id;
        infohash_v1 = job.public_id;
        magnet_uri = magnet_of job.source_uri;
        name = job.display_name;
        progress = project_qbit_progress job;
        save_path = (qbit_paths_for_job job).0;
        size = max_ℤ total done;
        state = project_qbit_state job;
        tags = join_by b',' job.metadata.tags;
        total_size = max_ℤ total done;
      }

  -- The two sums of the loop, from where they stand.
  unfoldable pub sum_transfers : ℤ → ℤ → List Job → ℤ × ℤ
  sum_transfers bytes speed [] = (bytes, speed)
  sum_transfers bytes speed (job ∷ jobs) =
      sum_transfers (add64 bytes (project_local_transfer_bytes job).0)
        (add64 speed (qbit_dl_speed job)) jobs

  unfoldable pub project_qbit_transfer_info : List Job → QbitTransferInfo
  project_qbit_transfer_info jobs = record {
    connection_status = lit "connected";
    dl_info_data = (sum_transfers (pos 0) (pos 0) jobs).0;
    dl_info_speed = (sum_transfers (pos 0) (pos 0) jobs).1;
  }
