-- ===== src/Compat/Sab.antt =====
-- internal/compat/sab.go
use tor_boxarr.Base.{
  Bool, List, Str, [], any, drop, eqb_ℤ, false, has_prefix, if◌then◌else◌, leb_ℤ, length, lit, ltb,
  max_ℤ, negsuc, pos, show_nat, str_eq, sub64, true, ℕ, ℤ, ◌%◌, ◌++◌, ◌/◌, ◌∷◌,
}
use tor_boxarr.Compat.Floats.{Floats}
use tor_boxarr.Compat.Transfer.{local_transfer_eta, project_local_transfer_bytes, unix}
use tor_boxarr.Model.{
  Job, JobState, accepted, failed, local_download_pending, local_downloading, local_verify,
  remote_active, remote_failed, remote_queued, remove_pending, submit_pending, submit_retry,
}
use tor_boxarr.Worker.Helpers.{deref}

unfoldable pub nzo_prefix : Str
nzo_prefix = lit "TBOX-"

unfoldable pub nzo_id : Str → Str
nzo_id public_id = nzo_prefix ++ public_id

-- `strings.TrimPrefix`.
unfoldable pub trim_prefix : Str → Str → Str
trim_prefix v prefix = if has_prefix v prefix then drop (length prefix) v else v

unfoldable pub normalize_nzo_id : Str → Str
normalize_nzo_id v = trim_prefix v nzo_prefix

-- The constant fields (`paused`, `start`, `priority`, `script`) are left out.
pub record SabQueueSlot : Type 0 where
  pub nzo_id : Str
  pub filename : Str
  pub cat : Str
  pub mb : Str
  pub mb_left : Str
  pub percentage : ℤ
  pub status : Str
  pub time_left : Str
  pub pp : Str

pub record SabQueue : Type 0 where
  pub version : Str
  pub no_of_slots : Str
  pub limit : ℕ
  pub finish : ℕ
  pub slots : List SabQueueSlot
  pub status : Str

pub record SabHistorySlot : Type 0 where
  pub nzo_id : Str
  pub name : Str
  pub category : Str
  pub status : Str
  pub fail_message : Str
  pub path : Str
  pub storage : Str
  pub completed : ℤ
  pub downloaded : ℤ
  pub size : Str

pub record SabHistory : Type 0 where
  pub version : Str
  pub no_of_slots : Str
  pub slots : List SabHistorySlot

abbrev pub is_sab_queue_state : JobState → Bool
is_sab_queue_state accepted = true
is_sab_queue_state submit_pending = true
is_sab_queue_state submit_retry = true
is_sab_queue_state remote_queued = true
is_sab_queue_state remote_active = true
is_sab_queue_state local_download_pending = true
is_sab_queue_state local_downloading = true
is_sab_queue_state local_verify = true
is_sab_queue_state _ = false

abbrev pub is_sab_history_state : JobState → Bool
is_sab_history_state JobState.completed = true
is_sab_history_state remove_pending = true
is_sab_history_state remote_failed = true
is_sab_history_state failed = true
is_sab_history_state _ = false

-- The other cases of the source give the text of its default.
abbrev pub project_sab_queue_status : JobState → ℤ → Str
project_sab_queue_status local_downloading total =
    if leb_ℤ total (pos 0) then lit "Queued" else lit "Downloading"
project_sab_queue_status local_verify total = lit "Moving"
project_sab_queue_status _ total = lit "Queued"

abbrev pub project_sab_history_status : JobState → Str
project_sab_history_status JobState.completed = lit "Completed"
project_sab_history_status remove_pending = lit "Completed"
project_sab_history_status _ = lit "Failed"

unfoldable pub project_sab_pp : ℤ → Str
project_sab_pp v =
    if eqb_ℤ v (pos 0)
    then lit "0"
    else if eqb_ℤ v (pos 1)
    then lit "R"
    else if eqb_ℤ v (pos 2)
    then lit "U"
    else lit "D"

-- `%02d`, for a number that is not negative.
abbrev pub show_nat_2 : ℕ → Str
show_nat_2 n = if ltb n 10 then b'0' ∷ show_nat n else show_nat n

-- Hours, minutes and seconds.
abbrev pub clock_parts : ℕ → ℕ × ℕ × ℕ
clock_parts n = (n / 3600, n % 3600 / 60, n % 60)

abbrev pub clock_text : ℕ × ℕ × ℕ → Str
clock_text (h, m, s) = show_nat h ++ (b':' ∷ (show_nat_2 m ++ (b':' ∷ show_nat_2 s)))

abbrev pub time_text : ℤ → Str
time_text (pos n) = clock_text (clock_parts n)
time_text (negsuc n) = lit "0:00:00"

module _ (fl : Floats) where
  unfoldable pub bytes_to_mb : ℤ → fl.Float
  bytes_to_mb v =
      fl.div
        (fl.round (fl.mul (fl.div (fl.of_int v) (fl.of_int (pos 1_048_576))) (fl.of_int (pos 100))))
        (fl.of_int (pos 100))

  abbrev pub hundredths : ℤ → ℤ → fl.Float
  hundredths done total = fl.mul (fl.div (fl.of_int done) (fl.of_int total)) (fl.of_int (pos 100))

  unfoldable pub percent : ℤ → ℤ → ℤ
  percent done total =
      if leb_ℤ total (pos 0)
      then pos 0
      else if fl.less (hundredths done total) (fl.of_int (pos 0))
      then pos 0
      else if fl.less (fl.of_int (pos 100)) (hundredths done total)
      then pos 100
      else fl.to_int (fl.round (hundredths done total))

  unfoldable pub project_sab_time_left : Job → Str
  project_sab_time_left job =
      if leb_ℤ (local_transfer_eta fl job) (pos 0)
      then lit "0:00:00"
      else time_text (local_transfer_eta fl job)

  unfoldable pub project_sab_queue_slot : Job → SabQueueSlot
  project_sab_queue_slot job =
      let done = (project_local_transfer_bytes job).0 in
      let total = (project_local_transfer_bytes job).1 in
      record {
        nzo_id = nzo_id job.public_id;
        filename = job.display_name;
        cat = job.category;
        mb = fl.two_digits (bytes_to_mb total);
        mb_left = fl.two_digits (bytes_to_mb (max_ℤ (sub64 total done) (pos 0)));
        percentage = percent done total;
        status = project_sab_queue_status job.state total;
        time_left = project_sab_time_left job;
        pp = project_sab_pp job.metadata.post_processing;
      }

  unfoldable pub project_sab_history_slot : Job → SabHistorySlot
  project_sab_history_slot job = record {
    nzo_id = nzo_id job.public_id;
    name = job.display_name;
    category = job.category;
    status = project_sab_history_status job.state;
    fail_message = deref job.error_message;
    path = deref job.staging_path;
    storage = deref job.completed_path;
    completed = unix job.updated_at;
    downloaded = job.bytes_done;
    size = fl.two_digits (bytes_to_mb (max_ℤ job.bytes_total job.bytes_done)) ++ lit " MB";
  }

  -- The loop of the queue: slots, and whether one of them is downloading.
  unfoldable pub queue_slots : List Job → List SabQueueSlot
  queue_slots [] = []
  queue_slots (job ∷ jobs) =
      let rest = queue_slots jobs in
      if is_sab_queue_state job.state then project_sab_queue_slot job ∷ rest else rest

  abbrev pub queue_status : List SabQueueSlot → Str
  queue_status slots =
      if any (λ slot. str_eq slot.status (lit "Downloading")) slots
      then lit "Downloading"
      else lit "Idle"

  unfoldable pub project_sab_queue : Str → List Job → SabQueue
  project_sab_queue version jobs = record {
    version = version;
    no_of_slots = show_nat (length (queue_slots jobs));
    limit = length (queue_slots jobs);
    finish = length (queue_slots jobs);
    slots = queue_slots jobs;
    status = queue_status (queue_slots jobs);
  }

  unfoldable pub history_slots : List Job → List SabHistorySlot
  history_slots [] = []
  history_slots (job ∷ jobs) =
      let rest = history_slots jobs in
      if is_sab_history_state job.state then project_sab_history_slot job ∷ rest else rest

  unfoldable pub project_sab_history : Str → List Job → SabHistory
  project_sab_history version jobs = record {
    version = version;
    no_of_slots = show_nat (length (history_slots jobs));
    slots = history_slots jobs;
  }
