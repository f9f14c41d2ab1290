-- ===== src/Model.antt =====
-- internal/store/model.go: the states of a job, a job, its transfer parts and its events. A pointer
-- that may be nil is an `Option`. A time is a count of nanoseconds, zero at the Unix epoch.
use tor_boxarr.Base.{ℕ, ℤ, pos, negsuc, Str, Bool, true, false, ◌==◌, Option, List}

pub data SourceType : Type 0 where
  torrent nzb : SourceType
  -- Any other text of the column.
  other_source : Str → SourceType

pub data ClientKind : Type 0 where
  qbit sab : ClientKind

pub data JobState : Type 0 where
  accepted submit_pending submit_retry : JobState
  remote_queued remote_active remote_failed : JobState
  local_download_pending local_downloading local_verify : JobState
  completed remove_pending removed failed : JobState

pub JobState-discrete : Discrete JobState
JobState-discrete = hlevel

abbrev pub closed : JobState → Bool
closed remote_failed = true
closed removed = true
closed failed = true
closed _ = false

-- The constants are different texts; two states are compared by their place in the list.
abbrev rank : JobState → ℕ
rank accepted = 0
rank submit_pending = 1
rank submit_retry = 2
rank remote_queued = 3
rank remote_active = 4
rank remote_failed = 5
rank local_download_pending = 6
rank local_downloading = 7
rank local_verify = 8
rank completed = 9
rank remove_pending = 10
rank removed = 11
rank failed = 12

abbrev pub state_eq : JobState → JobState → Bool
state_eq s t = rank s == rank t

abbrev pub Time : Type 0
Time = ℤ

abbrev pub Duration : Type 0
Duration = ℤ

abbrev pub millisecond : ℤ
millisecond = pos 1000000

abbrev pub second : ℤ
second = pos 1000000000

-- The zero `time.Time`: 1 January of the year 1.
unfoldable pub zero_time : Time
zero_time = negsuc 62135596799999999999

pub record SubmissionMetadata : Type 0 where
  pub save_path : Str
  pub rename : Str
  pub tags : List Str
  pub skip_checking : Bool
  pub paused : Bool
  pub root_folder : Bool
  pub password : Str
  pub post_processing : ℤ
  pub as_queued : Bool
  pub add_only_if_cached : Bool
  pub uploaded_filename : Str
  pub original_filename : Str

pub record Job : Type 0 where
  pub id : Str
  pub public_id : Str
  pub source_type : SourceType
  pub client_kind : ClientKind
  pub category : Str
  pub state : JobState
  pub submission_key : Str
  pub remote_id : Option Str
  pub queued_id : Option Str
  pub queue_auth_id : Option Str
  pub remote_hash : Option Str
  pub display_name : Str
  pub info_hash : Option Str
  pub source_uri : Option Str
  pub payload_ref : Option Str
  pub staging_path : Option Str
  pub completed_path : Option Str
  pub bytes_total : ℤ
  pub bytes_done : ℤ
  pub local_download_started_at : Option Time
  pub error_message : Option Str
  pub retry_count : ℤ
  pub next_run_at : Option Time
  pub last_remote_status : Option Str
  pub metadata : SubmissionMetadata
  pub delete_requested : Bool
  pub claimed_by : Option Str
  pub claimed_at : Option Time
  pub created_at : Time
  pub updated_at : Time

pub record TransferPart : Type 0 where
  pub id : ℤ
  pub job_id : Str
  pub part_key : Str
  pub file_id : Option Str
  pub source_url : Str
  pub temp_path : Str
  pub relative_path : Str
  pub content_length : ℤ
  pub bytes_done : ℤ
  pub etag : Option Str
  pub completed : Bool
  pub created_at : Time
  pub updated_at : Time

pub record JobEvent : Type 0 where
  pub id : ℤ
  pub job_id : Str
  pub from_state : Option JobState
  pub to_state : Option JobState
  pub message : Str
  pub created_at : Time
