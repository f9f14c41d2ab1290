-- ===== src/Torbox/Client.antt =====
-- internal/torbox/client.go: requests, answers and errors of the remote client. An error is its text
-- and what `errors.As` finds in its chain: the retryable mark, an HTTP status, a code of SQLite.
use tor_boxarr.Base.{
  ℕ, ℤ, Str, Bool, true, false, Option, none, some, List, ◌++◌, lit, is_empty, if◌then◌else◌,
}

pub record Error : Type 0 where
  pub message : Str
  pub retryable : Bool
  pub http_status : Option ℕ
  pub sqlite_code : Option ℕ

pub data Result {ℓ} (A : Type ℓ) : Type ℓ where
  ok : A → Result A
  err : Error → Result A

-- `fmt.Errorf` of a text, and with `: %w`.
unfoldable pub new_error : Str → Error
new_error m = record { message = m; retryable = false; http_status = none; sqlite_code = none }

unfoldable pub wrap : Str → Error → Error
wrap m e = record e { message = m ++ (lit ": " ++ e.message) }

pub record CreateTorrentTaskRequest : Type 0 where
  pub magnet : Str
  pub payload_path : Str
  pub name : Str
  pub seed : ℤ
  pub allow_zip : Bool
  pub as_queued : Bool
  pub add_only_if_cached : Bool

pub record CreateUsenetTaskRequest : Type 0 where
  pub link : Str
  pub payload_path : Str
  pub name : Str
  pub password : Str
  pub post_processing : Option ℤ
  pub as_queued : Bool
  pub add_only_if_cached : Bool

pub record CreateTaskResponse : Type 0 where
  pub remote_id : Str
  pub queued_id : Str
  pub queue_auth_id : Str
  pub remote_hash : Str
  pub display_name : Str

pub record RemoteFile : Type 0 where
  pub file_id : Str
  pub name : Str
  pub short_name : Str
  pub relative_path : Str
  pub size : ℤ

-- The field `Progress`, a float that no handler reads, is left out.
pub record TaskStatus : Type 0 where
  pub remote_id : Str
  pub queued_id : Str
  pub queue_auth_id : Str
  pub hash : Str
  pub name : Str
  pub state : Str
  pub label : Str
  pub bytes_total : ℤ
  pub bytes_done : ℤ
  pub download_present : Bool
  pub download_finished : Bool
  pub download_ready : Bool
  pub failed : Bool
  pub inactive : Bool
  pub error : Str
  pub files : List RemoteFile

pub record DownloadAsset : Type 0 where
  pub file_id : Str
  pub url : Str
  pub relative_path : Str
  pub size : ℤ

-- The interface `Client`. The first argument is the number of the call: the remote service may
-- answer each call otherwise.
pub record Client : Type 0 where
  pub create_torrent_task : ℕ → CreateTorrentTaskRequest → Result (Option CreateTaskResponse)
  pub create_usenet_task : ℕ → CreateUsenetTaskRequest → Result (Option CreateTaskResponse)
  pub get_queued_status : ℕ → Str → Str → Result (Option TaskStatus)
  pub get_task_status : ℕ → Str → Str → Result (Option TaskStatus)
  pub find_active_task : ℕ → Str → Str → Str → Str → Result (Option TaskStatus)
  pub get_download_links : ℕ → Str → Str → Result (List DownloadAsset)

-- `MarkRetryable` on an error that is not nil.
unfoldable pub mark_retryable : Error → Error
mark_retryable e = if e.retryable then e else record e { retryable = true }

abbrev pub is_retryable : Error → Bool
is_retryable e = e.retryable

unfoldable pub require_remote_id : Str → Option Error
require_remote_id r = if is_empty r then some (new_error (lit "remote id is required")) else none
