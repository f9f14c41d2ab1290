-- ===== src/Examples/Data.antt =====
-- The inputs of the examples.
use tor_boxarr.Base.{pos, true, false, none, some, [], ◌∷◌, Str, lit}
use tor_boxarr.Model.{Job, JobState, torrent, qbit, SubmissionMetadata, remote_active}
use tor_boxarr.Torbox.Client.{ok, Client, TaskStatus}
use tor_boxarr.World.{Env, World, Tables}
use tor_boxarr.Files.Layout.{Layout}
use tor_boxarr.Worker.Helpers.{Orchestrator, Workers}

abbrev pub plain_metadata : SubmissionMetadata
plain_metadata = record {
  save_path = [];
  rename = [];
  tags = [];
  skip_checking = false;
  paused = false;
  root_folder = false;
  password = [];
  post_processing = pos 0;
  as_queued = false;
  add_only_if_cached = false;
  uploaded_filename = [];
  original_filename = [];
}

-- A job by its id and its state.
abbrev pub job_in : Str → JobState → Job
job_in id s = record {
  id = id;
  public_id = id;
  source_type = torrent;
  client_kind = qbit;
  category = lit "tv";
  state = s;
  submission_key = id;
  remote_id = some (lit "7");
  queued_id = some (lit "8");
  queue_auth_id = none;
  remote_hash = none;
  display_name = lit "Show";
  info_hash = none;
  source_uri = some (lit "magnet:?xt=1");
  payload_ref = none;
  staging_path = none;
  completed_path = none;
  bytes_total = pos 0;
  bytes_done = pos 0;
  local_download_started_at = none;
  error_message = none;
  retry_count = pos 0;
  next_run_at = none;
  last_remote_status = none;
  metadata = plain_metadata;
  delete_requested = false;
  claimed_by = none;
  claimed_at = none;
  created_at = pos 1;
  updated_at = pos 1;
}

abbrev pub ready_status : TaskStatus
ready_status = record {
  remote_id = lit "7";
  queued_id = [];
  queue_auth_id = [];
  hash = lit "h";
  name = lit "Show";
  state = lit "completed";
  label = [];
  bytes_total = pos 10;
  bytes_done = pos 10;
  download_present = true;
  download_finished = true;
  download_ready = true;
  failed = false;
  inactive = false;
  error = [];
  files = [];
}

abbrev pub fixed_client : Client
fixed_client = record {
  create_torrent_task = λ n r. ok (
      some (record {
        remote_id = lit "7";
        queued_id = [];
        queue_auth_id = [];
        remote_hash = [];
        display_name = [];
      }));
  create_usenet_task = λ n r. ok none;
  get_queued_status = λ n s q. ok none;
  get_task_status = λ n s r. ok (some ready_status);
  find_active_task = λ n s r a h. ok (some ready_status);
  get_download_links = λ n s r. ok (
      record { file_id = lit "1"; url = lit "u"; relative_path = lit "a/b.mkv"; size = pos 10 }
      ∷ []);
}

-- The times are the numbers of the calls; no call fails; a file has ten bytes.
abbrev pub fixed_env : Env
fixed_env = record {
  now = λ n. pos n;
  format_time = λ t. [];
  exec_fault = λ n. none;
  query_fault = λ n. none;
  sleep_fault = λ n. none;
  random = λ n b. pos 0;
  client = fixed_client;
  mkdir_all = λ n p. none;
  stat = λ n p. ok (pos 10);
  is_not_exist = λ x. true;
  rename = λ n p q. none;
  remove_all = λ n p. none;
  read_dir = λ n p. ok [];
  open_file = λ n p. none;
  write_file = λ n p. none;
  http_get = λ n u r. ok (record {
    status_code = 200;
    content_length = pos 10;
    content_range = [];
    etag = [];
    chunks = 4 ∷ 6 ∷ [];
    read_error = none;
  });
  quote = λ s. s;
  html_unescape = λ s. s;
  cwd = lit "/";
}

abbrev pub fixed_layout : Layout
fixed_layout = record {
  root = lit "/data";
  staging = lit "/data/s";
  completed = lit "/data/c";
  payloads = lit "/data/p";
}

abbrev pub fixed_workers : Workers
fixed_workers = record {
  poll_interval = pos 30;
  download_interval = pos 5;
  submit_retry_min = 10;
  submit_retry_max = 100;
  removed_retention = pos 1000;
  batch_size = pos 25;
}

abbrev pub demo : Orchestrator
demo = record { env = fixed_env; layout = fixed_layout; workers = fixed_workers }

-- Two jobs, the first one in the given state.
abbrev pub tables_with : JobState → Tables
tables_with s = record {
  jobs = job_in (lit "a") s ∷ job_in (lit "b") remote_active ∷ [];
  parts = [];
  next_part = pos 1;
  events = [];
  next_event = pos 1;
  sessions = [];
}

abbrev pub world_with : JobState → World
world_with s = record { db = tables_with s; tick = 0; log = [] }
