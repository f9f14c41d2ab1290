-- ===== src/Worker/Submit.antt =====
-- internal/worker/submit.go: a pending job is sent to the remote service.
pub mod States
pub mod Backoff
use tor_boxarr.Base.{
  ℕ, ℤ, pos, negsuc, ◌-◌, ◌*◌, ◌^◌, Bool, ◌&&◌, Option, none, some, [], ◌∷◌, ◌++◌, Str, ltb,
  if◌then◌else◌, lit, trim_space, add64, ◌+ℤ◌, is_some, is_none,
}
use tor_boxarr.Model.{
  Job, SourceType, torrent, nzb, other_source, Duration, submit_pending, submit_retry,
  remote_active, remote_queued, remote_failed,
}
use tor_boxarr.Torbox.Client.{
  Error, Result, ok, err, new_error, mark_retryable, CreateTorrentTaskRequest,
  CreateUsenetTaskRequest, CreateTaskResponse,
}
use tor_boxarr.World.{Env, M, pure, ask, emit, created_torrent, created_usenet, ◌>>=◌, ◌>>◌}
use tor_boxarr.Store.Jobs.{update_job_state}
use tor_boxarr.Worker.Helpers.{Orchestrator, with_jitter, deref, ptr, take_remote_name}
use tor_boxarr.Worker.Batch.{run_batch}

abbrev pub torrent_request : Job → CreateTorrentTaskRequest
torrent_request job = record {
  magnet = deref job.source_uri;
  payload_path = deref job.payload_ref;
  name = job.display_name;
  seed = pos 0;
  allow_zip = Bool.false;
  as_queued = job.metadata.as_queued;
  add_only_if_cached = job.metadata.add_only_if_cached;
}

abbrev pub usenet_request : Job → CreateUsenetTaskRequest
usenet_request job = record {
  link = deref job.source_uri;
  payload_path = deref job.payload_ref;
  name = job.display_name;
  password = job.metadata.password;
  post_processing = some job.metadata.post_processing;
  as_queued = job.metadata.as_queued;
  add_only_if_cached = job.metadata.add_only_if_cached;
}

-- The request for the job's source; the service's answer is a value.
unfoldable pub create_task :
    Orchestrator → Job → SourceType → M (Result (Option CreateTaskResponse))
create_task o job torrent = do
  emit (created_torrent (torrent_request job))
  ask (λ n. o.env.client.create_torrent_task n (torrent_request job))
create_task o job nzb = do
  emit (created_usenet (usenet_request job))
  ask (λ n. o.env.client.create_usenet_task n (usenet_request job))
create_task o job (other_source s) =
    pure (err (new_error (lit "unsupported source type " ++ o.env.quote s)))

-- `max(retryCount-1, 0)`.
abbrev pub exponent : ℤ → ℕ
exponent (pos n) = n - 1
exponent (negsuc n) = 0

-- The source computes with float64, where a product with a power of two is exact (or +Inf, which is
-- cut to the maximum as well), so whole numbers of nanoseconds give the same delay.
unfoldable pub backoff_delay : ℕ → ℕ → ℤ → ℕ
backoff_delay base max_delay retry_count =
    let delay = base * 2 ^ exponent retry_count in if ltb max_delay delay then max_delay else delay

unfoldable pub submit_backoff : Orchestrator → ℤ → M Duration
submit_backoff o retry_count =
    with_jitter o.env
      (pos (backoff_delay o.workers.submit_retry_min o.workers.submit_retry_max retry_count))

abbrev pub failing : Job → Str → Job
failing job message = record job { error_message = some message }

unfoldable pub handle_submit_failure : Orchestrator → Job → Error → M (Unit {0})
handle_submit_failure o job x = do
  now ← ask o.env.now
  let job = record job { error_message = some x.message; updated_at = now }
  let count = add64 job.retry_count (pos 1)
  let retry = (do
    now ← ask o.env.now
    wait ← submit_backoff o count
    update_job_state o.env (record job { retry_count = count; next_run_at = some (now +ℤ wait) })
        submit_retry x.message)
  let give_up = update_job_state o.env (record job { next_run_at = none }) remote_failed x.message
  _ ← if x.retryable then retry else give_up
  pure tt

-- The identifiers of the answer, blank ones left out, and its name.
unfoldable pub tracked : Env → Job → CreateTaskResponse → Job
tracked e job resp =
    take_remote_name e
      (record job {
        remote_id = ptr (trim_space resp.remote_id);
        queued_id = ptr (trim_space resp.queued_id);
        queue_auth_id = ptr (trim_space resp.queue_auth_id);
        remote_hash = ptr (trim_space resp.remote_hash);
      })
      resp.display_name

abbrev pub untracked : Job → Bool
untracked job =
    is_none job.remote_id
    && is_none job.queued_id
    && is_none job.queue_auth_id
    && is_none job.remote_hash

unfoldable pub no_identifiers : Error
no_identifiers =
    mark_retryable
      (new_error (lit "torbox create returned no remote id or queue tracking identifiers"))

unfoldable pub empty_response : Error
empty_response = mark_retryable (new_error (lit "torbox create returned empty response"))

unfoldable pub accept_task : Orchestrator → Job → M (Unit {0})
accept_task o job = do
  now ← ask o.env.now
  later ← ask o.env.now
  let job = record job {
    error_message = none;
    retry_count = pos 0;
    next_run_at = some (now +ℤ o.workers.poll_interval);
    updated_at = later;
  }
  _ ←
      if is_some job.remote_id
      then update_job_state o.env job remote_active (lit "remote task created")
      else update_job_state o.env job remote_queued (lit "remote task queued awaiting active id")
  pure tt

unfoldable pub handle_response :
    Orchestrator → Job → Result (Option CreateTaskResponse) → M (Unit {0})
handle_response o job (err x) = handle_submit_failure o job x
handle_response o job (ok none) = handle_submit_failure o job empty_response
handle_response o job (ok (some resp)) =
    let job' = tracked o.env job resp in
    if untracked job' then handle_submit_failure o job' no_identifiers else accept_task o job'

unfoldable pub process_submit_job : Orchestrator → Job → M (Unit {0})
process_submit_job o job = create_task o job job.source_type >>= handle_response o job

unfoldable pub run_submitter : Orchestrator → M (Unit {0})
run_submitter o =
    run_batch o (lit "submitter") (submit_pending ∷ submit_retry ∷ []) (process_submit_job o)
