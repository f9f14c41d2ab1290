-- ===== src/Worker/Poll.antt =====
-- internal/worker/poll.go: the remote state of a job is followed until its content is ready.
pub mod States
use tor_boxarr.Base.{
  pos, ◌||◌, Option, none, some, [], ◌∷◌, ◌++◌, Str, if◌then◌else◌, lit, is_empty, ltb_ℤ, ◌+ℤ◌,
  is_none,
}
use tor_boxarr.Model.{
  Job, remote_queued, remote_active, remote_failed, local_download_pending, state_eq,
}
use tor_boxarr.Torbox.Client.{Error, Result, ok, err, TaskStatus}
use tor_boxarr.World.{M, pure, lift, ask, ◌>>=◌}
use tor_boxarr.Store.Jobs.{update_job, update_job_state}
use tor_boxarr.Worker.Helpers.{Orchestrator, source_text, with_jitter, deref, take_remote_name}
use tor_boxarr.Worker.Batch.{run_batch}

-- The job is looked at again after the poll interval, with jitter.
unfoldable pub poll_later : Orchestrator → Job → M (Unit {0})
poll_later o job = do
  now ← ask o.env.now
  wait ← with_jitter o.env o.workers.poll_interval
  later ← ask o.env.now
  update_job o.env (record job { next_run_at = some (now +ℤ wait); updated_at = later })

unfoldable pub fail_remote : Orchestrator → Job → Str → M (Unit {0})
fail_remote o job msg = do
  now ← ask o.env.now
  _ ←
      update_job_state o.env
        (record job { error_message = some msg; next_run_at = none; updated_at = now })
        remote_failed msg
  pure tt

-- What a status writes into the job, before its verdict.
abbrev pub keep_or : Option Str → Str → Option Str
keep_or old [] = old
keep_or old (c ∷ s) = some (c ∷ s)

unfoldable pub absorb_status : Orchestrator → Job → TaskStatus → Job
absorb_status o job status =
    let named = take_remote_name o.env job status.name in
    record named {
      remote_id = keep_or named.remote_id status.remote_id;
      queue_auth_id = keep_or named.queue_auth_id status.queue_auth_id;
      remote_hash = keep_or named.remote_hash status.hash;
      last_remote_status = keep_or named.last_remote_status status.state;
      bytes_total =
          if ltb_ℤ (pos 0) status.bytes_total then status.bytes_total else named.bytes_total;
      bytes_done =
          if ltb_ℤ named.bytes_done status.bytes_done then status.bytes_done else named.bytes_done;
    }

unfoldable pub failure_text : TaskStatus → Str
failure_text status =
    if is_empty status.error
    then lit "remote task ended in state=" ++ (status.state ++ (lit " label=" ++ status.label))
    else status.error

unfoldable pub content_ready : Orchestrator → Job → M (Unit {0})
content_ready o job = do
  now ← ask o.env.now
  _ ←
      update_job_state o.env
        (record job { next_run_at = some now; error_message = none; queued_id = none })
        local_download_pending (lit "remote content ready for local download")
  pure tt

unfoldable pub remote_ended : Orchestrator → Job → Str → M (Unit {0})
remote_ended o job msg = do
  _ ←
      update_job_state o.env (record job { error_message = some msg; next_run_at = none })
        remote_failed msg
  pure tt

unfoldable pub still_active : Orchestrator → Job → M (Unit {0})
still_active o job = do
  now ← ask o.env.now
  wait ← with_jitter o.env o.workers.poll_interval
  update_job o.env (record job { next_run_at = some (now +ℤ wait); state = remote_active })

unfoldable pub apply_status : Orchestrator → Job → TaskStatus → M (Unit {0})
apply_status o job status = do
  now ← ask o.env.now
  let job = record (absorb_status o job status) { updated_at = now }
  if status.download_ready
      then content_ready o job
      else if status.failed || status.inactive
      then remote_ended o job (failure_text status)
      else still_active o job

unfoldable pub apply_active_status : Orchestrator → Job → Option TaskStatus → M (Unit {0})
apply_active_status o job none = poll_later o job
apply_active_status o job (some status) = apply_status o job status

unfoldable pub poll_failed : Orchestrator → Job → Error → M (Unit {0})
poll_failed o job x = if x.retryable then poll_later o job else fail_remote o job x.message

unfoldable pub find_active : Orchestrator → Job → M (Result (Option TaskStatus))
find_active o job = ask λ n.
    o.env.client.find_active_task n (source_text job.source_type) (deref job.remote_id)
      (deref job.queue_auth_id) (deref job.remote_hash)

unfoldable pub recover_found : Orchestrator → Job → TaskStatus → M (Unit {0})
recover_found o job status = do
  now ← ask o.env.now
  let job = record job { remote_id = keep_or job.remote_id status.remote_id; updated_at = now }
  job ←
      if state_eq job.state remote_active
      then pure job
      else update_job_state o.env job remote_active
          (lit "active task discovered after queue lookup")
  apply_status o job status

unfoldable pub recover_with : Orchestrator → Job → Result (Option TaskStatus) → M (Unit {0})
recover_with o job (err x) = poll_failed o job x
recover_with o job (ok none) = poll_later o job
recover_with o job (ok (some status)) = recover_found o job status

unfoldable pub try_recover_active_status : Orchestrator → Job → M (Unit {0})
try_recover_active_status o job = find_active o job >>= recover_with o job

-- The queue gave the job an active id: it is stored, and the active task is looked up at once.
unfoldable pub promote_queued : Orchestrator → Job → M (Unit {0})
promote_queued o job = do
  now ← ask o.env.now
  job ←
      update_job_state o.env (record job { updated_at = now }) remote_active
        (lit "queued task promoted to active")
  found ← find_active o job
  status ← lift found
  apply_active_status o job status

abbrev pub queued_job : Job → TaskStatus → Job
queued_job job status = record job {
  queue_auth_id = keep_or job.queue_auth_id status.queue_auth_id;
  remote_hash = keep_or job.remote_hash status.hash;
  remote_id = keep_or job.remote_id status.remote_id;
}

unfoldable pub apply_queued_status : Orchestrator → Job → TaskStatus → M (Unit {0})
apply_queued_status o job status =
    if is_empty status.remote_id
    then poll_later o (queued_job job status)
    else promote_queued o (queued_job job status)

unfoldable pub handle_queued : Orchestrator → Job → Result (Option TaskStatus) → M (Unit {0})
handle_queued o job (err x) = try_recover_active_status o job
handle_queued o job (ok none) = try_recover_active_status o job
handle_queued o job (ok (some status)) = apply_queued_status o job status

unfoldable pub process_queued_poll_job : Orchestrator → Job → M (Unit {0})
process_queued_poll_job o job = do
  answer ←
      ask λ n. o.env.client.get_queued_status n (source_text job.source_type) (deref job.queued_id)
  handle_queued o job answer

unfoldable pub handle_polled : Orchestrator → Job → Result (Option TaskStatus) → M (Unit {0})
handle_polled o job (err x) = poll_failed o job x
handle_polled o job (ok status) = apply_active_status o job status

unfoldable pub process_poll_job : Orchestrator → Job → M (Unit {0})
process_poll_job o job =
    if state_eq job.state remote_queued || is_none job.remote_id
    then process_queued_poll_job o job
    else (do
      answer ←
          ask
            λ n. o.env.client.get_task_status n (source_text job.source_type) (deref job.remote_id)
      handle_polled o job answer)

unfoldable pub run_poller : Orchestrator → M (Unit {0})
run_poller o = run_batch o (lit "poller") (remote_queued ∷ remote_active ∷ []) (process_poll_job o)
