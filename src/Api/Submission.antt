-- ===== src/Api/Submission.antt =====
-- internal/api/router.go: `enqueueSubmission`. A job with the same key that is not closed is
-- returned in place of a new one.
pub mod Duplicate
pub mod Repeat
use tor_boxarr.Api.Library.{Server}
use tor_boxarr.Api.Source.{submission_fingerprint}
use tor_boxarr.Api.Words.{derive_display_name, normalize_info_hash}
use tor_boxarr.Base.{
  Bool, Option, Str, [], false, if◌then◌else◌, is_empty, lit, none, pos, some, trim_space, true,
}
use tor_boxarr.Files.Layout.{remove_path, staging_path_for_job}
use tor_boxarr.Files.Payload.{Upload, save_payload}
use tor_boxarr.Model.{
  ClientKind, Job, SourceType, SubmissionMetadata, Time, accepted, submit_pending,
}
use tor_boxarr.Paths.{dir}
use tor_boxarr.Store.Jobs.{create_job, find_active_by_submission_key, update_job_state}
use tor_boxarr.Worker.Helpers.{ptr}
use tor_boxarr.World.{M, ask, ignore, lift, pure, ◌>>=◌, ◌>>◌}

pub record SubmissionRequest : Type 0 where
  pub source_type : SourceType
  pub client_kind : ClientKind
  pub category : Str
  pub display_name : Str
  pub source_uri : Str
  pub info_hash : Str
  pub payload_name : Str
  pub payload_body : Option Upload
  pub metadata : SubmissionMetadata

abbrev pub category_of : Server → SubmissionRequest → Str
category_of s req =
    if is_empty (trim_space req.category)
    then s.compatibility.default_category
    else trim_space req.category

abbrev pub name_of_payload : SubmissionRequest → Str
name_of_payload req = if is_empty req.payload_name then req.display_name else req.payload_name

abbrev pub save_body : Server → SubmissionRequest → Str → Option Upload → M (Str × Str)
save_body s req job_id none = pure ([], [])
save_body s req job_id (some body) = save_payload s.env s.layout job_id (name_of_payload req) body

abbrev pub key_of : Server → SubmissionRequest → Str → Str
key_of s req digest =
    submission_fingerprint s.library req.source_type req.client_kind (category_of s req)
      (trim_space req.source_uri) (normalize_info_hash req.info_hash) digest

abbrev pub new_job : Server → SubmissionRequest → Str → Str → Str → Time → Job
new_job s req job_id key payload_ref now =
    let source_uri = trim_space req.source_uri in
    let info_hash = normalize_info_hash req.info_hash in
    record {
      id = job_id;
      public_id = s.library.sha1_hex job_id;
      source_type = req.source_type;
      client_kind = req.client_kind;
      category = category_of s req;
      state = accepted;
      submission_key = key;
      remote_id = none;
      queued_id = none;
      queue_auth_id = none;
      remote_hash = none;
      display_name =
          derive_display_name req.display_name source_uri req.payload_name info_hash job_id;
      info_hash = ptr info_hash;
      source_uri = ptr source_uri;
      payload_ref = ptr payload_ref;
      staging_path = some (staging_path_for_job s.layout job_id);
      completed_path = none;
      bytes_total = pos 0;
      bytes_done = pos 0;
      local_download_started_at = none;
      error_message = none;
      retry_count = pos 0;
      next_run_at = none;
      last_remote_status = none;
      metadata = req.metadata;
      delete_requested = false;
      claimed_by = none;
      claimed_at = none;
      created_at = now;
      updated_at = now;
    }

unfoldable pub submit_new : Server → SubmissionRequest → Str → Str → Str → M (Job × Bool)
submit_new s req job_id key payload_ref = do
  now ← ask s.env.now
  let job = new_job s req job_id key payload_ref now
  create_job s.env job
  queued ←
      update_job_state s.env (record job { next_run_at = some now }) submit_pending
        (lit "queued for remote submission")
  pure (queued, false)

-- The payload of a duplicate goes; an error of that is not looked at.
unfoldable pub drop_duplicate : Server → Str → Job → M (Job × Bool)
drop_duplicate s payload_ref active = do
  if is_empty payload_ref then pure tt else ignore (remove_path s.env (dir payload_ref))
  pure (active, true)

abbrev pub resolve : Server → SubmissionRequest → Str → Str → Str → Option Job → M (Job × Bool)
resolve s req job_id key payload_ref (some active) = drop_duplicate s payload_ref active
resolve s req job_id key payload_ref none = submit_new s req job_id key payload_ref

unfoldable pub enqueue_submission : Server → SubmissionRequest → M (Job × Bool)
enqueue_submission s req = do
  drawn ← ask s.qbit_auth.random_hex
  job_id ← lift drawn
  saved ← save_body s req job_id req.payload_body
  active ← find_active_by_submission_key s.env (key_of s req saved.1)
  resolve s req job_id (key_of s req saved.1) saved.0 active
