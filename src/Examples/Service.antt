-- ===== src/Examples/Service.antt =====
-- The API, the sessions and the views at concrete inputs.
use tor_boxarr.Api.Removal.{mark_remove_pending, request_removal}
use tor_boxarr.Api.Removal.Settled.{IsSettled, mark_remove_pending-settles}
use tor_boxarr.Api.Source.{client_kind_text, normalize_source_uri, submission_fingerprint}
use tor_boxarr.Api.Submission.{SubmissionRequest, enqueue_submission, key_of, new_job, submit_new}
use tor_boxarr.Api.Submission.Repeat.{enqueue_submission-repeated}
use tor_boxarr.Api.Words.{derive_display_name, normalize_info_hash}
use tor_boxarr.Auth.Qbit.{credentials_match, login, logout, middleware, valid_session}
use tor_boxarr.Auth.Qbit.Lifetime.{IsSession, login-valid, logout-forbids, with_sid}
use tor_boxarr.Base.{
  [], add64, arith, drop_while, false, find, join_by, lit, ltb_ℤ, none, pattern64, pos, refl, some,
  str_eq, suc, to_lower, trim, trim_space, true, wrap64, ℕ, ◌+ℤ◌, ◌∷◌, ◌≡◌,
}
use tor_boxarr.Compat.Qbit.{project_qbit_torrent}
use tor_boxarr.Compat.Views.{IsOrdered, IsShare, project_qbit_torrent-accounts}
use tor_boxarr.Examples.Data.{fixed_env, job_in, plain_metadata, world_with}
use tor_boxarr.Examples.Fixtures.{manager, server, toy_floats}
use tor_boxarr.Files.Layout.{sanitize, staging_path_for_job}
use tor_boxarr.Model.{Job, local_downloading, qbit, remote_active, submit_pending, torrent}
use tor_boxarr.Paths.{
  clean, clean_from, clean_part, clean_parts, go_up, is_abs, is_dot_dot, is_skipped, join, render,
}
use tor_boxarr.Store.Jobs.{
  append_event, create_job, find_active_by_submission_key, get_job_by_public_id, insert_event,
  insert_job, moved, overwrite, update_job, update_job_state, update_row, write_state,
}
use tor_boxarr.Store.Retry.{exec_once, exec_write, query, retry_loop, retry_sqlite_busy, settle}
use tor_boxarr.Store.Sessions.{
  create_qbit_session, delete_qbit_session, insert_session, session_live, validate_qbit_session,
}
use tor_boxarr.Torbox.Client.{ok}
use tor_boxarr.Worker.Helpers.{source_text}
use tor_boxarr.World.{World, ask, attempt, emit, lift, pure, with_text, ◌>>=◌}

abbrev request : SubmissionRequest
request = record {
  source_type = torrent;
  client_kind = qbit;
  category = [];
  display_name = [];
  source_uri = lit "magnet:?xt=2";
  info_hash = [];
  payload_name = [];
  payload_body = none;
  metadata = plain_metadata;
}

abbrev start : World
start = world_with remote_active

abbrev first_job : Job
first_job =
    moved
      (record (new_job server request (lit "c") (key_of server request []) [] (pos 2)) {
        next_run_at = some (pos 2);
      })
      submit_pending (pos 6)

submitted : (enqueue_submission server request start).0 ≡ ok (first_job, false)
unfolding enqueue_submission ◌>>=◌ ask lift pure find_active_by_submission_key query str_eq lit
    submission_fingerprint join_by source_text submit_new create_job with_text exec_write
    retry_sqlite_busy client_kind_text normalize_source_uri derive_display_name normalize_info_hash
    add64 pattern64 wrap64 ◌+ℤ◌ to_lower trim trim_space drop_while staging_path_for_job sanitize
    clean clean_from clean_part clean_parts go_up is_abs is_dot_dot is_skipped join render
    append_event insert_event insert_job overwrite update_job update_job_state update_row
    write_state exec_once retry_loop settle attempt emit
submitted = refl

enqueue_submission-repeated_example :
    let w' = (enqueue_submission server request start).1 in
    (row : Job) × ((enqueue_submission server request w').0 ≡ ok (row, true))
    × (row.id ≡ first_job.id)
    × ((enqueue_submission server request w').1.db ≡ w'.db)
enqueue_submission-repeated_example =
    enqueue_submission-repeated server request start first_job refl (λ n. (lit "c", refl))
      (λ n. refl) submitted

removal_asked : (mark_remove_pending server (lit "a") start).0 ≡ ok tt
unfolding mark_remove_pending get_job_by_public_id request_removal ◌>>=◌ ask lift pure query str_eq
    lit with_text exec_write retry_sqlite_busy append_event insert_event overwrite update_job
    update_job_state update_row write_state exec_once retry_loop settle attempt emit add64 pattern64
    wrap64 ◌+ℤ◌
removal_asked = refl

mark_remove_pending-settles_example :
    let w' = (mark_remove_pending server (lit "a") start).1 in
    IsSettled (lit "a") w'.jobs
    × ((mark_remove_pending server (lit "a") w').0 ≡ ok tt)
    × ((mark_remove_pending server (lit "a") w').1.db ≡ w'.db)
mark_remove_pending-settles_example =
    mark_remove_pending-settles server (lit "a") start (λ n. refl) removal_asked

logged_in : (login fixed_env manager (lit "u") (lit "p") start).0 ≡ ok (lit "c")
unfolding login create_qbit_session insert_session ◌>>=◌ ask lift pure str_eq lit with_text
    exec_write retry_sqlite_busy exec_once retry_loop settle attempt ◌+ℤ◌
logged_in = refl

matching : credentials_match manager (lit "u") (lit "p") ≡ true
unfolding str_eq lit
matching = refl

-- The world behind the login, after another check.
abbrev revisited : World
revisited =
    (valid_session fixed_env (lit "c") (login fixed_env manager (lit "u") (lit "p") start).1).1

still_there : IsSession (lit "c") (fixed_env.now (suc start.tick) +ℤ manager.ttl) revisited.sessions
unfolding login create_qbit_session insert_session ◌>>=◌ ask lift pure str_eq lit with_text
    exec_write retry_sqlite_busy exec_once retry_loop settle attempt ◌+ℤ◌ valid_session
    validate_qbit_session session_live query
still_there = (_, refl, refl)

login-valid_example :
    (lit "c" ≡ lit "c")
    × (IsSession
        (lit "c")
        (fixed_env.now (suc start.tick) +ℤ manager.ttl)
        (login fixed_env manager (lit "u") (lit "p") start).1.sessions)
    × ((valid_session fixed_env (lit "c") revisited).0
        ≡ ok (
            ltb_ℤ
              (fixed_env.now (suc revisited.tick))
              (fixed_env.now (suc start.tick) +ℤ manager.ttl)))
login-valid_example =
    login-valid fixed_env manager (lit "u") (lit "p") (lit "c") (lit "c") start revisited matching
      refl logged_in still_there refl

logged_out : (logout fixed_env (99 ∷ []) start).0 ≡ ok tt
unfolding logout delete_qbit_session ◌>>=◌ ask lift pure str_eq with_text exec_write
    retry_sqlite_busy exec_once retry_loop settle attempt
logged_out = refl

logout-forbids_example :
    let w' = (logout fixed_env (99 ∷ []) start).1 in
    (find (with_sid (99 ∷ [])) w'.sessions ≡ none)
    × ((middleware {R = ℕ} fixed_env (some (99 ∷ [])) 403 (pure 200) w').0 ≡ ok 403)
logout-forbids_example = logout-forbids {R = ℕ} fixed_env 99 [] 403 (pure 200) start logged_out

toy_floats-IsOrdered : IsOrdered toy_floats
unfolding ltb_ℤ
toy_floats-IsOrdered = record { zero_zero = refl; one_zero = refl; one_one = refl }

project_qbit_torrent-accounts_example :
    let info = project_qbit_torrent toy_floats (job_in (lit "a") local_downloading) in
    (info.completed +ℤ info.amount_left ≡ info.size) × IsShare toy_floats info.progress
project_qbit_torrent-accounts_example =
    project_qbit_torrent-accounts toy_floats (job_in (lit "a") local_downloading)
      toy_floats-IsOrdered (omega arith, omega arith) (omega arith, omega arith)
