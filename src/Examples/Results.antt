-- ===== src/Examples/Results.antt =====
-- Names and verified parts at concrete inputs.
use tor_boxarr.Base.{
  [], add64, all, arith, eqb_ℤ, false, leb_ℤ, length, lit, ltb_ℤ, none, pos, refl, some, str_eq,
  true, ◌+ℤ◌, ◌-ℤ◌, ◌∷◌, ◌≡◌, ◌≤◌, ◌⊎◌,
}
use tor_boxarr.Examples.Data.{demo, fixed_env, job_in, world_with}
use tor_boxarr.Files.Downloader.{Outcome, end_of_body, read_body}
use tor_boxarr.Files.Downloader.Count.{read_body-counted}
use tor_boxarr.Files.Layout.{completed_name, max_filename_bytes}
use tor_boxarr.Files.Layout.Names.{IsPlain, completed_name-IsPlain, is_dot}
use tor_boxarr.Model.{TransferPart, local_downloading, local_verify, zero_time}
use tor_boxarr.Store.Jobs.{
  append_event, insert_event, overwrite, update_job, update_row, write_state,
}
use tor_boxarr.Store.Parts.{upsert_part, upsert_transfer_part}
use tor_boxarr.Store.Retry.{exec_once, exec_write, retry_loop, retry_sqlite_busy, settle}
use tor_boxarr.Torbox.Client.{ok}
use tor_boxarr.Worker.Download.Progress.{
  Session, checkpoint, make_visible, on_progress, reset_5xx_count, should_checkpoint_progress,
}
use tor_boxarr.Worker.Finalize.Verified.{AllWhole, IsSentBack, finalize_parts-verified}
use tor_boxarr.World.{ask, attempt, emit, pure, with_text, ◌>>=◌}

legal_id : IsPlain (lit "a1")
unfolding lit
legal_id = refl

short_id : length (lit "a1") ≤ 254
unfolding lit
short_id = omega arith

completed_name-IsPlain_example :
    (length (completed_name (lit "../Show: 1") (lit "a1")) ≤ max_filename_bytes)
    × IsPlain (completed_name (lit "../Show: 1") (lit "a1"))
    × (all is_dot (completed_name (lit "../Show: 1") (lit "a1")) ≡ false)
completed_name-IsPlain_example =
    completed_name-IsPlain (lit "../Show: 1") (lit "a1") legal_id short_id

abbrev short_part : TransferPart
short_part = record {
  id = pos 1;
  job_id = lit "a";
  part_key = lit "1";
  file_id = none;
  source_url = lit "u";
  temp_path = lit "/data/s/a/b.mkv";
  relative_path = lit "b.mkv";
  content_length = pos 12;
  bytes_done = pos 10;
  etag = none;
  completed = true;
  created_at = pos 1;
  updated_at = pos 1;
}

finalize_parts-verified_example :
    (AllWhole fixed_env 0 (short_part ∷ []))
    ⊎ (IsSentBack demo (job_in (lit "a") local_verify) (short_part ∷ []) (world_with local_verify))
finalize_parts-verified_example =
    finalize_parts-verified demo (job_in (lit "a") local_verify) short_part []
      (world_with local_verify)

abbrev session : Session
session = record { job = job_in (lit "a") local_downloading; visible = false; last_persist = pos 1 }

-- What the callback of the worker makes of it.
abbrev received : Outcome Session
received = record {
  state = record {
    job = record (job_in (lit "a") local_downloading) {
      bytes_total = pos 13;
      bytes_done = pos 7;
      next_run_at = some (pos 6);
      updated_at = pos 2;
    };
    visible = true;
    last_persist = pos 7;
  };
  part = record short_part { content_length = pos 13; bytes_done = pos 13; updated_at = pos 7 };
  error = none;
}

receives :
    (read_body demo.env
      (on_progress demo)
      (4 ∷ 0 ∷ 6 ∷ [])
      none
      (pos 13)
      (pos 3)
      false
      0
      session
      short_part
      (world_with local_downloading)).0
    ≡ ok received
unfolding read_body end_of_body ◌>>=◌ pure ask emit add64 eqb_ℤ on_progress make_visible checkpoint
    should_checkpoint_progress reset_5xx_count write_state update_job append_event exec_write
    retry_sqlite_busy exec_once retry_loop settle attempt update_row overwrite insert_event
    upsert_transfer_part upsert_part with_text str_eq lit ltb_ℤ leb_ℤ ◌+ℤ◌ ◌-ℤ◌ zero_time
receives = refl

read_body-counted_example : received.part.bytes_done ≡ pos 13
read_body-counted_example =
    read_body-counted demo (4 ∷ 0 ∷ 6 ∷ []) none (pos 13) 3 false session short_part
      (world_with local_downloading) received (omega arith) receives refl
