-- ===== src/Examples/Remote.antt =====
-- The client of the service at concrete inputs.
use tor_boxarr.Base.{
  Str, [], drop_while, equal_fold, false, if◌then◌else◌, is_some, leb_ℤ, lit, none, pos, refl, some,
  str_eq, to_lower, trim, trim_space, true, ℤ, ◌+◌, ◌∷◌, ◌≡◌, ◌≤◌,
}
use tor_boxarr.Examples.Fixtures.{toy_floats}
use tor_boxarr.Torbox.Client.{
  DownloadAsset, Error, TaskStatus, err, is_retryable, mark_retryable, ok, require_remote_id,
}
use tor_boxarr.Torbox.Fields.{first_string, stringify}
use tor_boxarr.Torbox.Json.{Fields, entry, lookup, no_fields, object, string}
use tor_boxarr.Torbox.Limiter.{
  Bucket, and_then, at_end, count, granted, grants, is_granted, is_tick, new_token_bucket,
  take_token,
}
use tor_boxarr.Torbox.Limiter.Rate.{new_token_bucket-bounds}
use tor_boxarr.Torbox.Links.{get_download_links, request_download_link}
use tor_boxarr.Torbox.Links.Complete.{HasLinks, get_download_links-HasLinks}
use tor_boxarr.Torbox.Parse.{
  extract_active_id, extract_remote_files, parse_items, parse_link, parse_task_status,
}
use tor_boxarr.Torbox.Service.{Call, Service, answered, do_call, read_wire, status_text, wait_for}
use tor_boxarr.Torbox.Service.Retry.{do_call-is_transient, is_transient}
use tor_boxarr.Torbox.Tasks.{active_among, find_active_task, get_remote_items, is_match, is_usenet}
use tor_boxarr.Torbox.Tasks.Match.{
  find_active_task-is_wanted, find_active_task-other_auth, is_clear, is_wanted,
}

-- Every answer is an object with an id and a link; the status 503 for a form with a file.
abbrev toy_answer : Fields ℤ
toy_answer = entry (lit "id") (string (lit "7")) (entry (lit "url") (string (lit "u")) no_fields)

abbrev toy_service : Service toy_floats
toy_service = record {
  decoding = record { parse_float = λ s. none; parse_bool = λ s. none; print = λ v. [] };
  api_token = lit "t";
  create_wait = λ n k. none;
  poll_wait = λ n k. none;
  download_wait = λ n k. none;
  send = λ n k call. if is_some call.file then answered 503 [] else answered 200 (lit "{}");
  unmarshal = λ raw.
      ok (record {
        success = true;
        error = none;
        detail = [];
        data_field = some (object toy_answer);
      });
  encode = λ ps. [];
  attach = λ n k path. none;
  quote = λ s. s;
}

abbrev zip_link : DownloadAsset
zip_link = record { file_id = []; url = lit "u"; relative_path = lit "payload.zip"; size = pos 0 }

links_found :
    get_download_links toy_floats toy_service 0 (lit "torrent") (lit "7") ≡ ok (zip_link ∷ [])
unfolding get_download_links require_remote_id wait_for get_remote_items do_call read_wire
    parse_items extract_remote_files lookup request_download_link parse_link first_string stringify
    trim_space trim drop_while to_lower str_eq lit
links_found = refl

get_download_links-HasLinks_example : HasLinks (zip_link ∷ [])
get_download_links-HasLinks_example =
    get_download_links-HasLinks toy_floats toy_service 0 (lit "torrent") (lit "7") (zip_link ∷ [])
      links_found

abbrev found_status : TaskStatus
found_status = parse_task_status toy_floats toy_service.decoding (lit "torrent") toy_answer

task_found :
    find_active_task toy_floats toy_service 0 (lit "torrent") (lit "7") [] []
    ≡ ok (some found_status)
unfolding find_active_task active_among is_match wait_for get_remote_items do_call read_wire
    parse_items extract_active_id lookup first_string stringify trim_space trim drop_while to_lower
    str_eq lit equal_fold
task_found = refl

find_active_task-is_wanted_example :
    (is_wanted (lit "torrent") (lit "7") [] [] found_status ≡ true) × (is_clear found_status ≡ true)
find_active_task-is_wanted_example =
    find_active_task-is_wanted toy_floats toy_service 0 (lit "torrent") (lit "7") [] [] found_status
      task_found

not_usenet : is_usenet (lit "nzb") ≡ false
unfolding equal_fold to_lower str_eq lit
not_usenet = refl

find_active_task-other_auth_example :
    find_active_task toy_floats toy_service 0 (lit "nzb") [] (lit "a") []
    ≡ find_active_task toy_floats toy_service 0 (lit "nzb") [] (lit "b") []
find_active_task-other_auth_example =
    find_active_task-other_auth toy_floats toy_service 0 (lit "nzb") [] (lit "a") (lit "b") []
      not_usenet

abbrev form_call : Call
form_call = record {
  method = lit "POST";
  path = lit "/api/torrents/createtorrent";
  fields = (lit "name", lit "Show") ∷ [];
  file = some (lit "p");
}

abbrev busy_answer : Error
busy_answer = mark_retryable (status_text 503 [])

call_failed : do_call toy_floats toy_service 0 2 form_call ≡ err busy_answer
unfolding do_call read_wire lit
call_failed = refl

unmarked : (raw : Str) (y : Error) → toy_service.unmarshal raw ≡ err y → y.retryable ≡ false
unmarked raw y h = cc

do_call-is_transient_example :
    is_retryable busy_answer ≡ is_transient (toy_service.send 0 2 form_call)
do_call-is_transient_example =
    do_call-is_transient toy_floats toy_service 0 2 form_call busy_answer unmarked tt call_failed

abbrev full_bucket : Bucket
full_bucket = record { capacity = 2; tokens = 2; tick_every = 2; closed = false; running = true }

abbrev lower_bucket : Bucket
lower_bucket = record { capacity = 2; tokens = 1; tick_every = 2; closed = false; running = true }

made : new_token_bucket (pos 2) (pos 5) ≡ some full_bucket
unfolding new_token_bucket leb_ℤ
made = refl

took : take_token full_bucket ≡ some lower_bucket
unfolding take_token
took = refl

new_token_bucket-bounds_example :
    (1 ≤ 2) × (count is_granted (granted ∷ []) ≤ 2 + count is_tick (granted ∷ []))
new_token_bucket-bounds_example =
    new_token_bucket-bounds 2 (pos 5) full_bucket lower_bucket (granted ∷ []) made
      (and_then (grants full_bucket lower_bucket took) (at_end lower_bucket))
