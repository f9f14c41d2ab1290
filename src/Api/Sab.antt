-- ===== src/Api/Sab.antt =====
-- internal/api/sab.go: the handlers of the SABnzbd interface.
use tor_boxarr.Api.Categories.{sab_category_configs, sab_category_names}
use tor_boxarr.Api.Http.{
  Request, Response, added, categories_page, category_names, checked, config_json, error_json,
  error_text, get, history_json, json_500, not_added, plain, queue_json, removed_ids,
}
use tor_boxarr.Api.Library.{Server}
use tor_boxarr.Api.Qbit.{create_directory, files_of, visible_with_progress}
use tor_boxarr.Api.Removal.{delete_nzo_ids}
use tor_boxarr.Api.Submission.{SubmissionRequest, enqueue_submission}
use tor_boxarr.Api.Words.{first_non_empty, parse_int_or, split_csv}
use tor_boxarr.Base.{
  Bool, List, Str, [], false, has_prefix, if◌then◌else◌, is_empty, is_some, lit, negsuc, none, not,
  some, str_eq, to_lower, trim_space, ◌&&◌, ◌++◌, ◌∷◌,
}
use tor_boxarr.Compat.Floats.{Floats}
use tor_boxarr.Compat.Sab.{nzo_id, project_sab_history, project_sab_queue}
use tor_boxarr.Files.Payload.{Upload}
use tor_boxarr.Model.{Job, SubmissionMetadata, nzb, sab}
use tor_boxarr.Paths.{dir, join}
use tor_boxarr.Torbox.Client.{Error, Result, err, ok}
use tor_boxarr.World.{M, attempt, pure, ◌>>=◌, ◌>>◌}

-- The value of a field: in the form, or else in the query.
abbrev pub field : Request → List Str → Str
field r keys = first_non_empty (both r keys)
  where
    both : Request → List Str → List Str
    both r [] = []
    both r (key ∷ keys) = get r.form key ∷ get r.query key ∷ both r keys

abbrev pub is_multipart : Request → Bool
is_multipart r = has_prefix r.content_type (lit "multipart/")

abbrev pub lower_field : Str → Str
lower_field v = to_lower (trim_space v)

-- The mode and the key: of the query, or else of the form if the body is not multipart.
unfoldable pub mode_of : Request → Str
mode_of r =
    let mode = lower_field (get r.query (lit "mode")) in
    if is_empty mode && not (is_multipart r) then lower_field (get r.form (lit "mode")) else mode

unfoldable pub key_given : Request → Str
key_given r =
    let key = first_non_empty (get r.query (lit "apikey") ∷ get r.query (lit "nzbkey") ∷ []) in
    if is_empty key && not (is_multipart r)
    then first_non_empty (get r.form (lit "apikey") ∷ get r.form (lit "nzbkey") ∷ [])
    else key

-- The fields of a submission through this interface that a request sets.
abbrev pub sab_metadata : Server → Request → Str → SubmissionMetadata
sab_metadata s r filename = record {
  save_path = [];
  rename = [];
  tags = [];
  skip_checking = false;
  paused = false;
  root_folder = false;
  password = field r (lit "password" ∷ []);
  post_processing = parse_int_or s.library (field r (lit "pp" ∷ [])) (negsuc 0);
  as_queued = false;
  add_only_if_cached = false;
  uploaded_filename = filename;
  original_filename = filename;
}

abbrev pub url_request : Server → Request → SubmissionRequest
url_request s r = record {
  source_type = nzb;
  client_kind = sab;
  category = field r (lit "cat" ∷ []);
  display_name = field r (lit "nzbname" ∷ lit "title" ∷ []);
  source_uri = field r (lit "name" ∷ lit "url" ∷ []);
  info_hash = [];
  payload_name = [];
  payload_body = none;
  metadata = sab_metadata s r [];
}

abbrev pub nzb_request : Server → Request → Upload → SubmissionRequest
nzb_request s r file =
    let job_name = field r (lit "nzbname" ∷ []) in
    record {
      source_type = nzb;
      client_kind = sab;
      category = field r (lit "cat" ∷ []);
      display_name = if is_empty job_name then file.filename else job_name;
      source_uri = [];
      info_hash = [];
      payload_name = file.filename;
      payload_body = some file;
      metadata = sab_metadata s r file.filename;
    }

-- The ids of the submissions that were accepted.
abbrev pub accepted_id : Result (Job × Bool) → List Str
accepted_id (ok (job, seen)) = nzo_id job.public_id ∷ []
accepted_id (err x) = []

unfoldable pub add_nzbs : Server → Request → List Upload → M (List Str)
add_nzbs s r [] = pure []
add_nzbs s r (file ∷ files) =
    let rest = add_nzbs s r files in
    if is_some file.open_error then rest else (do
      result ← attempt (enqueue_submission s (nzb_request s r file))
      ids ← rest
      pure (accepted_id result ++ ids))

unfoldable pub multipart_files : List (Str × List Upload) → List Str → List Upload
multipart_files files [] = []
multipart_files files (key ∷ keys) = files_of key files ++ multipart_files files keys

module _ (fl : Floats) (s : Server) where
  abbrev pub Reply : Type 0
  Reply = M (Response fl.Float)

  unfoldable pub handle_sab_get_config : Reply
  handle_sab_get_config = do
    categories ← sab_category_configs s
    pure (plain 200 (config_json s.staging_dir s.completed_dir categories))

  unfoldable pub handle_sab_get_cats : Reply
  handle_sab_get_cats = do names ← sab_category_names s; pure (plain 200 (category_names names))

  abbrev pub category_dir : Str → Str → Str
  category_dir name dir = if not (str_eq name (lit "*")) && is_empty dir then name else dir

  abbrev pub make_category : Str → M (Unit {0})
  make_category [] = pure tt
  make_category (c ∷ dir) = create_directory fl s (join (s.completed_dir ∷ (c ∷ dir) ∷ []))

  abbrev pub set_category : Request → Str → Reply
  set_category r [] = pure (plain 400 (error_json (lit "category name is required")))
  set_category r (c ∷ name) =
      checked json_500
        (make_category (category_dir (c ∷ name) (trim_space (field r (lit "dir" ∷ [])))))
        λ _. handle_sab_get_config

  unfoldable pub handle_sab_set_config : Request → Reply
  handle_sab_set_config r =
      if not (str_eq (lower_field (field r (lit "section" ∷ []))) (lit "categories"))
      then pure (plain 400 (error_json (lit "unsupported section")))
      else set_category r (lower_field (field r (lit "keyword" ∷ lit "name" ∷ [])))

  unfoldable pub handle_sab_config_categories : Request → Reply
  handle_sab_config_categories r =
      if not (str_eq r.path (lit "/config/categories"))
        && not (str_eq r.path (lit "/config/categories/"))
      then pure (plain 404 (error_text (lit "404 page not found")))
      else if not (str_eq r.method (lit "GET"))
      then pure (plain 405 (error_text (lit "Method Not Allowed")))
      else (do categories ← sab_category_configs s; pure (plain 200 (categories_page categories)))

  abbrev pub not_accepted : Error → Response fl.Float
  not_accepted x = plain 500 (not_added x.message)

  unfoldable pub handle_sab_add_url : Request → Reply
  handle_sab_add_url r =
      checked not_accepted (enqueue_submission s (url_request s r))
        λ found. pure (plain 200 (added (nzo_id found.0.public_id ∷ [])))

  abbrev pub answer_ids : List Str → Response fl.Float
  answer_ids [] = plain 500 (not_added (lit "no nzb files accepted"))
  answer_ids (id ∷ ids) = plain 200 (added (id ∷ ids))

  unfoldable pub handle_sab_add_file : Request → Reply
  handle_sab_add_file r = do
    ids ← add_nzbs s r (multipart_files r.files (lit "nzbfile" ∷ lit "name" ∷ lit "file" ∷ []))
    pure (answer_ids ids)

  abbrev pub wanted_category : Request → Str
  wanted_category r =
      let category = trim_space (field r (lit "cat" ∷ lit "category" ∷ [])) in
      if str_eq category (lit "*") then [] else category

  unfoldable pub handle_sab_queue : Request → Reply
  handle_sab_queue r =
      checked json_500 (visible_with_progress fl s sab (wanted_category r)) λ jobs.
        pure (plain 200 (queue_json (project_sab_queue fl s.compatibility.sab_version jobs)))

  unfoldable pub handle_sab_history : Request → Reply
  handle_sab_history r =
      checked json_500 (visible_with_progress fl s sab (wanted_category r)) λ jobs.
        pure (plain 200 (history_json (project_sab_history fl s.compatibility.sab_version jobs)))

  -- `handleSABDeleteFromQueue` and `handleSABDeleteFromHistory`, which differ in a log line.
  unfoldable pub handle_sab_delete : Request → Reply
  handle_sab_delete r =
      let ids = split_csv (field r (lit "value" ∷ [])) in
      delete_nzo_ids s ids >> pure (plain 200 (removed_ids ids))
