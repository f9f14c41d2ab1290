-- ===== src/Api/Qbit.antt =====
-- internal/api/qbit.go: the handlers of the qBittorrent interface. A handler never fails: its result
-- is an answer.
use tor_boxarr.Api.Categories.{qbit_categories}
use tor_boxarr.Api.Http.{
  Request, Response, checked, empty_body, error_500, error_text, get, plain, plain_text,
  qbit_categories_json, torrents, transfer,
}
use tor_boxarr.Api.Library.{Server}
use tor_boxarr.Api.Progress.{with_local_transfer_progress}
use tor_boxarr.Api.Removal.{Deletions, delete_hashes}
use tor_boxarr.Api.Source.{extract_info_hash, magnet_name}
use tor_boxarr.Api.Submission.{SubmissionRequest, enqueue_submission}
use tor_boxarr.Api.Words.{
  filter_jobs_by_public_ids, first_non_empty, parse_bool, split_csv, split_pipe,
}
use tor_boxarr.Auth.Qbit.{login, logout}
use tor_boxarr.Base.{
  Bool, List, Option, Str, [], false, filter, if◌then◌else◌, is_empty, is_some, leb_ℤ, lit, map,
  none, not, pos, some, sort_by, split, str_eq, trim_space, ℕ, ◌&&◌, ◌+◌, ◌==◌, ◌∷◌,
}
use tor_boxarr.Compat.Floats.{Floats}
use tor_boxarr.Compat.Qbit.{project_qbit_torrent, project_qbit_transfer_info}
use tor_boxarr.Files.Payload.{Upload}
use tor_boxarr.Model.{ClientKind, Job, SubmissionMetadata, qbit, torrent}
use tor_boxarr.Paths.{join}
use tor_boxarr.Store.Jobs.{list_visible_client_jobs}
use tor_boxarr.Torbox.Client.{Error, Result, err, ok}
use tor_boxarr.World.{M, ask, attempt, emit, fault, ignore, lift, made_dir, pure, ◌>>=◌, ◌>>◌}

-- `strings.FieldsFunc` at line ends, where the empty pieces are skipped by the loop over them.
unfoldable pub lines_of : Str → List Str
lines_of v =
    filter (λ line. not (is_empty line)) (split 10 (map (λ c. if c == 13 then 10 else c) v))

abbrev pub counted_submission : ℕ → Result (Job × Bool) → ℕ
counted_submission created (ok _) = created + 1
counted_submission created (err x) = created

abbrev pub name_of_line : Server → Str → Str → Str
name_of_line s rename line =
    if is_empty rename
    then first_non_empty (magnet_name s.library line ∷ extract_info_hash s.library line ∷ line ∷ [])
    else rename

-- What the fields of the form say of every submission.
pub record AddForm : Type 0 where
  pub category : Str
  pub rename : Str
  pub metadata : SubmissionMetadata

unfoldable pub add_form : Request → AddForm
add_form r =
    let rename = trim_space (get r.post_form (lit "rename")) in
    record {
      category = trim_space (get r.post_form (lit "category"));
      rename = rename;
      metadata = record {
        save_path = get r.post_form (lit "savepath");
        rename = rename;
        tags = split_csv (get r.post_form (lit "tags"));
        skip_checking = parse_bool (get r.post_form (lit "skip_checking"));
        paused = parse_bool (get r.post_form (lit "paused"));
        root_folder = parse_bool (get r.post_form (lit "root_folder"));
        password = [];
        post_processing = pos 0;
        as_queued = false;
        add_only_if_cached = false;
        uploaded_filename = [];
        original_filename = [];
      };
    }

abbrev pub line_request : Server → AddForm → Str → SubmissionRequest
line_request s f line = record {
  source_type = torrent;
  client_kind = qbit;
  category = f.category;
  display_name = name_of_line s f.rename line;
  source_uri = line;
  info_hash = extract_info_hash s.library line;
  payload_name = [];
  payload_body = none;
  metadata = f.metadata;
}

abbrev pub file_request : AddForm → Upload → SubmissionRequest
file_request f file = record {
  source_type = torrent;
  client_kind = qbit;
  category = f.category;
  display_name = first_non_empty (f.rename ∷ file.filename ∷ []);
  source_uri = [];
  info_hash = [];
  payload_name = file.filename;
  payload_body = some file;
  metadata = record f.metadata {
    uploaded_filename = file.filename;
    original_filename = file.filename;
  };
}

unfoldable pub add_lines : Server → AddForm → ℕ → List Str → M ℕ
add_lines s f created [] = pure created
add_lines s f created (line ∷ lines) =
    let line = trim_space line in
    if is_empty line
    then add_lines s f created lines
    else attempt (enqueue_submission s (line_request s f line)) >>= λ result.
        add_lines s f (counted_submission created result) lines

abbrev pub add_file : Server → AddForm → ℕ → Upload → M ℕ
add_file s f created file =
    if is_some file.open_error
    then pure created
    else attempt (enqueue_submission s (file_request f file)) >>= λ result.
        pure (counted_submission created result)

unfoldable pub add_files : Server → AddForm → ℕ → List Upload → M ℕ
add_files s f created [] = pure created
add_files s f created (file ∷ files) =
    add_file s f created file >>= λ created. add_files s f created files

abbrev pub files_of : Str → List (Str × List Upload) → List Upload
files_of key [] = []
files_of key ((k, files) ∷ groups) = if str_eq k key then files else files_of key groups

abbrev pub body_error : Request → Option Error
body_error r =
    if str_eq r.media_type (lit "multipart/form-data") then r.multipart_error else r.form_error

module _ (fl : Floats) (s : Server) where
  abbrev pub Answer : Type 0
  Answer = M (Response fl.Float)

  abbrev pub bad_request : Error → Response fl.Float
  bad_request x = plain 400 (error_text x.message)

  -- The answer `Fails.` has the status 200 where the credentials are wrong.
  abbrev pub login_answer : Result Str → Response fl.Float
  login_answer (ok sid) = record {
    status = 200;
    set_cookie = some sid;
    body = plain_text (lit "Ok.");
  }
  login_answer (err x) = plain 200 (error_text (lit "Fails."))

  unfoldable pub handle_qbit_login : Request → Answer
  handle_qbit_login r =
      if is_some r.form_error
      then pure (plain 400 (error_text (lit "Fails.")))
      else attempt (
          login s.env s.qbit_auth (get r.post_form (lit "username"))
            (get r.post_form (lit "password")))
        >>= λ result. pure (login_answer result)

  abbrev pub end_session : Option Str → M (Unit {0})
  end_session none = pure tt
  end_session (some sid) = ignore (logout s.env sid)

  unfoldable pub handle_qbit_logout : Request → Answer
  handle_qbit_logout r =
      end_session r.cookie
      >> pure (record { status = 200; set_cookie = some []; body = plain_text (lit "Ok.") })

  unfoldable pub handle_qbit_categories : Request → Answer
  handle_qbit_categories r =
      checked error_500 (qbit_categories s)
        λ payload. pure (plain 200 (qbit_categories_json payload))

  abbrev pub save_path_of : Request → Str → Str
  save_path_of r category =
      let path = trim_space (get r.post_form (lit "savePath")) in
      if is_empty path then join (s.completed_dir ∷ category ∷ []) else path

  abbrev pub create_directory : Str → M (Unit {0})
  create_directory path =
      emit (made_dir path) >> ask (λ n. s.env.mkdir_all n path) >>= λ f. lift (fault f)

  abbrev pub create_named : Request → Str → Answer
  create_named r [] = pure (plain 400 (error_text (lit "category is required")))
  create_named r (c ∷ category) =
      checked error_500 (create_directory (save_path_of r (c ∷ category)))
        λ _. pure (plain 200 empty_body)

  abbrev pub parsed : Request → Answer → Option Error → Answer
  parsed r next none = next
  parsed r next (some x) = pure (bad_request x)

  unfoldable pub handle_qbit_create_category : Request → Answer
  handle_qbit_create_category r =
      parsed r (create_named r (trim_space (get r.post_form (lit "category")))) r.form_error

  unfoldable pub visible_with_progress : ClientKind → Str → M (List Job)
  visible_with_progress kind category = do
    jobs ← list_visible_client_jobs s.env kind category (pos 1000)
    with_local_transfer_progress s.env jobs

  unfoldable pub handle_qbit_transfer_info : Request → Answer
  handle_qbit_transfer_info r =
      checked error_500 (visible_with_progress qbit [])
        λ jobs. pure (plain 200 (transfer (project_qbit_transfer_info fl jobs)))

  unfoldable pub handle_qbit_add : Request → Answer
  handle_qbit_add r = parsed r added_all (body_error r)
    where
      added_all : Answer
      added_all = do
        created ← add_lines s (add_form r) 0 (lines_of (trim_space (get r.post_form (lit "urls"))))
        created ← add_files s (add_form r) created (files_of (lit "torrents") r.files)
        pure (plain 200 (plain_text (if created == 0 then lit "Fails." else lit "Ok.")))

  abbrev pub shown_jobs : Request → List Job → List Job
  shown_jobs r jobs =
      sort_by (λ a b. leb_ℤ a.created_at b.created_at)
        (filter_jobs_by_public_ids jobs (split_pipe (get r.query (lit "hashes"))))

  unfoldable pub handle_qbit_info : Request → Answer
  handle_qbit_info r =
      checked error_500 (visible_with_progress qbit (trim_space (get r.query (lit "category"))))
        λ jobs. pure (plain 200 (torrents (map (project_qbit_torrent fl) (shown_jobs r jobs))))

  abbrev pub answer_deletions : Deletions → Response fl.Float
  answer_deletions d =
      if d.accepted_count == 0 && is_some d.last_error
      then plain 500 (error_text (lit "Internal Server Error"))
      else plain 200 empty_body

  unfoldable pub handle_qbit_delete : Request → Answer
  handle_qbit_delete r =
      parsed r
        (do
          d ←
              delete_hashes s (record { accepted_count = 0; last_error = none })
                (split_pipe (get r.post_form (lit "hashes")))
          pure (answer_deletions d))
        r.form_error
