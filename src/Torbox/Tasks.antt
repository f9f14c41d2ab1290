-- ===== src/Torbox/Tasks.antt =====
-- internal/torbox/tasks.go: tasks are created and found.
pub mod Match
use tor_boxarr.Base.{
  Bool, List, Option, Str, [], eqb_ℤ, equal_fold, if◌then◌else◌, is_empty, lit, none, not, pos,
  show_int, some, str_eq, to_lower, trim_space, true, ℕ, ℤ, ◌&&◌, ◌++◌, ◌||◌, ◌∷◌,
}
use tor_boxarr.Compat.Floats.{Floats}
use tor_boxarr.Torbox.Client.{
  CreateTaskResponse, CreateTorrentTaskRequest, CreateUsenetTaskRequest, Result, TaskStatus, err,
  new_error, ok,
}
use tor_boxarr.Torbox.Fields.{first_string}
use tor_boxarr.Torbox.Json.{Fields}
use tor_boxarr.Torbox.Parse.{
  extract_active_id, extract_queued_id, parse_create_task, parse_items, parse_task_status,
}
use tor_boxarr.Torbox.Service.{Call, Service, do_call, unless, wait_for, ◌>>?◌}

abbrev pub if_set : Bool → Str → Str → List (Str × Str)
if_set b key value = if b then (key, value) ∷ [] else []

abbrev pub if_text : Str → Str → List (Str × Str)
if_text key [] = []
if_text key (c ∷ s) = (key, c ∷ s) ∷ []

abbrev pub if_number : Str → Option ℤ → List (Str × Str)
if_number key none = []
if_number key (some n) = (key, show_int n) ∷ []

unfoldable pub torrent_fields : CreateTorrentTaskRequest → List (Str × Str)
torrent_fields r =
    if_text (lit "name") r.name
    ++ (if_text (lit "magnet") r.magnet
        ++ (if_set (not (eqb_ℤ r.seed (pos 0))) (lit "seed") (show_int r.seed)
            ++ (if_set r.allow_zip (lit "allow_zip") (lit "true")
                ++ (if_set r.as_queued (lit "as_queued") (lit "true")
                    ++ if_set r.add_only_if_cached (lit "add_only_if_cached") (lit "true")))))

unfoldable pub usenet_fields : CreateUsenetTaskRequest → List (Str × Str)
usenet_fields r =
    if_text (lit "link") r.link
    ++ (if_text (lit "name") r.name
        ++ (if_text (lit "password") r.password
            ++ (if_number (lit "post_processing") r.post_processing
                ++ (if_set r.as_queued (lit "as_queued") (lit "true")
                    ++ if_set r.add_only_if_cached (lit "add_only_if_cached") (lit "true")))))

abbrev pub payload_of : Str → Option Str
payload_of [] = none
payload_of (c ∷ path) = some (c ∷ path)

abbrev pub is_usenet : Str → Bool
is_usenet source_type = equal_fold source_type (lit "usenet")

-- A service of the API for a source type: its list, its links and the name of its ids.
abbrev pub is_torrent_type : Str → Bool
is_torrent_type source_type = str_eq (to_lower source_type) (lit "torrent")

abbrev pub is_usenet_type : Str → Bool
is_usenet_type source_type =
    str_eq (to_lower source_type) (lit "nzb") || str_eq (to_lower source_type) (lit "usenet")

abbrev pub same_text : Str → Str → Bool
same_text wanted found = not (is_empty (trim_space wanted)) && str_eq found (trim_space wanted)

module _ (fl : Floats) (s : Service fl) where
  abbrev pub get_call : Str → List (Str × Str) → Call
  get_call path args = record {
    method = lit "GET";
    path = path ++ (b'?' ∷ s.encode args);
    fields = [];
    file = none;
  }

  abbrev pub unknown_type : {A : Type 0} → Str → Result A
  unknown_type source_type = err (new_error (lit "unknown source type " ++ s.quote source_type))

  abbrev pub attached : ℕ → Option Str → Result (Unit {0})
  attached n none = ok tt
  attached n (some path) = unless (s.attach n 1 path)

  unfoldable pub post_task : ℕ → Str → List (Str × Str) → Str → Result (Option CreateTaskResponse)
  post_task n path fields payload = wait_for fl s s.create_wait n 0 >>? λ _.
      attached n (payload_of payload) >>? λ _.
      do_call fl s n 2
        (record { method = lit "POST"; path = path; fields = fields; file = payload_of payload })
      >>? λ env. parse_create_task fl s.decoding env.data_field >>? λ task. ok (some task)

  unfoldable pub create_torrent_task :
      ℕ → CreateTorrentTaskRequest → Result (Option CreateTaskResponse)
  create_torrent_task n r =
      post_task n (lit "/api/torrents/createtorrent") (torrent_fields r) r.payload_path

  unfoldable pub create_usenet_task :
      ℕ → CreateUsenetTaskRequest → Result (Option CreateTaskResponse)
  create_usenet_task n r =
      post_task n (lit "/api/usenet/createusenetdownload") (usenet_fields r) r.payload_path

  abbrev pub items_at : ℕ → ℕ → Str → List (Str × Str) → Result (List (Fields fl.Float))
  items_at n k path args =
      do_call fl s n k (get_call path args) >>? λ env. parse_items fl s.decoding env.data_field

  abbrev pub remote_query : Str → List (Str × Str)
  remote_query remote_id =
      (lit "bypass_cache", lit "true") ∷ if_text (lit "id") (trim_space remote_id)

  unfoldable pub get_remote_items : ℕ → ℕ → Str → Str → Result (List (Fields fl.Float))
  get_remote_items n k source_type remote_id =
      if is_torrent_type source_type
      then items_at n k (lit "/api/torrents/mylist") (remote_query remote_id)
      else if is_usenet_type source_type
      then items_at n k (lit "/api/usenet/mylist") (remote_query remote_id)
      else unknown_type source_type

  abbrev pub queued_query : Str → Str → List (Str × Str)
  queued_query source_type queued_id =
      (lit "type", to_lower source_type)
      ∷ (lit "bypass_cache", lit "true")
      ∷ (if is_usenet source_type then [] else if_text (lit "id") (trim_space queued_id))

  unfoldable pub get_queued_items : ℕ → ℕ → Str → Str → Result (List (Fields fl.Float))
  get_queued_items n k source_type queued_id =
      items_at n k (lit "/api/queued/getqueued") (queued_query source_type queued_id)

  unfoldable pub queued_among : Str → Str → List (Fields fl.Float) → Option TaskStatus
  queued_among source_type queued_id [] = none
  queued_among source_type queued_id (m ∷ ms) =
      if str_eq (extract_queued_id fl s.decoding m) (trim_space queued_id)
      then some (parse_task_status fl s.decoding source_type m)
      else queued_among source_type queued_id ms

  unfoldable pub get_queued_status : ℕ → Str → Str → Result (Option TaskStatus)
  get_queued_status n source_type queued_id =
      if is_empty (trim_space queued_id)
      then err (new_error (lit "queued id is required"))
      else wait_for fl s s.poll_wait n 0 >>? λ _.
          get_queued_items n 1 source_type queued_id >>? λ items.
          ok (queued_among source_type queued_id items)

  -- The three ways in which an item is the task that is looked for.
  unfoldable pub is_match : Str → Str → Str → Str → Fields fl.Float → Bool
  is_match source_type remote_id queue_auth_id remote_hash m =
      same_text remote_id (extract_active_id fl s.decoding source_type m true)
      || (is_usenet source_type
          && same_text queue_auth_id (first_string fl s.decoding m (lit "auth_id" ∷ [])))
      || same_text remote_hash (first_string fl s.decoding m (lit "hash" ∷ []))

  unfoldable pub active_among : Str → Str → Str → Str → List (Fields fl.Float) → Option TaskStatus
  active_among source_type remote_id queue_auth_id remote_hash [] = none
  active_among source_type remote_id queue_auth_id remote_hash (m ∷ ms) =
      if is_match source_type remote_id queue_auth_id remote_hash m
      then some (parse_task_status fl s.decoding source_type m)
      else active_among source_type remote_id queue_auth_id remote_hash ms

  unfoldable pub find_active_task : ℕ → Str → Str → Str → Str → Result (Option TaskStatus)
  find_active_task n source_type remote_id queue_auth_id remote_hash =
      wait_for fl s s.poll_wait n 0 >>? λ _. get_remote_items n 1 source_type remote_id >>? λ items.
      ok (active_among source_type remote_id queue_auth_id remote_hash items)

  unfoldable pub get_task_status : ℕ → Str → Str → Result (Option TaskStatus)
  get_task_status n source_type remote_id = find_active_task n source_type remote_id [] []
