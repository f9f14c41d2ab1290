-- ===== src/Torbox/Parse.antt =====
-- internal/torbox/parse.go: what an answer of the service tells.
pub mod Verdict
use tor_boxarr.Base.{
  Bool, List, Option, Str, [], any, contains, eqb_ℤ, equal_fold, false, if◌then◌else◌, is_empty,
  lit, ltb_ℤ, none, not, pos, some, str_eq, to_lower, true, ℤ, ◌&&◌, ◌++◌, ◌==◌, ◌||◌, ◌∷◌,
}
use tor_boxarr.Compat.Floats.{Floats}
use tor_boxarr.Diagram.{ready}
use tor_boxarr.Model.{failed, second}
use tor_boxarr.Torbox.Client.{
  CreateTaskResponse, RemoteFile, Result, TaskStatus, err, new_error, ok,
}
use tor_boxarr.Torbox.Fields.{
  bool_field, first_bool, first_float, first_int, first_string, or_bool, stringify,
}
use tor_boxarr.Torbox.Json.{
  Decoding, Fields, Items, Json, array, item, lookup, no_fields, no_items, null, object, string,
}

-- The field `data` of an answer: none is a field that is not there.
abbrev pub Payload : Type 0 → Type 0
Payload Float = Option (Json Float)

abbrev pub active_keys : Str → List Str
active_keys source_type =
    if str_eq source_type (lit "torrent")
    then lit "torrent_id" ∷ lit "download_id" ∷ []
    else if str_eq source_type (lit "nzb") || str_eq source_type (lit "usenet")
    then lit "usenetdownload_id" ∷ lit "usenet_id" ∷ []
    else lit "torrent_id" ∷ lit "usenetdownload_id" ∷ lit "usenet_id" ∷ lit "download_id" ∷ []

-- The text before the first `/`, unless that is the first byte.
unfoldable pub up_to : Str → Str
up_to [] = []
up_to (c ∷ s) = let rest = up_to s in if c == 47 then [] else c ∷ rest

abbrev pub before_slash : Str → Str
before_slash s = if is_empty (up_to s) then s else up_to s

abbrev pub contains_any : List Str → Str → Bool
contains_any words s = any (contains s) words

abbrev pub failure_words : List Str
failure_words =
    lit "fail"
    ∷ lit "error"
    ∷ lit "abort"
    ∷ lit "cancel"
    ∷ lit "cannot be completed"
    ∷ lit "repair failed"
    ∷ lit "incomplete"
    ∷ []

abbrev pub or_first : Str → Str → Str
or_first first second = if is_empty first then second else first

module _ (fl : Floats) (d : Decoding fl) where
  unfoldable pub extract_queued_id : Fields fl.Float → Str
  extract_queued_id m = first_string fl d m (lit "queued_id" ∷ lit "queue_id" ∷ lit "id" ∷ [])

  unfoldable pub extract_active_id : Str → Fields fl.Float → Bool → Str
  extract_active_id source_type m allow_generic_id =
      first_string fl d m
        (active_keys (to_lower source_type) ++ (if allow_generic_id then lit "id" ∷ [] else []))

  unfoldable pub extract_queue_auth_id : Str → Fields fl.Float → Str
  extract_queue_auth_id source_type m =
      let auth_id = first_string fl d m (lit "auth_id" ∷ []) in
      if not (is_empty auth_id)
      then auth_id
      else if not (equal_fold source_type (lit "usenet"))
      then []
      else before_slash (first_string fl d m (lit "torrent_file" ∷ []))

  abbrev pub remote_file : Fields fl.Float → RemoteFile
  remote_file m =
      let name = first_string fl d m (lit "name" ∷ lit "filename" ∷ []) in
      let short_name = first_string fl d m (lit "short_name" ∷ lit "shortName" ∷ []) in
      let path = first_string fl d m (lit "path" ∷ lit "relative_path" ∷ []) in
      record {
        file_id = first_string fl d m (lit "id" ∷ lit "file_id" ∷ []);
        name = name;
        short_name = short_name;
        relative_path = or_first path (or_first short_name name);
        size = first_int fl d m (lit "size" ∷ lit "bytes" ∷ []);
      }

  -- Entries that are not objects are skipped.
  unfoldable pub files_in : Items fl.Float → List RemoteFile
  files_in no_items = []
  files_in (item (object m) items) = remote_file m ∷ files_in items
  files_in (item _ items) = files_in items

  abbrev pub files_under : Option (Json fl.Float) → List RemoteFile
  files_under (some (array items)) = files_in items
  files_under _ = []

  unfoldable pub extract_remote_files : Fields fl.Float → List RemoteFile
  extract_remote_files m = files_under (lookup m (lit "files"))

  abbrev pub ready_of : Option Bool → Option Bool → Str → Bool
  ready_of (some present) listed label = present
  ready_of none (some is_ready) label = is_ready
  ready_of none none label = str_eq label (lit "download ready") || str_eq label (lit "cached")

  -- `BytesDone`, from the progress where the service does not tell it.
  abbrev pub done_or_part : ℤ → ℤ → fl.Float → ℤ
  done_or_part done total progress =
      if eqb_ℤ done (pos 0) && ltb_ℤ (pos 0) total && fl.less (fl.of_int (pos 0)) progress
      then fl.to_int (fl.mul (fl.of_int total) progress)
      else done

  unfoldable pub parse_task_status : Str → Fields fl.Float → TaskStatus
  parse_task_status source_type m =
      let total = first_int fl d m (lit "size" ∷ lit "total_bytes" ∷ lit "download_size" ∷ []) in
      let state =
        to_lower (first_string fl d m (lit "download_state" ∷ lit "status" ∷ lit "state" ∷ [])) in
      let label = to_lower (first_string fl d m (lit "download_label" ∷ lit "label" ∷ [])) in
      let ready =
        ready_of (bool_field fl d m (lit "download_present"))
          (bool_field fl d m (lit "download_ready")) label in
      record {
        remote_id = extract_active_id source_type m true;
        queued_id = extract_queued_id m;
        queue_auth_id = extract_queue_auth_id source_type m;
        hash = first_string fl d m (lit "hash" ∷ []);
        name = first_string fl d m (lit "name" ∷ lit "filename" ∷ lit "title" ∷ []);
        state = state;
        label = label;
        bytes_total = total;
        bytes_done =
            done_or_part (first_int fl d m (lit "downloaded" ∷ lit "downloaded_bytes" ∷ [])) total
              (first_float fl d m (lit "progress" ∷ lit "download_progress" ∷ []));
        download_present = or_bool fl d (bool_field fl d m (lit "download_present")) false;
        download_finished = or_bool fl d (bool_field fl d m (lit "download_finished")) false;
        download_ready = ready;
        failed =
            (contains_any failure_words state
              || contains_any (lit "fail" ∷ lit "incomplete" ∷ []) label)
            && not ready;
        inactive = str_eq label (lit "inactive") || first_bool fl d m (lit "inactive" ∷ []);
        error = first_string fl d m (lit "error" ∷ lit "detail" ∷ lit "message" ∷ []);
        files = extract_remote_files m;
      }

  abbrev pub empty_task : CreateTaskResponse
  empty_task = record {
    remote_id = [];
    queued_id = [];
    queue_auth_id = [];
    remote_hash = [];
    display_name = [];
  }

  abbrev pub id_only : Str → Result CreateTaskResponse
  id_only [] = err (new_error (lit "unable to parse create task response"))
  id_only (c ∷ id) = ok (record empty_task { remote_id = c ∷ id })

  -- `stringify` of what is not an object.
  unfoldable pub parse_create_task : Payload fl.Float → Result CreateTaskResponse
  parse_create_task none = ok empty_task
  parse_create_task (some null) = ok empty_task
  parse_create_task (some (object m)) = ok (record {
    remote_id = extract_active_id [] m true;
    queued_id = extract_queued_id m;
    queue_auth_id = extract_queue_auth_id [] m;
    remote_hash = first_string fl d m (lit "hash" ∷ []);
    display_name = first_string fl d m (lit "name" ∷ lit "filename" ∷ []);
  })
  parse_create_task (some v) = id_only (stringify fl d v)

  -- `[]map[string]any`: objects, and null as an empty one; anything else is an error.
  abbrev pub or_more :
      Fields fl.Float → Option (List (Fields fl.Float)) → Option (List (Fields fl.Float))
  or_more m none = none
  or_more m (some ms) = some (m ∷ ms)

  unfoldable pub objects_of : Items fl.Float → Option (List (Fields fl.Float))
  objects_of no_items = some []
  objects_of (item (object m) items) = or_more m (objects_of items)
  objects_of (item null items) = or_more no_fields (objects_of items)
  objects_of (item _ items) = none

  abbrev pub items_or : Option (List (Fields fl.Float)) → Result (List (Fields fl.Float))
  items_or none = err (new_error (lit "unable to parse item response"))
  items_or (some ms) = ok ms

  unfoldable pub parse_items : Payload fl.Float → Result (List (Fields fl.Float))
  parse_items none = err (new_error (lit "empty item response"))
  parse_items (some null) = err (new_error (lit "empty item response"))
  parse_items (some (object m)) = ok (m ∷ [])
  parse_items (some (array items)) = items_or (objects_of items)
  parse_items (some v) = items_or none

  abbrev pub link_in : Fields fl.Float → Str
  link_in m = first_string fl d m (lit "download_url" ∷ lit "link" ∷ lit "url" ∷ lit "cdn_url" ∷ [])

  unfoldable pub first_link : List (Fields fl.Float) → Str
  first_link [] = []
  first_link (m ∷ ms) = or_first (link_in m) (first_link ms)

  abbrev pub link_or : Str → Result Str
  link_or [] = err (new_error (lit "unable to parse download link response"))
  link_or (c ∷ s) = ok (c ∷ s)

  abbrev pub links_of : Option (List (Fields fl.Float)) → List (Fields fl.Float)
  links_of none = []
  links_of (some ms) = ms

  unfoldable pub parse_link : Payload fl.Float → Result Str
  parse_link none = err (new_error (lit "empty link response"))
  parse_link (some null) = err (new_error (lit "empty link response"))
  parse_link (some (string s)) = link_or s
  parse_link (some (object m)) = link_or (link_in m)
  parse_link (some (array items)) = link_or (first_link (links_of (objects_of items)))
  parse_link (some v) = link_or []
