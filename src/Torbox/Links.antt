-- ===== src/Torbox/Links.antt =====
-- internal/torbox/download.go: the links of a task, and `HTTPClient` as a `Client`.
pub mod Complete
use tor_boxarr.Base.{Bool, List, Str, [], false, if◌then◌else◌, lit, pos, true, ℕ, ◌++◌, ◌+◌, ◌∷◌}
use tor_boxarr.Compat.Floats.{Floats}
use tor_boxarr.Paths.{clean}
use tor_boxarr.Torbox.Client.{
  Client, DownloadAsset, RemoteFile, Result, err, new_error, ok, require_remote_id,
}
use tor_boxarr.Torbox.Json.{Fields}
use tor_boxarr.Torbox.Parse.{extract_remote_files, or_first, parse_link}
use tor_boxarr.Torbox.Service.{Service, do_call, unless, wait_for, ◌>>?◌}
use tor_boxarr.Torbox.Tasks.{
  create_torrent_task, create_usenet_task, find_active_task, get_call, get_queued_status,
  get_remote_items, get_task_status, if_set, if_text, is_torrent_type, is_usenet_type, unknown_type,
}

module _ (fl : Floats) (s : Service fl) where
  abbrev pub link_query : Str → Bool → List (Str × Str)
  link_query file_id zip_link =
      (lit "token", s.api_token)
      ∷ (lit "redirect", lit "false")
      ∷ (if_set zip_link (lit "zip_link") (lit "true") ++ if_text (lit "file_id") file_id)

  abbrev pub link_at : ℕ → ℕ → Str → List (Str × Str) → Result Str
  link_at n k path args =
      do_call fl s n k (get_call fl s path args) >>? λ env. parse_link fl s.decoding env.data_field

  unfoldable pub request_download_link : ℕ → ℕ → Str → Str → Str → Bool → Result Str
  request_download_link n k source_type remote_id file_id zip_link =
      if is_torrent_type source_type
      then link_at n k (lit "/api/torrents/requestdl")
          ((lit "torrent_id", remote_id) ∷ link_query file_id zip_link)
      else if is_usenet_type source_type
      then link_at n k (lit "/api/usenet/requestdl")
          ((lit "usenet_id", remote_id) ∷ link_query file_id zip_link)
      else unknown_type fl s source_type

  abbrev pub asset_of : RemoteFile → Str → DownloadAsset
  asset_of file link = record {
    file_id = file.file_id;
    url = link;
    relative_path = clean (or_first file.relative_path (or_first file.short_name file.name));
    size = file.size;
  }

  -- The loop over the files, at the call `k` of the method.
  unfoldable pub links_from : ℕ → ℕ → Str → Str → List RemoteFile → Result (List DownloadAsset)
  links_from n k source_type remote_id [] = ok []
  links_from n k source_type remote_id (file ∷ files) = wait_for fl s s.download_wait n k >>? λ _.
      request_download_link n (k + 1) source_type remote_id file.file_id false >>? λ link.
      links_from n (k + 2) source_type remote_id files >>? λ assets.
      ok (asset_of file link ∷ assets)

  abbrev pub zip_asset : Str → DownloadAsset
  zip_asset link = record {
    file_id = [];
    url = link;
    relative_path = lit "payload.zip";
    size = pos 0;
  }

  abbrev pub links_or_zip : ℕ → Str → Str → List RemoteFile → Result (List DownloadAsset)
  links_or_zip n source_type remote_id [] = wait_for fl s s.download_wait n 2 >>? λ _.
      request_download_link n 3 source_type remote_id [] true >>? λ link. ok (zip_asset link ∷ [])
  links_or_zip n source_type remote_id (file ∷ files) =
      links_from n 2 source_type remote_id (file ∷ files)

  abbrev pub links_of_first : ℕ → Str → Str → List (Fields fl.Float) → Result (List DownloadAsset)
  links_of_first n source_type remote_id [] = err (new_error (lit "empty item response"))
  links_of_first n source_type remote_id (m ∷ ms) =
      links_or_zip n source_type remote_id (extract_remote_files fl s.decoding m)

  unfoldable pub get_download_links : ℕ → Str → Str → Result (List DownloadAsset)
  get_download_links n source_type remote_id = unless (require_remote_id remote_id) >>? λ _.
      wait_for fl s s.poll_wait n 0 >>? λ _.
      get_remote_items fl s n 1 source_type remote_id >>? λ items.
      links_of_first n source_type remote_id items

  -- `HTTPClient` as a `Client`.
  unfoldable pub http_client : Client
  http_client = record {
    create_torrent_task = create_torrent_task fl s;
    create_usenet_task = create_usenet_task fl s;
    get_queued_status = get_queued_status fl s;
    get_task_status = get_task_status fl s;
    find_active_task = find_active_task fl s;
    get_download_links = get_download_links;
  }
