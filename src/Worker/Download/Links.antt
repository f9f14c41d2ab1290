-- ===== src/Worker/Download/Links.antt =====
-- internal/worker/download.go: which asset belongs to a part, and a fresh link after an HTTP error.
use tor_boxarr.Base.{
  ℕ, ◌+◌, pos, Bool, true, false, not, ◌&&◌, ◌||◌, Option, none, some, List, [], ◌∷◌, Str,
  if◌then◌else◌, ◌==◌, ltb, leb, lit, is_empty, str_eq, trim_space, ltb_ℤ, eqb_ℤ,
}
use tor_boxarr.Model.{Job, TransferPart}
use tor_boxarr.Torbox.Client.{Error, Result, ok, err, wrap, DownloadAsset}
use tor_boxarr.World.{M, pure, ask, attempt, ◌>>=◌}
use tor_boxarr.Store.Parts.{upsert_transfer_part}
use tor_boxarr.Worker.Helpers.{Orchestrator, source_text, part_key, safe_relative_path, deref}

abbrev pub is_refresh_5xx : ℕ → Bool
is_refresh_5xx code = leb 500 code && ltb code 600

abbrev pub should_refresh_link : ℕ → Bool
should_refresh_link code = code == 404 || is_refresh_5xx code

abbrev pub same_file : Option Str → Str → Bool
same_file none id = false
same_file (some f) id = not (is_empty f) && str_eq id f

unfoldable pub part_matches_asset : TransferPart → DownloadAsset → ℕ → Bool
part_matches_asset part asset idx =
    str_eq part.part_key (part_key asset idx)
    || same_file part.file_id asset.file_id
    || str_eq part.relative_path (safe_relative_path asset.relative_path idx)

-- The loop of `findMatchingDownloadAsset`, from the index `idx`.
unfoldable pub find_match_from : TransferPart → ℕ → List DownloadAsset → Option DownloadAsset
find_match_from part idx [] = none
find_match_from part idx (a ∷ assets) =
    if part_matches_asset part a idx then some a else find_match_from part (idx + 1) assets

unfoldable pub find_matching_download_asset :
    TransferPart → List DownloadAsset → Option DownloadAsset
find_matching_download_asset part assets = find_match_from part 0 assets

-- The part with the link, the file id and, if it had none, the size of the asset.
abbrev pub relinked : TransferPart → DownloadAsset → TransferPart
relinked part asset = record part {
  source_url = asset.url;
  file_id = if is_empty asset.file_id then part.file_id else some asset.file_id;
  content_length =
      if ltb_ℤ (pos 0) asset.size && eqb_ℤ part.content_length (pos 0)
      then asset.size
      else part.content_length;
}

-- The part as it is in memory afterwards, and whether it was refreshed.
abbrev pub Refreshed : Type 0
Refreshed = TransferPart × Result Bool

abbrev pub persisted : TransferPart → Result (Unit {0}) → Refreshed
persisted part (ok _) = (part, ok true)
persisted part (err x) = (part, err (wrap (lit "persist refreshed transfer part") x))

abbrev pub use_asset : Orchestrator → TransferPart → Option DownloadAsset → M Refreshed
use_asset o part none = pure (part, ok false)
use_asset o part (some asset) =
    if is_empty asset.url || str_eq asset.url part.source_url then pure (part, ok false) else (do
      now ← ask o.env.now
      let part = record (relinked part asset) { updated_at = now }
      stored ← attempt (upsert_transfer_part o.env part)
      pure (persisted part stored))

abbrev pub use_links : Orchestrator → TransferPart → Result (List DownloadAsset) → M Refreshed
use_links o part (err x) = pure (part, err (wrap (lit "refresh download links") x))
use_links o part (ok assets) = use_asset o part (find_matching_download_asset part assets)

abbrev pub refreshable : Option ℕ → Bool
refreshable none = false
refreshable (some code) = should_refresh_link code

unfoldable pub refresh_download_part_source_url :
    Orchestrator → Job → TransferPart → Error → M Refreshed
refresh_download_part_source_url o job part x =
    if not (refreshable x.http_status) || is_empty (trim_space (deref job.remote_id))
    then pure (part, ok false)
    else (do
      links ←
          ask λ n.
            o.env.client.get_download_links n (source_text job.source_type) (deref job.remote_id)
      use_links o part links)
