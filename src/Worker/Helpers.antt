-- ===== src/Worker/Helpers.antt =====
-- internal/worker/helpers.go: part keys, safe paths, byte counts, jitter and display names; and the
-- fields of `Orchestrator` (internal/worker/orchestrator.go) and of the configuration it reads.
use tor_boxarr.Base.{
  ℕ, ℤ, pos, Bool, true, false, not, ◌&&◌, ◌||◌, Option, none, some, List, [], ◌∷◌, ◌++◌, Str,
  if◌then◌else◌, ◌==◌, leb, lit, str_eq, is_empty, trim_space, add64, quot_ℤ, max_ℤ, ltb_ℤ, leb_ℤ,
  show_nat_3, map, any, has_prefix, equal_fold, split, all,
}
use tor_boxarr.Model.{
  Job, TransferPart, JobState, Duration, submit_pending, submit_retry, remote_queued, remote_active,
  local_download_pending, local_downloading, local_verify, remove_pending, SourceType, torrent, nzb,
  other_source,
}
use tor_boxarr.Torbox.Client.{Result, ok, err, new_error, DownloadAsset}
use tor_boxarr.World.{Env, M, pure, ask, ignore, ◌>>=◌}
use tor_boxarr.Files.Layout.{Layout}
use tor_boxarr.Paths.{clean, absolute, rel, dot, dot_dot, slash}
use tor_boxarr.Store.Claims.{release_job_claim}

-- `Config.Workers`. The two bounds of the backoff are not negative.
pub record Workers : Type 0 where
  pub poll_interval : Duration
  pub download_interval : Duration
  pub submit_retry_min : ℕ
  pub submit_retry_max : ℕ
  pub removed_retention : Duration
  pub batch_size : ℤ

pub record Orchestrator : Type 0 where
  pub env : Env
  pub layout : Layout
  pub workers : Workers

-- `string(job.SourceType)`.
unfoldable pub source_text : SourceType → Str
source_text torrent = lit "torrent"
source_text nzb = lit "nzb"
source_text (other_source s) = s

unfoldable pub sum_lengths : ℤ → List TransferPart → ℤ
sum_lengths total [] = total
sum_lengths total (p ∷ ps) = sum_lengths (add64 total p.content_length) ps

unfoldable pub sum_done : ℤ → List TransferPart → ℤ
sum_done done [] = done
sum_done done (p ∷ ps) = sum_done (add64 done p.bytes_done) ps

unfoldable pub sync_job_bytes_from_parts : Job → List TransferPart → Job
sync_job_bytes_from_parts job parts =
    let total = sum_lengths (pos 0) parts in
    record job {
      bytes_total = if ltb_ℤ (pos 0) total then total else job.bytes_total;
      bytes_done = sum_done (pos 0) parts;
    }

unfoldable pub all_parts_completed : List TransferPart → Bool
all_parts_completed [] = false
all_parts_completed (p ∷ ps) = all (λ q. q.completed) (p ∷ ps)

unfoldable pub part_key : DownloadAsset → ℕ → Str
part_key asset idx =
    if is_empty asset.file_id then lit "asset-" ++ show_nat_3 idx else asset.file_id

abbrev pub is_letter : ℕ → Bool
is_letter c = (leb b'a' c && leb c b'z') || (leb b'A' c && leb c b'Z')

unfoldable pub has_windows_drive_prefix : Str → Bool
has_windows_drive_prefix (c ∷ d ∷ s) = d == b':' && is_letter c
has_windows_drive_prefix (c ∷ []) = false
has_windows_drive_prefix [] = false

abbrev pub forward_slash : ℕ → ℕ
forward_slash c = if c == 92 then slash else c

-- A part that a safe path must not have.
unfoldable pub is_unsafe_part : Str → Bool
is_unsafe_part p = is_empty p || str_eq p dot || str_eq p dot_dot

unfoldable pub fallback_path : ℕ → Str
fallback_path idx = lit "asset-" ++ (show_nat_3 idx ++ lit ".bin")

unfoldable pub safe_cleaned : Str → ℕ → Str
safe_cleaned cleaned idx =
    if str_eq cleaned dot || str_eq cleaned (slash ∷ [])
    then fallback_path idx
    else if any is_unsafe_part (split slash cleaned)
    then fallback_path idx
    else cleaned

unfoldable pub safe_normalized : Str → ℕ → Str
safe_normalized normalized idx =
    if str_eq normalized dot
      || has_prefix normalized (slash ∷ [])
      || has_prefix normalized (slash ∷ slash ∷ [])
      || has_windows_drive_prefix normalized
    then fallback_path idx
    else safe_cleaned (clean normalized) idx

unfoldable pub safe_relative_path : Str → ℕ → Str
safe_relative_path value idx =
    let v = trim_space value in
    if is_empty v then fallback_path idx else safe_normalized (map forward_slash v) idx

abbrev pub needs_wakeup : JobState → Bool
needs_wakeup submit_pending = true
needs_wakeup submit_retry = true
needs_wakeup remote_queued = true
needs_wakeup remote_active = true
needs_wakeup local_download_pending = true
needs_wakeup local_downloading = true
needs_wakeup local_verify = true
needs_wakeup remove_pending = true
needs_wakeup _ = false

unfoldable pub with_jitter : Env → Duration → M Duration
with_jitter e base =
    if leb_ℤ base (pos 0)
    then pure (pos 0)
    else ask (λ n. e.random n (max_ℤ (quot_ℤ base 5) (pos 1))) >>= λ extra. pure (add64 base extra)

abbrev pub deref : Option Str → Str
deref none = []
deref (some s) = s

abbrev pub ptr : Str → Option Str
ptr [] = none
ptr (c ∷ s) = some (c ∷ s)

-- The relative path stays at or below the root.
unfoldable pub rel_within : Option Str → Bool
rel_within none = false
rel_within (some r) =
    not (str_eq (clean r) dot_dot || has_prefix (clean r) (dot_dot ++ (slash ∷ [])))

unfoldable pub ensure_path_within_root : Env → Str → Str → Result (Unit {0})
ensure_path_within_root e root target =
    if rel_within (rel (absolute e.cwd root) (absolute e.cwd target))
    then ok tt
    else err (
        new_error (
          lit "path "
          ++ (e.quote (absolute e.cwd target)
              ++ (lit " escapes root " ++ e.quote (absolute e.cwd root)))))

-- Errors of the release are logged only.
unfoldable pub release_claim : Orchestrator → Str → M (Unit {0})
release_claim o job_id = ignore (release_job_claim o.env job_id)

abbrev pub folds_to : Str → Option Str → Bool
folds_to cur none = false
folds_to cur (some h) = equal_fold cur h

unfoldable pub take_remote_name : Env → Job → Str → Job
take_remote_name e job raw =
    let name = e.html_unescape (trim_space raw) in
    let cur = trim_space job.display_name in
    if is_empty name
    then job
    else if is_empty cur || folds_to cur job.info_hash || folds_to cur job.remote_hash
    then record job { display_name = name }
    else job
