-- ===== src/Api/Removal.antt =====
-- internal/api/router.go: `markRemovePending`; the loops that call it, of qbit.go and sab.go.
pub mod Settled
use tor_boxarr.Api.Library.{Server}
use tor_boxarr.Base.{List, Option, Str, [], if◌then◌else◌, lit, none, some, true, ℕ, ◌+◌, ◌||◌, ◌∷◌}
use tor_boxarr.Compat.Sab.{normalize_nzo_id}
use tor_boxarr.Model.{Job, remove_pending, removed, state_eq}
use tor_boxarr.Store.Jobs.{get_job_by_public_id, update_job_state}
use tor_boxarr.Torbox.Client.{Error, Result, err, ok}
use tor_boxarr.World.{M, ask, attempt, ignore, pure, ◌>>=◌, ◌>>◌}

unfoldable pub request_removal : Server → Option Job → M (Unit {0})
request_removal s none = pure tt
request_removal s (some job) =
    if state_eq job.state removed || state_eq job.state remove_pending then pure tt else (do
      now ← ask s.env.now
      _ ←
          update_job_state s.env
            (record job { delete_requested = true; next_run_at = some now; updated_at = now })
            remove_pending (lit "remove requested via Arr-compatible API")
      pure tt)

unfoldable pub mark_remove_pending : Server → Str → M (Unit {0})
mark_remove_pending s public_id = get_job_by_public_id s.env public_id >>= request_removal s

-- What the loop of `handleQBitDelete` counts, and whether it saw an error.
pub record Deletions : Type 0 where
  pub accepted_count : ℕ
  pub last_error : Option Error

abbrev pub counted_deletion : Deletions → Result (Unit {0}) → Deletions
counted_deletion d (ok _) = record d { accepted_count = d.accepted_count + 1 }
counted_deletion d (err x) = record d { last_error = some x }

unfoldable pub delete_hashes : Server → Deletions → List Str → M Deletions
delete_hashes s d [] = pure d
delete_hashes s d (hash ∷ hashes) =
    attempt (mark_remove_pending s hash) >>= λ r. delete_hashes s (counted_deletion d r) hashes

-- The loop of the two deletions of sab.go.
unfoldable pub delete_nzo_ids : Server → List Str → M (Unit {0})
delete_nzo_ids s [] = pure tt
delete_nzo_ids s (id ∷ ids) = do
  ignore (mark_remove_pending s (normalize_nzo_id id))
  delete_nzo_ids s ids
