-- ===== src/Store/Claims.antt =====
-- internal/store/store.go: claims on due jobs, and the pruning of removed jobs.
use tor_boxarr.Base.{
  ℤ, pos, Str, Bool, not, ◌&&◌, none, some, List, [], ◌∷◌, map, filter, any, length, if◌then◌else◌,
  lit, str_eq, is_none, text_le,
}
use tor_boxarr.Model.{Job, JobState, Time, removed, state_eq}
use tor_boxarr.World.{Env, M, pure, ◌>>=◌, ◌>>◌, ask, with_text, fault, lift}
use tor_boxarr.Torbox.Client.{ok, wrap}
use tor_boxarr.Store.Retry.{Statement, exec_write, query, retry_sqlite_busy}
use tor_boxarr.Store.Jobs.{oldest_first, limited, time_due, in_states, get_jobs_by_ids}

-- The rows that the SELECT of `ClaimJobsDue` finds.
abbrev pub claimable : Env → List JobState → Time → Job → Bool
claimable e states now row =
    in_states states row.state && time_due e now row.next_run_at && is_none row.claimed_by

abbrev pub due_rows : Env → List JobState → Time → ℤ → List Job → List Job
due_rows e states now limit rows =
    limited limit (oldest_first e (filter (claimable e states now) rows))

abbrev pub ids_of : List Job → List Str
ids_of rows = map (λ row. row.id) rows

unfoldable pub mark_claimed : Str → Time → List Str → List Job → List Job
mark_claimed worker now ids [] = []
mark_claimed worker now ids (row ∷ rows) =
    (if any (str_eq row.id) ids
      then record row { claimed_by = some worker; claimed_at = some now }
      else row)
    ∷ mark_claimed worker now ids rows

-- The transaction: nothing is written if a statement or the commit fails, or if no job is due.
unfoldable pub claim_tx : Env → Str → List Str → Time → M (List Str)
claim_tx e worker [] now = pure []
claim_tx e worker (i ∷ is) now = do
  updated ← ask e.exec_fault
  with_text (wrap (lit "claim jobs")) (lift (fault updated))
  committed ← ask e.exec_fault
  with_text (wrap (lit "commit claim")) (lift (fault committed))
  claim_rows
  where
    claim_rows : M (List Str)
    claim_rows w = (
      ok (i ∷ is),
      record w { db = record w.db { jobs = mark_claimed worker now (i ∷ is) w.jobs } },
    )

unfoldable pub claim_once : Env → Str → List JobState → Time → ℤ → M (List Str)
claim_once e worker states now limit = do
  begun ← ask e.exec_fault
  with_text (wrap (lit "begin tx")) (lift (fault begun))
  ids ←
      with_text (wrap (lit "select due jobs"))
        (query e (λ t. ids_of (due_rows e states now limit t.jobs)))
  claim_tx e worker ids now

unfoldable pub claim_jobs_due : Env → Str → List JobState → Time → ℤ → M (List Job)
claim_jobs_due e worker [] now limit = pure []
claim_jobs_due e worker (s ∷ ss) now limit = do
  ids ← retry_sqlite_busy e (claim_once e worker (s ∷ ss) now limit)
  get_jobs_by_ids e ids

abbrev pub unclaimed : Job → Job
unclaimed row = record row { claimed_by = none; claimed_at = none }

unfoldable pub clear_claim : Str → List Job → List Job
clear_claim id [] = []
clear_claim id (row ∷ rows) =
    (if str_eq row.id id then unclaimed row else row) ∷ clear_claim id rows

unfoldable pub release_job_claim : Env → Str → M (Unit {0})
release_job_claim e id = exec_write e (λ t. ok (tt, record t { jobs = clear_claim id t.jobs }))

unfoldable pub release_all_claims : Env → M (Unit {0})
release_all_claims e = exec_write e (λ t. ok (tt, record t { jobs = map unclaimed t.jobs }))

-- A removed job that was last changed before the cutoff.
abbrev pub prunable : Env → Time → Job → Bool
prunable e cutoff row =
    state_eq row.state removed
    && not (text_le (e.format_time cutoff) (e.format_time row.updated_at))

-- Deletes cascade to the parts and the events of the jobs that go.
unfoldable pub prune_rows : Env → Time → Statement ℤ
prune_rows e cutoff t = ok (
  pos (length gone),
  record t {
    jobs = filter (λ row. not (prunable e cutoff row)) t.jobs;
    parts = filter (λ p. not (any (str_eq p.job_id) (ids_of gone))) t.parts;
    events = filter (λ v. not (any (str_eq v.job_id) (ids_of gone))) t.events;
  },
)
  where
    gone : List Job
    gone = filter (prunable e cutoff) t.jobs

unfoldable pub delete_removed_older_than : Env → Time → M ℤ
delete_removed_older_than e cutoff =
    with_text (wrap (lit "prune removed jobs")) (exec_write e (prune_rows e cutoff))
