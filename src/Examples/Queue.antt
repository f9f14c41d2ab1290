-- ===== src/Examples/Queue.antt =====
-- The store and the retry loops at concrete inputs.
use tor_boxarr.Base.{
  [], any, arith, contains, false, insert_by, lit, pos, refl, some, sort_by, str_eq, suc, text_le,
  to_lower, true, ℕ, ◌*◌, ◌++◌, ◌+◌, ◌/◌, ◌∷◌, ◌≡◌, ◌≤◌,
}
use tor_boxarr.Examples.Data.{demo, fixed_env, job_in, world_with}
use tor_boxarr.Model.{Job, remote_active, submit_pending}
use tor_boxarr.Store.Audit.{told, update_job_state-audited}
use tor_boxarr.Store.Claims.{claim_jobs_due, claim_once, claim_tx, ids_of, mark_claimed}
use tor_boxarr.Store.Exclusion.{Spares, claim_jobs_due-exclusive}
use tor_boxarr.Store.Jobs.{
  create_job, get_jobs_by_ids, insert_job, moved, overwrite, update_clash, update_job_state,
}
use tor_boxarr.Store.Keys.{IsKeyed}
use tor_boxarr.Store.Keys.Writes.{job_writes-IsKeyed}
use tor_boxarr.Store.Retry.{
  exec_once, is_sqlite_busy, query, retry_base_delay, retry_loop, retry_sqlite_busy, settle,
}
use tor_boxarr.Store.RetryBound.{
  IsBusy, behind_sleeps, retry_loop-fuel, retry_sqlite_busy-persistent,
}
use tor_boxarr.Torbox.Client.{Error, err, new_error, ok}
use tor_boxarr.Worker.Submit.{backoff_delay, submit_backoff}
use tor_boxarr.Worker.Submit.Backoff.{IsRandom, backoff_delay-doubles, cap, submit_backoff-bounds}
use tor_boxarr.World.{Env, M, ask, attempt, fail, lift, pure, with_text, ◌>>=◌}

busy_error : Error
busy_error = new_error (lit "database is locked")

fixed_env-IsRandom : IsRandom fixed_env
fixed_env-IsRandom n b h = (0, refl, h)

submit_backoff-bounds_example :
    (wait : ℕ) × ((submit_backoff demo (pos 3) (world_with submit_pending)).0 ≡ ok (pos wait))
    × (backoff_delay 10 100 (pos 3) ≤ wait)
    × (wait ≤ backoff_delay 10 100 (pos 3) + backoff_delay 10 100 (pos 3) / 5)
    × (backoff_delay 10 100 (pos 3) ≤ 100)
submit_backoff-bounds_example =
    submit_backoff-bounds demo (pos 3) (world_with submit_pending) fixed_env-IsRandom (omega arith)

backoff_delay-doubles_example :
    (backoff_delay 10 100 (pos 1) ≡ cap 100 10)
    × (backoff_delay 10 100 (pos 4) ≡ cap 100 (2 * backoff_delay 10 100 (pos 3)))
backoff_delay-doubles_example = backoff_delay-doubles 10 100 2

retry_loop-fuel_example :
    retry_loop fixed_env 9 0 retry_base_delay
      (exec_once fixed_env (insert_job (job_in (lit "c") submit_pending)))
      (world_with submit_pending)
    ≡ retry_sqlite_busy fixed_env
        (exec_once fixed_env (insert_job (job_in (lit "c") submit_pending)))
        (world_with submit_pending)
retry_loop-fuel_example =
    retry_loop-fuel fixed_env (exec_once fixed_env (insert_job (job_in (lit "c") submit_pending))) 9
      (world_with submit_pending) (omega arith)

busy : is_sqlite_busy busy_error ≡ true
unfolding is_sqlite_busy busy_error new_error lit contains to_lower
busy = refl

-- A database that is locked all along, and a write to it.
abbrev locked_env : Env
locked_env = record fixed_env { exec_fault = λ n. some busy_error }

abbrev refused_write : M (Unit {0})
refused_write = exec_once locked_env λ t. insert_job (job_in (lit "c") submit_pending) t

refused_write-IsBusy : IsBusy refused_write
unfolding exec_once ◌>>=◌ ask fail
refused_write-IsBusy w = (busy_error, suc w.tick, busy, refl)

retry_sqlite_busy-persistent_example :
    (x : Error) × (n : ℕ) × (is_sqlite_busy x ≡ true)
    × (retry_sqlite_busy locked_env refused_write (world_with submit_pending) ≡ (
      err x,
      behind_sleeps n
          (25_000_000 ∷ 50_000_000 ∷ 100_000_000 ∷ 200_000_000 ∷ 250_000_000 ∷ [])
          (world_with submit_pending),
    ))
retry_sqlite_busy-persistent_example =
    retry_sqlite_busy-persistent locked_env refused_write (world_with submit_pending)
      refused_write-IsBusy (λ n. refl)

keyed : IsKeyed (world_with submit_pending).jobs
unfolding str_eq lit
keyed = (refl, (refl, tt))

job_writes-IsKeyed_example :
    IsKeyed
      (create_job fixed_env (job_in (lit "c") submit_pending) (world_with submit_pending)).1.jobs
    × IsKeyed
        (update_job_state fixed_env
          (job_in (lit "c") submit_pending)
          remote_active
          (lit "moved")
          (world_with submit_pending)).1.jobs
job_writes-IsKeyed_example =
    job_writes-IsKeyed fixed_env (job_in (lit "c") submit_pending) remote_active (lit "moved")
      (world_with submit_pending) keyed

abbrev claimed_job : Job
claimed_job = record (job_in (lit "a") submit_pending) {
  claimed_by = some (lit "submitter");
  claimed_at = some (pos 5);
}

claimed_first :
    (claim_jobs_due fixed_env
      (lit "submitter")
      (submit_pending ∷ [])
      (pos 5)
      (pos 25)
      (world_with submit_pending)).0
    ≡ ok (claimed_job ∷ [])
unfolding claim_jobs_due claim_once claim_tx mark_claimed retry_sqlite_busy retry_loop settle
    get_jobs_by_ids query ◌>>=◌ pure attempt ask lift with_text sort_by insert_by text_le str_eq lit
claimed_first = refl

claim_jobs_due-exclusive_example :
    Spares fixed_env
      (ids_of (claimed_job ∷ []))
      (claim_jobs_due fixed_env
        (lit "submitter")
        (submit_pending ∷ [])
        (pos 5)
        (pos 25)
        (world_with submit_pending)).1.jobs
claim_jobs_due-exclusive_example =
    claim_jobs_due-exclusive fixed_env (lit "submitter") (submit_pending ∷ []) (pos 5) (pos 25)
      (world_with submit_pending) (claimed_job ∷ []) claimed_first

row_there : any (λ row. str_eq row.id (lit "a")) (world_with submit_pending).jobs ≡ true
unfolding str_eq lit
row_there = refl

no_clash :
    any
      (update_clash (moved (job_in (lit "a") submit_pending) remote_active (pos 0)))
      (world_with submit_pending).jobs
    ≡ false
unfolding str_eq lit
no_clash = refl

update_job_state-audited_example :
    let job = job_in (lit "a") submit_pending in
    let w = world_with submit_pending in
    let r = update_job_state fixed_env job remote_active (lit "moved") w in
    (r.0 ≡ ok (moved job remote_active (pos 0)))
    × (r.1.jobs ≡ overwrite (moved job remote_active (pos 0)) w.jobs)
    × (r.1.events ≡ w.events ++ (told fixed_env w job remote_active (lit "moved") ∷ []))
update_job_state-audited_example =
    update_job_state-audited fixed_env (job_in (lit "a") submit_pending) remote_active (lit "moved")
      (world_with submit_pending) (λ n. refl) row_there no_clash
