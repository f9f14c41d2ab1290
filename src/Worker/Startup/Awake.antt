-- ===== src/Worker/Startup/Awake.antt =====
-- A job that sleeps is due again after start-up.
use tor_boxarr.Base.{
  Bool, Bool-cases, Option, Str, any, arith, false, inl, inr, none, refl, some, str_eq, suc, true,
  ℕ, ◌&&◌, ◌≡◌,
}
use tor_boxarr.Files.Layout.{Layout}
use tor_boxarr.Model.{Job, Time}
use tor_boxarr.Store.Audit.{exec_write-once, update_row-fits}
use tor_boxarr.Store.Jobs.{overwrite, update_clash, update_job, update_row}
use tor_boxarr.Torbox.Client.{Result, ok}
use tor_boxarr.Worker.Helpers.{Orchestrator, needs_wakeup}
use tor_boxarr.Worker.Startup.{
  check_completed, check_staging, exists, found_file, is_done, is_local, reconcile_job, staged,
  staging_of, wake,
}
use tor_boxarr.World.{Env, World, ask, ignore, pure, with_text, ◌>>=◌}

-- The job as it is written when it is woken at a time.
abbrev pub woken : Layout → Job → Time → Job
woken l job now = record (staged l job) { next_run_at = some now; updated_at = now }

-- A look at a path, if there is one, changes nothing.
record Looked (m : World → Result Bool × World) (w : World) : Type 0 where
  answer : Bool
  tick : ℕ
  same : m w ≡ (ok answer, record w { tick = tick })

exists-Looked : (e : Env) (path : Option Str) (w : World) → Looked (exists e path) w
unfolding pure ask
exists-Looked e none w = record { answer = false; tick = w.tick; same = refl }
exists-Looked e (some path) w = record {
  answer = found_file (e.stat w.tick path);
  tick = suc w.tick;
  same = refl;
}

exists-none :
    (e : Env) (path : Option Str) (w : World) → path ≡ none → exists e path w ≡ (ok false, w)
unfolding pure
exists-none e none w h = refl
exists-none e (some path) w h = cc

module _ (o : Orchestrator) (job : Job) (calm : (n : ℕ) → o.env.exec_fault n ≡ none)
    (sleeps : needs_wakeup job.state ≡ true) (unset : job.next_run_at ≡ none) where
  IsWoken : World → Result (Unit {0}) × World → Type 0
  IsWoken w run =
      (now : Time) × (run.0 ≡ ok tt) × (run.1.jobs ≡ overwrite (woken o.layout job now) w.jobs)

  wake-IsWoken :
      (w : World)
      → any (λ row. str_eq row.id job.id) w.jobs ≡ true
      → any (update_clash job) w.jobs ≡ false
      → IsWoken w (wake o (staged o.layout job) w)
  unfolding wake IsWoken update_job ◌>>=◌ ask ignore with_text
  wake-IsWoken w there fits =
      let now = o.env.now w.tick in
      let written =
        exec_write-once o.env (update_row (woken o.layout job now)) (record w { tick = suc w.tick })
          tt (record w.db { jobs = overwrite (woken o.layout job now) w.jobs }) (calm (suc w.tick))
          (update_row-fits (woken o.layout job now) w.db there fits) in
      simp (sleeps, unset) (now, refl, rw written refl)

  staging-IsWoken :
      (w : World)
      → is_local job.state ≡ false
      → any (λ row. str_eq row.id job.id) w.jobs ≡ true
      → any (update_clash job) w.jobs ≡ false
      → IsWoken w (check_staging o (staged o.layout job) w)
  unfolding check_staging ◌>>=◌ IsWoken
  staging-IsWoken w remote there fits =
      let looked = exists-Looked o.env (staging_of o.layout job job.staging_path) w in
      simp (looked.same, remote, and_false looked.answer)
        (wake-IsWoken (record w { tick = looked.tick }) there fits)
    where
      and_false : (b : Bool) → (b && false) ≡ false
      and_false b = ground arith

  completed-IsWoken :
      (w : World)
      → job.completed_path ≡ none
      → is_local job.state ≡ false
      → any (λ row. str_eq row.id job.id) w.jobs ≡ true
      → any (update_clash job) w.jobs ≡ false
      → IsWoken w (check_completed o (staged o.layout job) w)
  unfolding check_completed ◌>>=◌ IsWoken pure
  completed-IsWoken w gone remote there fits =
      simp (exists-none o.env job.completed_path w gone) (staging-IsWoken w remote there fits)

  job-IsWoken :
      (w : World)
      → job.completed_path ≡ none
      → is_local job.state ≡ false
      → any (λ row. str_eq row.id job.id) w.jobs ≡ true
      → any (update_clash job) w.jobs ≡ false
      → IsWoken w (reconcile_job o job w)
  unfolding reconcile_job ◌>>=◌ IsWoken pure
  job-IsWoken w gone remote there fits = elim (Bool-cases (is_done job.state)) [
    | inl finished ↦
        simp (finished, exists-none o.env job.completed_path w gone)
          (completed-IsWoken w gone remote there fits)
    | inr running ↦ simp running (completed-IsWoken w gone remote there fits)
  ]

-- Where writes of the database do not fail: a job that waits for a worker but has no time to run, has
-- no completed path and is not in its local download, whose row is there and whose submission key is
-- no other open row's, is written by the reconciliation at start-up with a time to run, and no other
-- row changes.
pub reconcile_job-wakes :
    (o : Orchestrator) (job : Job) (w : World)
    → ((n : ℕ) → o.env.exec_fault n ≡ none)
    → needs_wakeup job.state ≡ true
    → job.next_run_at ≡ none
    → job.completed_path ≡ none
    → is_local job.state ≡ false
    → any (λ row. str_eq row.id job.id) w.jobs ≡ true
    → any (update_clash job) w.jobs ≡ false
    → (now : Time) × ((reconcile_job o job w).0 ≡ ok tt)
      × ((reconcile_job o job w).1.jobs ≡ overwrite (woken o.layout job now) w.jobs)
unfolding IsWoken
reconcile_job-wakes o job w calm sleeps unset gone remote there fits =
    job-IsWoken o job calm sleeps unset w gone remote there fits
