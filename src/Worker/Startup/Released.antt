-- ===== src/Worker/Startup/Released.antt =====
-- After the reconciliation at start-up no job is claimed.
use tor_boxarr.Base.{
  Bool, Bool-cases, List, Option, Str, [], all, and_parts, any, arith, false, inl, inr, is_none,
  map, none, not, refl, some, str_eq, true, ℕ, ◌&&◌, ◌++◌, ◌||◌, ◌∙◌, ◌∷◌, ◌≡◌,
}
use tor_boxarr.Files.Layout.{fs_call, remove_orphan_staging_dirs, remove_orphans}
use tor_boxarr.Model.{Job, JobState, TransferPart}
use tor_boxarr.Paths.{join}
use tor_boxarr.Store.Claims.{release_all_claims, unclaimed}
use tor_boxarr.Store.EventRules.{event-Applied}
use tor_boxarr.Store.Jobs.{
  append_event, insert_clash, list_open_jobs, moved, overwrite, update_clash, update_job,
  update_job_state, update_row, write_state,
}
use tor_boxarr.Store.Keys.{IsKeyed}
use tor_boxarr.Store.Keys.Writes.{update-IsKeyed}
use tor_boxarr.Store.Parts.{list_transfer_parts}
use tor_boxarr.Store.Rules.{Applied, Triple-exec_write}
use tor_boxarr.Torbox.Client.{Error, Result, err, ok}
use tor_boxarr.Worker.Helpers.{Orchestrator, all_parts_completed, needs_wakeup}
use tor_boxarr.Worker.Startup.{
  advance_to_verify, check_completed, check_staging, exists, found_parts, is_done, is_local,
  promote_found, reconcile_job, reconcile_jobs, reconcile_startup, staged, wake, with_staged_parts,
}
use tor_boxarr.World.{Effect, Env, M, Tables, World, ignore}
use tor_boxarr.World.Reads.{Reads, Reads-attempt, Reads-if, Reads-lift, Reads-pure, Reads-query}
use tor_boxarr.World.Triple.{
  Anything, Assertion, Triple, Triple-ask, Triple-bind, Triple-emit, Triple-ignore, Triple-weaken,
  Triple-with_text, after_ok,
}

abbrev pub is_free : Job → Bool
is_free row = is_none row.claimed_by

-- No row has an owner, and the rows are told apart as the unique columns ask.
pub record IsRecovered (jobs : List Job) : Type 0 where
  pub free : all is_free jobs ≡ true
  pub keyed : IsKeyed jobs

abbrev Recovered : Assertion
Recovered t l = IsRecovered t.jobs

unclaimed-free : (jobs : List Job) → all is_free (map unclaimed jobs) ≡ true
unclaimed-free [] = refl
unclaimed-free (job ∷ jobs) = unclaimed-free jobs

unclaimed-clash :
    (job : Job) (rows : List Job)
    → any (insert_clash (unclaimed job)) (map unclaimed rows) ≡ any (insert_clash job) rows
unclaimed-clash job [] = refl
unclaimed-clash job (row ∷ rows) = ground (arith, unclaimed-clash job rows)

unclaimed-IsKeyed : (jobs : List Job) → IsKeyed jobs → IsKeyed (map unclaimed jobs)
unclaimed-IsKeyed [] h = tt
unclaimed-IsKeyed (job ∷ jobs) h = (unclaimed-clash job jobs ∙ h.0, unclaimed-IsKeyed jobs h.1)

overwrite-free :
    (job : Job) (jobs : List Job)
    → all is_free jobs ≡ true
    → all is_free (overwrite job jobs) ≡ true
unfolding overwrite
overwrite-free job [] h = refl
overwrite-free job (row ∷ rows) h =
    let parts = and_parts (is_free row) (all is_free rows) h in
    elim (Bool-cases (str_eq row.id job.id)) [
      | inl same ↦ rw same (overwrite-free job rows parts.1)
      | inr other ↦ rw (other, parts.0) (overwrite-free job rows parts.1)
    ]

update-free :
    (job : Job) (t : Tables) (l : List Effect)
    → all is_free t.jobs ≡ true
    → Applied
        (λ _ t l. all is_free t.jobs ≡ true)
        (λ t l. all is_free t.jobs ≡ true)
        t
        (update_row job t)
        l
unfolding update_row
update-free job t l h =
    elim (Bool-cases (any (λ row. str_eq row.id job.id) t.jobs && any (update_clash job) t.jobs)) [
      | inl clash ↦ rw clash h
      | inr fits ↦ rw fits (overwrite-free job t.jobs h)
    ]

both :
    (t : Tables) (result : Result (Unit {0} × Tables)) (l : List Effect)
    → IsRecovered t.jobs
    → Applied (λ _ t l. all is_free t.jobs ≡ true) (λ t l. all is_free t.jobs ≡ true) t result l
    → Applied (λ _ t l. IsKeyed t.jobs) (λ t l. IsKeyed t.jobs) t result l
    → Applied (λ _. Recovered) Recovered t result l
both t (ok (a, t')) l h free keyed = record { free = free; keyed = keyed }
both t (err x) l h free keyed = h

update-Recovered : (e : Env) (job : Job) → Reads Recovered (update_job e job)
unfolding update_job
update-Recovered e job = Triple-with_text _ (
    Triple-exec_write e _ (λ t l d h. h) (λ t l h. h)
      (λ t l h.
        both t (update_row job t) l h (update-free job t l h.free)
          (update-IsKeyed job t l h.keyed)))

update_state-Recovered :
    (e : Env) (job : Job) (next : JobState) (message : Str)
    → Reads Recovered (update_job_state e job next message)
unfolding update_job_state write_state append_event
update_state-Recovered e job next message = Triple-bind (Triple-ask _) λ now.
    Triple-bind
      (Triple-bind (update-Recovered e (moved job next now)) λ _.
        Triple-bind (Triple-ask _) λ later. Triple-with_text _ (
          Triple-exec_write e _ (λ t l d h. h) (λ t l h. h)
            (event-Applied IsRecovered job.id (some job.state) (some next) message later)))
      λ _. Reads-pure _

ignored : {A : Type 0} {m : M A} → Reads Recovered m → Reads Recovered (ignore m)
ignored h = Triple-ignore h (λ a t l p. p) (λ t l p. p)

release-Recovered :
    (e : Env) → Triple (λ t l. IsKeyed t.jobs) (release_all_claims e) (λ _. Recovered) Anything
unfolding release_all_claims
release-Recovered e =
    Triple-exec_write e _ (λ t l d h. h) (λ t l h. tt)
      (λ t l h. record { free = unclaimed-free t.jobs; keyed = unclaimed-IsKeyed t.jobs h })

module _ (o : Orchestrator) where
  exists-Recovered : (path : Option Str) → Reads Recovered (exists o.env path)
  exists-Recovered none = Reads-pure false
  exists-Recovered (some path) = Triple-ask _

  wake-Recovered : (job : Job) → Reads Recovered (wake o job)
  unfolding wake
  wake-Recovered job =
      Reads-if (needs_wakeup job.state && is_none job.next_run_at)
        (λ _. Triple-bind (Triple-ask _) λ now. ignored (update-Recovered o.env _))
        λ _. Reads-pure tt

  staged_parts-Recovered :
      (job : Job) (r : Result (List TransferPart)) → Reads Recovered (with_staged_parts o job r)
  unfolding advance_to_verify
  staged_parts-Recovered job r =
      Reads-if (all_parts_completed (found_parts r))
        (λ _. Triple-bind (Triple-ask _) λ now. ignored (update_state-Recovered o.env _ _ _))
        λ _. wake-Recovered job

  staging-Recovered : (job : Job) → Reads Recovered (check_staging o job)
  unfolding check_staging list_transfer_parts
  staging-Recovered job = Triple-bind (exists-Recovered job.staging_path) λ there.
      Reads-if (there && is_local job.state)
        (λ _. Triple-bind (Reads-attempt (Reads-query o.env _)) (staged_parts-Recovered job))
        λ _. wake-Recovered job

  completed-Recovered : (job : Job) → Reads Recovered (check_completed o job)
  unfolding check_completed promote_found
  completed-Recovered job = Triple-bind (exists-Recovered job.completed_path) λ there.
      Reads-if (there && not (is_done job.state))
        (λ _. Triple-bind (Triple-ask _) λ now. ignored (update_state-Recovered o.env _ _ _))
        λ _. staging-Recovered job

  job-Recovered : (job : Job) → Reads Recovered (reconcile_job o job)
  unfolding reconcile_job
  job-Recovered job =
      Reads-if (is_done job.state)
        (λ _. Triple-bind (exists-Recovered job.completed_path) λ there.
          Reads-if there (λ _. Reads-pure tt) λ _. completed-Recovered (staged o.layout job))
        λ _. completed-Recovered (staged o.layout job)

  jobs-Recovered : (jobs : List Job) → Reads Recovered (reconcile_jobs o jobs)
  unfolding reconcile_jobs
  jobs-Recovered [] = Reads-pure tt
  jobs-Recovered (job ∷ jobs) = Triple-bind (job-Recovered job) λ _. jobs-Recovered jobs

  removal-Recovered :
      (x : Effect) (answer : ℕ → Option Error) (why : Str) → Reads Recovered (fs_call x answer why)
  removal-Recovered x answer why =
      Triple-bind (Triple-emit x (λ t l p. p))
        λ _. Triple-bind (Triple-ask answer) λ f. Triple-with_text _ (Reads-lift _)

  orphans-Recovered :
      (valid gone : List Str) (entries : List (Str × Bool))
      → Reads Recovered (remove_orphans o.env o.layout valid gone entries)
  unfolding remove_orphans
  orphans-Recovered valid gone [] = Reads-pure gone
  orphans-Recovered valid gone ((name, is_dir) ∷ entries) =
      Reads-if (not is_dir || any (str_eq name) valid) (λ _. orphans-Recovered valid gone entries)
        λ _.
          Triple-bind (removal-Recovered _ _ _) λ _.
            orphans-Recovered valid (gone ++ (join (o.layout.staging ∷ name ∷ []) ∷ [])) entries

  startup-Recovered : Triple (λ t l. IsKeyed t.jobs) (reconcile_startup o) (λ _. Recovered) Anything
  unfolding reconcile_startup list_open_jobs remove_orphan_staging_dirs
  startup-Recovered = Triple-bind (Triple-with_text _ (release-Recovered o.env)) λ _.
      Triple-weaken {P = Recovered} {Q = λ _. Recovered} {E = Recovered}
        (Triple-bind (Reads-query o.env _) λ jobs. Triple-bind (jobs-Recovered jobs) λ _.
          Triple-bind
            (Triple-bind (Triple-ask _) λ found.
              Triple-bind (Triple-with_text _ (Reads-lift found))
                λ entries. orphans-Recovered _ [] entries)
            λ _. Reads-pure tt)
        (λ t l p. p) (λ a t l p. p) (λ t l p. tt)

-- Where the unique columns of the job table hold and the reconciliation at start-up succeeds, whatever
-- claims a crash has left and whatever the disk shows: no row is claimed any more, and the unique
-- columns hold, also where single jobs could not be updated.
pub reconcile_startup-IsRecovered :
    (o : Orchestrator) (w : World)
    → IsKeyed w.jobs
    → (reconcile_startup o w).0 ≡ ok tt
    → IsRecovered (reconcile_startup o w).1.jobs
reconcile_startup-IsRecovered o w h result =
    after_ok (λ _ t l. IsRecovered t.jobs) (reconcile_startup o w).0 (reconcile_startup o w).1 tt
      result ((startup-Recovered o).run w h)
