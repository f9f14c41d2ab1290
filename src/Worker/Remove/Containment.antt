-- ===== src/Worker/Remove/Containment.antt =====
-- The remover deletes nothing outside the directories of the program.
use tor_boxarr.Base.{
  ℕ, pos, true, false, ◌≡◌, refl, Option, none, some, List, [], ◌∷◌, ◌++◌, Str, All, ◌⊎◌, inl, inr,
  Bool-cases, is_empty, arith,
}
use tor_boxarr.Model.{Job, removed, failed}
use tor_boxarr.Torbox.Client.{Result, ok, err}
use tor_boxarr.World.{Env, World, Effect, removed_all, slept, M, fault}
use tor_boxarr.World.Triple.{
  After, Triple-bind, Triple-ask, Triple-pure, Triple-if, Triple-with_text, Triple-emit,
  Triple-lift,
}
use tor_boxarr.Store.LogRules.{KeepsLog, update_job_state-KeepsLog}
use tor_boxarr.Paths.{dir, absolute, clean_parts, rel}
use tor_boxarr.Paths.Within.{goes_up, rel_below}
use tor_boxarr.Files.Layout.{remove_path}
use tor_boxarr.Worker.Helpers.{Orchestrator, ensure_path_within_root, rel_within}
use tor_boxarr.Worker.Remove.{
  fail_unsafe_removal, remove_checked, mark_removed, remove_payload, remove_staging,
  remove_completed, process_remove_job,
}

-- The parts of the path, made absolute and cleaned, begin with those of the root.
abbrev pub Below : Env → Str → Str → Type 0
Below e root path =
    (rest : List Str) × (clean_parts (absolute e.cwd path)
      ≡ clean_parts (absolute e.cwd root) ++ rest)

within_not_up : (r : Option Str) → rel_within r ≡ true → goes_up r ≡ false
unfolding rel_within goes_up
within_not_up none h = cc
within_not_up (some r) h = ground arith

-- A path that the check accepts lies at or below the root.
pub ensure_path_within_root-Below :
    (e : Env) (root path : Str) → ensure_path_within_root e root path ≡ ok tt → Below e root path
unfolding ensure_path_within_root
ensure_path_within_root-Below e root path h =
    elim (Bool-cases (rel_within (rel (absolute e.cwd root) (absolute e.cwd path)))) [
      | inl within ↦ rel_below _ _ (within_not_up _ within)
      | inr outside ↦ let bad : err _ ≡ ok tt = rw outside at h in cc
    ]

-- A removal lies in one of the three directories.
abbrev pub IsContained : Orchestrator → Effect → Type 0
IsContained o (removed_all path) =
    Below o.env o.layout.completed path
    ⊎ (Below o.env o.layout.staging path ⊎ Below o.env o.layout.payloads path)
IsContained o _ = Unit {0}

All-snoc :
    (P : Effect → Type 0) (l : List Effect) (x : Effect) → All P l → P x → All P (l ++ (x ∷ []))
All-snoc P [] x h p = (p, tt)
All-snoc P (y ∷ l) x h p = (h.0, All-snoc P l x h.1 p)

module _ (o : Orchestrator) where
  abbrev Safely : M (Unit {0}) → Type 0
  Safely m = KeepsLog (All (IsContained o)) m

  quiet :
      (l : List Effect) (d : ℕ)
      → All (IsContained o) l
      → All (IsContained o) (l ++ (slept (pos d) ∷ []))
  quiet l d h = All-snoc (IsContained o) l _ h tt

  remove_path-Safely :
      (path : Str) → IsContained o (removed_all path) → Safely (remove_path o.env path)
  unfolding remove_path
  remove_path-Safely path c =
      Triple-if (is_empty path) (λ _. Triple-pure _ (λ t l p. p))
        λ _.
          Triple-bind (Triple-emit (removed_all path) (λ t l p. All-snoc (IsContained o) l _ p c))
            λ _.
              Triple-bind (Triple-ask _)
                λ f. Triple-with_text _ (Triple-lift (fault f) (λ a h t l p. p) (λ t l p. p))

  unsafe-Safely : (job : Job) (label path : Str) → Safely (fail_unsafe_removal o job label path)
  unfolding fail_unsafe_removal
  unsafe-Safely job label path = Triple-bind (Triple-ask _) λ now.
      Triple-bind (update_job_state-KeepsLog quiet o.env _ failed _) λ _. Triple-pure _ (λ t l p. p)

  mark_removed-Safely : (job : Job) → Safely (mark_removed o job)
  unfolding mark_removed
  mark_removed-Safely job = Triple-bind (Triple-ask _) λ now.
      Triple-bind (update_job_state-KeepsLog quiet o.env _ removed _)
        λ _. Triple-pure _ (λ t l p. p)

  checked-Safely :
      (job : Job) (label path text : Str) (r : Result (Unit {0})) (next : M (Unit {0}))
      → (r ≡ ok tt → IsContained o (removed_all path))
      → Safely next
      → Safely (remove_checked o job label path text r next)
  checked-Safely job label path text (err x) next c h = unsafe-Safely job label path
  checked-Safely job label path text (ok tt) next c h =
      Triple-bind (Triple-with_text _ (remove_path-Safely path (c refl))) λ _. h

  payload-Safely : (job : Job) (ref : Option Str) → Safely (remove_payload o job ref)
  unfolding remove_payload
  payload-Safely job none = mark_removed-Safely job
  payload-Safely job (some path) =
      checked-Safely job _ _ _ _ _
        (λ h. inr (inr (ensure_path_within_root-Below o.env o.layout.payloads (dir path) h)))
        (mark_removed-Safely _)

  staging-Safely : (job : Job) (path : Option Str) → Safely (remove_staging o job path)
  unfolding remove_staging
  staging-Safely job none = payload-Safely job job.payload_ref
  staging-Safely job (some path) =
      checked-Safely job _ _ _ _ _
        (λ h. inr (inl (ensure_path_within_root-Below o.env o.layout.staging path h)))
        (payload-Safely _ job.payload_ref)

  completed-Safely : (job : Job) (path : Option Str) → Safely (remove_completed o job path)
  unfolding remove_completed
  completed-Safely job none = staging-Safely job job.staging_path
  completed-Safely job (some path) =
      checked-Safely job _ _ _ _ _
        (λ h. inl (ensure_path_within_root-Below o.env o.layout.completed path h))
        (staging-Safely _ job.staging_path)

-- If no removal was logged outside the directories for completed files, for staging and for payloads,
-- then none is afterwards: whatever paths the row of the job holds, removing it calls RemoveAll only
-- on paths whose absolute, cleaned parts begin with those of one of the three.
pub process_remove_job-IsContained :
    (o : Orchestrator) (job : Job) (w : World)
    → All (IsContained o) w.log
    → All (IsContained o) (process_remove_job o job w).1.log
unfolding process_remove_job
process_remove_job-IsContained o job w h =
    read (remove_completed o job job.completed_path w).0 _
      ((completed-Safely o job job.completed_path).run w h)
  where
    read :
        (r : Result (Unit {0})) (w' : World)
        → After (λ _ t l. All (IsContained o) l) (λ t l. All (IsContained o) l) r w'
        → All (IsContained o) w'.log
    read (ok _) w' k = k
    read (err x) w' k = k
