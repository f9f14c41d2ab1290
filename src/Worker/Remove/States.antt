-- ===== src/Worker/Remove/States.antt =====
-- What the remover does to the states of the rows.
use tor_boxarr.Base.{List, Option, Str, is_empty, none, some}
use tor_boxarr.Diagram.{along, here, refuse_removal, remove, remover}
use tor_boxarr.Files.Layout.{remove_path}
use tor_boxarr.Model.{Job, failed, remove_pending, removed}
use tor_boxarr.Store.StateRules.{Held, Held-Moved, Moved, Triple-move}
use tor_boxarr.Torbox.Client.{Result, err, ok}
use tor_boxarr.Worker.Finalize.States.{fs_call-Triple}
use tor_boxarr.Worker.Helpers.{Orchestrator}
use tor_boxarr.Worker.Poll.States.{Handles}
use tor_boxarr.Worker.Remove.{
  fail_unsafe_removal, mark_removed, process_remove_job, remove_checked, remove_completed,
  remove_payload, remove_staging,
}
use tor_boxarr.World.{M}
use tor_boxarr.World.Triple.{
  Triple, Triple-ask, Triple-bind, Triple-if, Triple-pure, Triple-with_text,
}

module _ (o : Orchestrator) (old : List Job) where
  unsafe-Triple :
      (job : Job) (label path : Str)
      → Handles remover old job.id remove_pending remove_pending
          (fail_unsafe_removal o job label path)
  unfolding fail_unsafe_removal
  unsafe-Triple job label path = Triple-bind (Triple-ask _) λ now.
      Triple-bind (Triple-move o.env _ failed _ here (along refuse_removal))
        λ _. Triple-pure _ (λ t l h. h)

  mark_removed-Triple :
      (job : Job) → Handles remover old job.id remove_pending remove_pending (mark_removed o job)
  unfolding mark_removed
  mark_removed-Triple job = Triple-bind (Triple-ask _) λ now.
      Triple-bind (Triple-move o.env _ removed _ here (along remove))
        λ _. Triple-pure _ (λ t l h. h)

  remove_path-Triple :
      (id path : Str)
      → Triple
          (Held old id remove_pending)
          (remove_path o.env path)
          (λ _. Held old id remove_pending)
          (Moved remover old id remove_pending)
  unfolding remove_path
  remove_path-Triple id path =
      Triple-if (is_empty path) (λ _. Triple-pure _ (λ t l p. p))
        (λ _. fs_call-Triple _ _ _ (λ t l l' p. p) (Held-Moved old id here))

  checked-Triple :
      (job : Job) (label path text : Str) (r : Result (Unit {0})) (next : M (Unit {0}))
      → Handles remover old job.id remove_pending remove_pending next
      → Handles remover old job.id remove_pending remove_pending
          (remove_checked o job label path text r next)
  checked-Triple job label path text (err x) next h = unsafe-Triple job label path
  checked-Triple job label path text (ok _) next h =
      Triple-bind (Triple-with_text _ (remove_path-Triple job.id path)) λ _. h

  payload-Triple :
      (job : Job) (ref : Option Str)
      → Handles remover old job.id remove_pending remove_pending (remove_payload o job ref)
  unfolding remove_payload
  payload-Triple job none = mark_removed-Triple job
  payload-Triple job (some path) = checked-Triple job _ _ _ _ _ (mark_removed-Triple _)

  staging-Triple :
      (job : Job) (path : Option Str)
      → Handles remover old job.id remove_pending remove_pending (remove_staging o job path)
  unfolding remove_staging
  staging-Triple job none = payload-Triple job job.payload_ref
  staging-Triple job (some path) = checked-Triple job _ _ _ _ _ (payload-Triple _ job.payload_ref)

  completed-Triple :
      (job : Job) (path : Option Str)
      → Handles remover old job.id remove_pending remove_pending (remove_completed o job path)
  unfolding remove_completed
  completed-Triple job none = staging-Triple job job.staging_path
  completed-Triple job (some path) =
      checked-Triple job _ _ _ _ _ (staging-Triple _ job.staging_path)

  pub remove_job-Triple :
      (job : Job)
      → Handles remover old job.id remove_pending remove_pending (process_remove_job o job)
  unfolding process_remove_job
  remove_job-Triple job = completed-Triple job job.completed_path
