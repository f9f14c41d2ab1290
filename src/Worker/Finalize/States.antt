-- ===== src/Worker/Finalize/States.antt =====
-- What the finalizer does to the states of the rows.
use tor_boxarr.Base.{List, Option, Str, [], is_empty, none, some, ℕ, ◌||◌, ◌∷◌}
use tor_boxarr.Diagram.{along, break_verify, finalizer, finish, here, repair}
use tor_boxarr.Files.Layout.{fs_call, promote}
use tor_boxarr.Model.{Job, TransferPart, completed, failed, local_downloading, local_verify}
use tor_boxarr.Store.Parts.{list_transfer_parts}
use tor_boxarr.Store.Rules.{Triple-query}
use tor_boxarr.Store.StateRules.{Held, Held-Moved, Moved, Triple-move}
use tor_boxarr.Torbox.Client.{Error, Result, err, ok}
use tor_boxarr.Worker.Finalize.{
  after_promote, after_verify, download_again, fail_verify, finalize_parts, finish_job, or_next,
  part_fault, process_finalize_job, verify_parts,
}
use tor_boxarr.Worker.Helpers.{Orchestrator, sync_job_bytes_from_parts}
use tor_boxarr.Worker.Poll.States.{Handles}
use tor_boxarr.World.{Effect, Env, M, Tables, fault}
use tor_boxarr.World.Triple.{
  Assertion, Caught, Triple, Triple-ask, Triple-attempt, Triple-bind, Triple-emit, Triple-fail,
  Triple-if, Triple-lift, Triple-pure, Triple-weaken, Triple-with_text, ◌⇒◌,
}

-- A call on the file system touches no table.
pub fs_call-Triple :
    {P E : Assertion} (x : Effect) (answer : ℕ → Option Error) (text : Str)
    → ((t : Tables) (l l' : List Effect) → P t l → P t l')
    → ◌⇒◌ P E
    → Triple P (fs_call x answer text) (λ _. P) E
fs_call-Triple x answer text free weak = Triple-bind (Triple-emit x (λ t l p. free t l _ p)) λ _.
    Triple-bind (Triple-ask answer)
      λ f. Triple-with_text _ (Triple-lift (fault f) (λ a h t l p. p) weak)

pub list_parts-Triple :
    {P E : Assertion} (e : Env) (id : Str)
    → ◌⇒◌ P E
    → Triple P (list_transfer_parts e id) (λ _. P) E
unfolding list_transfer_parts
list_parts-Triple e id weak = Triple-query e _ weak (λ t l p. p)

module _ (o : Orchestrator) (old : List Job) where
  fail_verify-Triple :
      (job : Job) (msg : Str)
      → Handles finalizer old job.id local_verify local_verify (fail_verify o job msg)
  unfolding fail_verify
  fail_verify-Triple job msg = Triple-bind (Triple-ask _) λ now.
      Triple-bind (Triple-move o.env _ failed msg here (along break_verify))
        λ _. Triple-pure _ (λ t l h. h)

  download_again-Triple :
      (job : Job) (msg : Str)
      → Handles finalizer old job.id local_verify local_verify (download_again o job msg)
  unfolding download_again
  download_again-Triple job msg = Triple-bind (Triple-ask _) λ now.
      Triple-bind (Triple-ask _) λ later.
        Triple-bind (Triple-move o.env _ local_downloading msg here (along repair))
          λ _. Triple-pure _ (λ t l h. h)

  finish_job-Triple :
      (job : Job) (parts : List TransferPart) (path : Str)
      → Handles finalizer old job.id local_verify local_verify (finish_job o job parts path)
  unfolding finish_job sync_job_bytes_from_parts
  finish_job-Triple job parts path = Triple-bind (Triple-ask _) λ now.
      Triple-bind (Triple-move o.env _ completed _ here (along finish))
        λ _. Triple-pure _ (λ t l h. h)

  or_next-Triple :
      {P E : Assertion} (f : Option Str) (next : M (Option Str))
      → Triple P next (λ _. P) E
      → Triple P (or_next f next) (λ _. P) E
  or_next-Triple none next h = h
  or_next-Triple (some msg) next h = Triple-pure _ (λ t l p. p)

  verify_parts-Triple :
      (id : Str) (parts : List TransferPart)
      → Triple
          (Held old id local_verify)
          (verify_parts o parts)
          (λ _. Held old id local_verify)
          (Moved finalizer old id local_verify)
  unfolding verify_parts
  verify_parts-Triple id [] = Triple-pure _ (λ t l p. p)
  verify_parts-Triple id (part ∷ parts) =
      Triple-bind (Triple-ask _)
        λ found. or_next-Triple (part_fault part found) _ (verify_parts-Triple id parts)

  promote-Triple :
      (id staging path : Str)
      → Triple
          (Held old id local_verify)
          (promote o.env staging path)
          (λ _. Held old id local_verify)
          (Held old id local_verify)
  unfolding promote
  promote-Triple id staging path =
      Triple-if (is_empty staging || is_empty path) (λ _. Triple-fail _ (λ t l p. p))
        λ _.
          Triple-bind (fs_call-Triple _ _ _ (λ t l l' p. p) (λ t l p. p))
            λ _. fs_call-Triple _ _ _ (λ t l l' p. p) (λ t l p. p)

  after_promote-Triple :
      (job : Job) (parts : List TransferPart) (path : Str) (r : Result (Unit {0}))
      → Triple
          (Caught (λ _. Held old job.id local_verify) (Held old job.id local_verify) r)
          (after_promote o job parts path r)
          (λ _. Moved finalizer old job.id local_verify)
          (Moved finalizer old job.id local_verify)
  after_promote-Triple job parts path (err x) = fail_verify-Triple job x.message
  after_promote-Triple job parts path (ok _) = finish_job-Triple job parts path

  after_verify-Triple :
      (job : Job) (parts : List TransferPart) (f : Option Str)
      → Handles finalizer old job.id local_verify local_verify (after_verify o job parts f)
  after_verify-Triple job parts (some msg) = download_again-Triple job msg
  after_verify-Triple job parts none =
      Triple-bind
        (Triple-weaken (Triple-attempt (promote-Triple job.id _ _)) (λ t l p. p) (λ r t l q. q)
          (Held-Moved old job.id here))
        (after_promote-Triple job parts _)

  finalize_parts-Triple :
      (job : Job) (parts : List TransferPart)
      → Handles finalizer old job.id local_verify local_verify (finalize_parts o job parts)
  unfolding finalize_parts
  finalize_parts-Triple job [] = fail_verify-Triple job _
  finalize_parts-Triple job (p ∷ ps) =
      Triple-bind (verify_parts-Triple job.id (p ∷ ps)) (after_verify-Triple job (p ∷ ps))

  pub finalize_job-Triple :
      (job : Job)
      → Handles finalizer old job.id local_verify local_verify (process_finalize_job o job)
  unfolding process_finalize_job
  finalize_job-Triple job =
      Triple-bind (list_parts-Triple o.env job.id (Held-Moved old job.id here))
        (finalize_parts-Triple job)
