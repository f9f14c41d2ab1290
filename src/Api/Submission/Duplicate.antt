-- ===== src/Api/Submission/Duplicate.antt =====
-- A link that is submitted twice gives one job.
use tor_boxarr.Api.Library.{Server}
use tor_boxarr.Api.Submission.{SubmissionRequest, drop_duplicate, new_job, resolve, submit_new}
use tor_boxarr.Base.{
  Bool, Bool-cases, List, Option, Str, [], any, arith, false, find, inl, inr, lit, none, not,
  or_parts, refl, some, str_eq, str_eq_refl, true, ◌&&◌, ◌++◌, ◌∙◌, ◌∷◌, ◌≡◌,
}
use tor_boxarr.Model.{Job, JobState, closed, submit_pending}
use tor_boxarr.Store.EventRules.{append_event-Triple}
use tor_boxarr.Store.Jobs.{
  create_job, insert_clash, insert_job, inserted, moved, overwrite, overwritten, update_clash,
  update_job, update_job_state, update_row, write_state,
}
use tor_boxarr.Store.Keys.{clash_parts, str_eq_sym}
use tor_boxarr.Store.Rules.{Applied, Triple-exec_write}
use tor_boxarr.World.{Effect, Env, Tables}
use tor_boxarr.World.Triple.{
  Anything, Triple, Triple-any, Triple-ask, Triple-bind, Triple-pure, Triple-with_text,
}

abbrev pub open_with : Str → Job → Bool
open_with key row = str_eq row.submission_key key && not (closed row.state)

-- The open job of a key is the one with this id.
abbrev pub Found : Str → Str → List Job → Type 0
Found key id rows = (row : Job) × (find (open_with key) rows ≡ some row) × (row.id ≡ id)

-- The row of a new job stands last, and no row before it clashes with it.
record Inserted (job : Job) (rows : List Job) : Type 0 where
  before : List Job
  whole : rows ≡ before ++ (inserted job ∷ [])
  apart : any (insert_clash job) before ≡ false

unheld : (a b c : Bool) → a ≡ false → (not a && not b && c) ≡ false → (c && not b) ≡ false
unheld a b c fresh h = ground arith

not_taken :
    (job row : Job)
    → closed job.state ≡ false
    → insert_clash job row ≡ false
    → open_with job.submission_key row ≡ false
not_taken job row fresh h =
    rw (str_eq_sym row.submission_key job.submission_key)
      (unheld (closed job.state) (closed row.state) _ fresh (clash_parts job row h).2)

skipped :
    (job next row : Job) (rows : List Job)
    → closed job.state ≡ false
    → next.id ≡ job.id
    → insert_clash job row ≡ false
    → find (open_with job.submission_key) (overwrite next (row ∷ rows))
      ≡ find (open_with job.submission_key) (overwrite next rows)
unfolding overwrite
skipped job next row rows fresh same h =
    let unlike : str_eq row.id next.id ≡ false = rw same ((clash_parts job row h).0) in
    rw (unlike, not_taken job row fresh h)

stored_last :
    (job next : Job)
    → closed next.state ≡ false
    → next.id ≡ job.id
    → next.submission_key ≡ job.submission_key
    → find (open_with job.submission_key) (overwrite next (inserted job ∷ []))
      ≡ some (overwritten next (inserted job))
unfolding overwrite
stored_last job next still same key =
    let hit : str_eq job.id next.id ≡ true = rw same (str_eq_refl job.id) in
    let kept : str_eq next.submission_key job.submission_key ≡ true =
      rw key (str_eq_refl job.submission_key) in
    rw (hit, kept, still)

find-overwrite :
    (job next : Job) (before : List Job)
    → closed job.state ≡ false
    → closed next.state ≡ false
    → next.id ≡ job.id
    → next.submission_key ≡ job.submission_key
    → any (insert_clash job) before ≡ false
    → Found job.submission_key job.id (overwrite next (before ++ (inserted job ∷ [])))
find-overwrite job next [] fresh still same key apart =
    (overwritten next (inserted job), stored_last job next still same key, same)
find-overwrite job next (row ∷ before) fresh still same key apart =
    let (one, rest) = or_parts (insert_clash job row) (any (insert_clash job) before) apart in
    let (found, is_there, its_id) = find-overwrite job next before fresh still same key rest in
    (found, skipped job next row (before ++ (inserted job ∷ [])) fresh same one ∙ is_there, its_id)

insert-Applied :
    (job : Job) (t : Tables) (l : List Effect)
    → Applied (λ _ t l. Inserted job t.jobs) Anything t (insert_job job t) l
unfolding insert_job
insert-Applied job t l = elim (Bool-cases (any (insert_clash job) t.jobs)) [
  | inl clash ↦ rw clash tt
  | inr fits ↦ rw fits (record { before = t.jobs; whole = refl; apart = fits })
]

update-Applied :
    (job next : Job) (t : Tables) (l : List Effect)
    → closed job.state ≡ false
    → closed next.state ≡ false
    → next.id ≡ job.id
    → next.submission_key ≡ job.submission_key
    → Inserted job t.jobs
    → Applied
        (λ _ t l. Found job.submission_key job.id t.jobs)
        (λ t l. Inserted job t.jobs)
        t
        (update_row next t)
        l
unfolding update_row
update-Applied job next t l fresh still same key h =
    elim (Bool-cases
      (any (λ row. str_eq row.id next.id) t.jobs && any (update_clash next) t.jobs)) [
        | inl clash ↦ rw clash h
        | inr fits ↦
            rw (fits, h.whole) (find-overwrite job next h.before fresh still same key h.apart)
      ]

create_job-Inserted :
    (e : Env) (job : Job)
    → Triple Anything (create_job e job) (λ _ t l. Inserted job t.jobs) Anything
unfolding create_job
create_job-Inserted e job =
    Triple-bind
      (Triple-with_text _
        (Triple-exec_write e _ (λ t l d h. h) (λ t l h. h) (λ t l h. insert-Applied job t l)))
      λ _. append_event-Triple (Inserted job) e job.id none (some job.state) _

update_job_state-Found :
    (e : Env) (job next : Job) (to : JobState) (message : Str)
    → closed job.state ≡ false
    → closed to ≡ false
    → next.id ≡ job.id
    → next.submission_key ≡ job.submission_key
    → Triple
        (λ t l. Inserted job t.jobs)
        (update_job_state e next to message)
        (λ r t l. record { fact : r.id ≡ job.id; state : Found job.submission_key job.id t.jobs })
        Anything
unfolding update_job_state write_state update_job
update_job_state-Found e job next to message fresh still same key =
    Triple-bind (Triple-ask _) λ now.
      Triple-bind
        (Triple-bind
          (Triple-with_text _ (
            Triple-exec_write e _ (λ t l d h. h) (λ t l h. tt)
              (λ t l. update-Applied job (moved next to now) t l fresh still same key)))
          λ _. append_event-Triple (Found job.submission_key job.id) e next.id _ _ message)
        λ _. Triple-pure _ (λ t l h. record { fact = same; state = h })

-- What a submission leaves that is no duplicate.
abbrev pub Submitted : Str → Job × Bool → Tables → List Effect → Type 0
Submitted key r t l = r.1 ≡ false → Found key r.0.id t.jobs

pub resolve-Submitted :
    (s : Server) (req : SubmissionRequest) (job_id key payload_ref : Str) (active : Option Job)
    → Triple Anything (resolve s req job_id key payload_ref active) (Submitted key) Anything
unfolding submit_new drop_duplicate
resolve-Submitted s req job_id key payload_ref none = Triple-bind (Triple-ask _) λ now.
    Triple-bind (create_job-Inserted s.env (new_job s req job_id key payload_ref now)) λ _.
      Triple-bind
        (update_job_state-Found s.env (new_job s req job_id key payload_ref now) _ submit_pending
          (lit "queued for remote submission") refl refl refl refl)
        λ queued. Triple-pure (queued, false) (λ t l h _. rw h.fact h.state)
resolve-Submitted s req job_id key payload_ref (some active) =
    Triple-bind {Q = λ _. Anything} (Triple-any _) λ _. Triple-pure (active, true) (λ t l h bad. cc)
