-- ===== src/Api/Submission/Repeat.antt =====
-- The same link, submitted again while its job is open.
use tor_boxarr.Api.Library.{Server}
use tor_boxarr.Api.Submission.{SubmissionRequest, drop_duplicate, enqueue_submission, key_of}
use tor_boxarr.Api.Submission.Duplicate.{Submitted, open_with, resolve-Submitted}
use tor_boxarr.Base.{Str, [], ap, false, find, none, refl, some, suc, true, ℕ, ◌≡◌}
use tor_boxarr.Model.{Job}
use tor_boxarr.Store.Jobs.{find_active_by_submission_key}
use tor_boxarr.Store.Retry.{query}
use tor_boxarr.Torbox.Client.{ok}
use tor_boxarr.World.{World, ask, lift, pure, ◌>>=◌}
use tor_boxarr.World.Triple.{
  Anything, Triple, Triple-any, Triple-bind, Triple-given, Triple-pure, after_ok,
}

enqueue-Submitted :
    (s : Server) (req : SubmissionRequest)
    → req.payload_body ≡ none
    → Triple Anything (enqueue_submission s req) (Submitted (key_of s req [])) Anything
unfolding enqueue_submission
enqueue-Submitted s req link = simp link (
    Triple-bind {Q = λ _. Anything} (Triple-any _) λ drawn.
      Triple-bind {Q = λ _. Anything} (Triple-any _) λ job_id.
        Triple-bind {Q = λ saved t l. record { fact : saved ≡ ([], []); state : Anything t l }}
          (Triple-pure ([], []) (λ t l h. record { fact = refl; state = tt }))
          λ saved. Triple-given λ h. rw h (
            Triple-bind {Q = λ _. Anything} (Triple-any _)
              λ active. resolve-Submitted s req job_id (key_of s req []) [] active))

found_again :
    (s : Server) (req : SubmissionRequest) (w : World) (row : Job) (id : Str)
    → req.payload_body ≡ none
    → s.qbit_auth.random_hex w.tick ≡ ok id
    → s.env.query_fault (suc w.tick) ≡ none
    → find (open_with (key_of s req [])) w.jobs ≡ some row
    → enqueue_submission s req w ≡ (ok (row, true), record w { tick = suc (suc w.tick) })
unfolding enqueue_submission find_active_by_submission_key query drop_duplicate ◌>>=◌ ask lift pure
found_again s req w row id link drawn calm found = rw (link, drawn, calm, found)

-- Where a link is submitted and a new job comes of it, the same submission again gives no second job,
-- if random bytes and the read of the table do not fail: it returns the row of that job as a
-- duplicate and leaves all tables as they are.
pub enqueue_submission-repeated :
    (s : Server) (req : SubmissionRequest) (w : World) (job : Job)
    → req.payload_body ≡ none
    → ((n : ℕ) → (id : Str) × (s.qbit_auth.random_hex n ≡ ok id))
    → ((n : ℕ) → s.env.query_fault n ≡ none)
    → (enqueue_submission s req w).0 ≡ ok (job, false)
    → let w' = (enqueue_submission s req w).1 in
      (row : Job) × ((enqueue_submission s req w').0 ≡ ok (row, true))
      × (row.id ≡ job.id)
      × ((enqueue_submission s req w').1.db ≡ w'.db)
enqueue_submission-repeated s req w job link draws calm first =
    let w' = (enqueue_submission s req w).1 in
    let (row, found, same) =
      after_ok (Submitted (key_of s req [])) (enqueue_submission s req w).0 w' (job, false) first
        ((enqueue-Submitted s req link).run w tt) refl in
    let (id, drawn) = draws w'.tick in
    let again = found_again s req w' row id link drawn (calm (suc w'.tick)) found in
    (row, ap (λ r. r.0) again, same, ap (λ r. r.1.db) again)
