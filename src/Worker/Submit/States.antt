-- ===== src/Worker/Submit/States.antt =====
-- What the submitter does to the states of the rows.
use tor_boxarr.Base.{
  List, Option, arith, inl, inr, is_some, leb_ℤ, none, pos, some, subst, ℤ, ◌≡◌, ◌⊎◌,
}
use tor_boxarr.Diagram.{
  Way, along, here, queue_pending, queue_retry, refuse_pending, refuse_retry, retry_again,
  retry_pending, start_pending, start_retry, submitter,
}
use tor_boxarr.Model.{
  Job, JobState, SourceType, nzb, other_source, remote_active, remote_failed, remote_queued,
  submit_pending, submit_retry, torrent,
}
use tor_boxarr.Store.StateRules.{Held, Moved, Triple-move}
use tor_boxarr.Torbox.Client.{CreateTaskResponse, Error, Result, err, ok}
use tor_boxarr.Worker.Helpers.{Orchestrator, take_remote_name, with_jitter}
use tor_boxarr.Worker.Submit.{
  accept_task, create_task, empty_response, handle_response, handle_submit_failure, no_identifiers,
  process_submit_job, submit_backoff, tracked, untracked,
}
use tor_boxarr.World.{Env}
use tor_boxarr.World.Triple.{
  Assertion, Triple, Triple-ask, Triple-bind, Triple-emit, Triple-if, Triple-pure,
}

-- A job that the submitter claims.
abbrev pub IsSubmittable : JobState → Type 0
IsSubmittable s = (s ≡ submit_pending) ⊎ (s ≡ submit_retry)

to_retry : (s : JobState) → IsSubmittable s → Way submitter s submit_retry
to_retry s (inl h) = rw h (along retry_pending)
to_retry s (inr h) = rw h (along retry_again)

to_queued : (s : JobState) → IsSubmittable s → Way submitter s remote_queued
to_queued s (inl h) = rw h (along queue_pending)
to_queued s (inr h) = rw h (along queue_retry)

to_active : (s : JobState) → IsSubmittable s → Way submitter s remote_active
to_active s (inl h) = rw h (along start_pending)
to_active s (inr h) = rw h (along start_retry)

to_failed : (s : JobState) → IsSubmittable s → Way submitter s remote_failed
to_failed s (inl h) = rw h (along refuse_pending)
to_failed s (inr h) = rw h (along refuse_retry)

-- Jitter and backoff touch no table.
pub with_jitter-Triple :
    {P E : Assertion} (e : Env) (base : ℤ) → Triple P (with_jitter e base) (λ _. P) E
unfolding with_jitter
with_jitter-Triple e base =
    Triple-if (leb_ℤ base (pos 0)) (λ _. Triple-pure _ (λ t l p. p))
      (λ _. Triple-bind (Triple-ask _) (λ x. Triple-pure _ (λ t l p. p)))

module _ (o : Orchestrator) (old : List Job) {s : JobState} (sub : IsSubmittable s) where
  failure-Triple :
      (job : Job) (x : Error)
      → Triple
          (Held old job.id s)
          (handle_submit_failure o job x)
          (λ _. Moved submitter old job.id s)
          (Moved submitter old job.id s)
  unfolding handle_submit_failure submit_backoff
  failure-Triple job x = Triple-bind (Triple-ask _) λ now.
      Triple-bind
        (Triple-if x.retryable
          (λ _. Triple-bind (Triple-ask _) λ now.
            Triple-bind (with_jitter-Triple o.env _)
              λ wait. Triple-move o.env _ submit_retry x.message here (to_retry s sub))
          (λ _. Triple-move o.env _ remote_failed x.message here (to_failed s sub)))
        λ _. Triple-pure _ (λ t l h. h)

  accept-Triple :
      (job : Job)
      → Triple
          (Held old job.id s)
          (accept_task o job)
          (λ _. Moved submitter old job.id s)
          (Moved submitter old job.id s)
  unfolding accept_task
  accept-Triple job = Triple-bind (Triple-ask _) λ now. Triple-bind (Triple-ask _) λ later.
      Triple-bind
        (Triple-if (is_some job.remote_id)
          (λ _. Triple-move o.env _ remote_active _ here (to_active s sub))
          (λ _. Triple-move o.env _ remote_queued _ here (to_queued s sub)))
        λ _. Triple-pure _ (λ t l h. h)

  tracked-id : (job : Job) (resp : CreateTaskResponse) → (tracked o.env job resp).id ≡ job.id
  unfolding tracked take_remote_name
  tracked-id job resp = ground arith

  response-Triple :
      (job : Job) (r : Result (Option CreateTaskResponse))
      → Triple
          (Held old job.id s)
          (handle_response o job r)
          (λ _. Moved submitter old job.id s)
          (Moved submitter old job.id s)
  unfolding handle_response
  response-Triple job (err x) = failure-Triple job x
  response-Triple job (ok none) = failure-Triple job empty_response
  response-Triple job (ok (some resp)) =
      let job' = tracked o.env job resp in
      subst
        (λ i.
          Triple (Held old i s) (handle_response o job (ok (some resp)))
            (λ _. Moved submitter old i s) (Moved submitter old i s))
        (tracked-id job resp)
        (Triple-if (untracked job') (λ _. failure-Triple job' no_identifiers)
          (λ _. accept-Triple job'))

  create-Triple :
      (job : Job) (source : SourceType)
      → Triple
          (Held old job.id s)
          (create_task o job source)
          (λ _. Held old job.id s)
          (Moved submitter old job.id s)
  unfolding create_task
  create-Triple job torrent = Triple-bind (Triple-emit _ (λ t l h. h)) (λ _. Triple-ask _)
  create-Triple job nzb = Triple-bind (Triple-emit _ (λ t l h. h)) (λ _. Triple-ask _)
  create-Triple job (other_source x) = Triple-pure _ (λ t l h. h)

  -- The submitter moves the row of its job along its own edges, and no other row, whatever the remote
  -- service and the database answer.
  pub submit_job-Triple :
      (job : Job)
      → Triple
          (Held old job.id s)
          (process_submit_job o job)
          (λ _. Moved submitter old job.id s)
          (Moved submitter old job.id s)
  unfolding process_submit_job
  submit_job-Triple job = Triple-bind (create-Triple job job.source_type) λ r. response-Triple job r
