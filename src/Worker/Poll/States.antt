-- ===== src/Worker/Poll/States.antt =====
-- What the poller does to the states of the rows.
use tor_boxarr.Base.{
  Bool, List, Option, Str, ap, arith, false, inl, inr, is_empty, is_none, none, refl, some, subst,
  sym, true, ◌||◌, ◌∙◌, ◌≡◌, ◌⊎◌,
}
use tor_boxarr.Diagram.{
  Way, Worker, activate, activated-Way, along, here, lose_active, lose_queued, poller, ready,
}
use tor_boxarr.Model.{
  Job, JobState, local_download_pending, remote_active, remote_failed, remote_queued, state_eq,
}
use tor_boxarr.Store.StateRules.{
  Held, Held-Moved, Moved, Triple-move, Triple-stay, Triple-update_job_state,
}
use tor_boxarr.Torbox.Client.{Error, Result, TaskStatus, err, ok}
use tor_boxarr.Worker.Helpers.{Orchestrator, take_remote_name}
use tor_boxarr.Worker.Poll.{
  absorb_status, apply_active_status, apply_queued_status, apply_status, content_ready, fail_remote,
  find_active, handle_polled, handle_queued, keep_or, poll_failed, poll_later, process_poll_job,
  process_queued_poll_job, promote_queued, queued_job, recover_found, recover_with, remote_ended,
  still_active, try_recover_active_status,
}
use tor_boxarr.Worker.Submit.States.{with_jitter-Triple}
use tor_boxarr.World.{M}
use tor_boxarr.World.Triple.{
  Triple, Triple-ask, Triple-bind, Triple-given, Triple-if, Triple-lift, Triple-pure, Triple-weaken,
}

-- A job that the poller claims.
abbrev pub IsPollable : JobState → Type 0
IsPollable s = (s ≡ remote_queued) ⊎ (s ≡ remote_active)

to_active : (s : JobState) → IsPollable s → Way poller s remote_active
to_active s (inl h) = rw h (along activate)
to_active s (inr h) = rw h here

to_failed : (s : JobState) → IsPollable s → Way poller s remote_failed
to_failed s (inl h) = rw h (along lose_queued)
to_failed s (inr h) = rw h (along lose_active)

-- The triple of a handler for the job with an id, whose row is in state `u` and was in `s`.
abbrev pub Handles : Worker → List Job → Str → JobState → JobState → M (Unit {0}) → Type 0
Handles by old id s u m = Triple (Held old id u) m (λ _. Moved by old id s) (Moved by old id s)

state_eq→eq : (a b : JobState) → state_eq a b ≡ true → a ≡ b
state_eq→eq a b h = ground arith

absorb_status-id :
    (o : Orchestrator) (job : Job) (status : TaskStatus) → (absorb_status o job status).id ≡ job.id
unfolding absorb_status take_remote_name
absorb_status-id o job status = ground arith

module _ (o : Orchestrator) (old : List Job) {s : JobState} where
  poll_later-Triple :
      (job : Job)
      → Way poller s job.state
      → Handles poller old job.id s job.state (poll_later o job)
  unfolding poll_later
  poll_later-Triple job way = Triple-bind (Triple-ask _) λ now.
      Triple-bind (with_jitter-Triple o.env _)
        λ wait. Triple-bind (Triple-ask _) λ later. Triple-stay o.env _ way way

  fail_remote-Triple :
      (job : Job) (msg : Str)
      → Way poller s job.state
      → Way poller s remote_failed
      → Handles poller old job.id s job.state (fail_remote o job msg)
  unfolding fail_remote
  fail_remote-Triple job msg way way' = Triple-bind (Triple-ask _) λ now.
      Triple-bind (Triple-move o.env _ remote_failed msg way way') λ _. Triple-pure _ (λ t l h. h)

  -- An active job: the verdict of its status.
  module _ (way : Way poller s remote_active) where
    content_ready-Triple :
        (job : Job) → Handles poller old job.id s remote_active (content_ready o job)
    unfolding content_ready
    content_ready-Triple job = Triple-bind (Triple-ask _) λ now.
        Triple-bind (Triple-move o.env _ local_download_pending _ way (activated-Way way ready))
          λ _. Triple-pure _ (λ t l h. h)

    remote_ended-Triple :
        (job : Job) (msg : Str) → Handles poller old job.id s remote_active (remote_ended o job msg)
    unfolding remote_ended
    remote_ended-Triple job msg =
        Triple-bind (Triple-move o.env _ remote_failed msg way (activated-Way way lose_active))
          λ _. Triple-pure _ (λ t l h. h)

    still_active-Triple :
        (job : Job) → Handles poller old job.id s remote_active (still_active o job)
    unfolding still_active
    still_active-Triple job =
        Triple-bind (Triple-ask _)
          λ now. Triple-bind (with_jitter-Triple o.env _) λ wait. Triple-stay o.env _ way way

    apply_status-Triple :
        (job : Job) (status : TaskStatus)
        → Handles poller old job.id s remote_active (apply_status o job status)
    unfolding apply_status
    apply_status-Triple job status =
        subst (λ i. Handles poller old i s remote_active (apply_status o job status))
          (absorb_status-id o job status)
          (Triple-bind (Triple-ask _) λ now.
            Triple-if status.download_ready
              (λ _. content_ready-Triple (record (absorb_status o job status) { updated_at = now }))
              (λ _.
                Triple-if (status.failed || status.inactive)
                  (λ _.
                    remote_ended-Triple (record (absorb_status o job status) { updated_at = now })
                      _)
                  (λ _.
                    still_active-Triple
                      (record (absorb_status o job status) { updated_at = now }))))

    apply_active_status-Triple :
        (job : Job) (status : Option TaskStatus)
        → job.state ≡ remote_active
        → Handles poller old job.id s remote_active (apply_active_status o job status)
    unfolding apply_active_status
    apply_active_status-Triple job none active =
        subst (λ u. Handles poller old job.id s u (poll_later o job)) active
          (poll_later-Triple job (rw active way))
    apply_active_status-Triple job (some status) active = apply_status-Triple job status

queued_test :
    {s : JobState} → s ≡ remote_queued → (b : Bool) → (state_eq s remote_queued || b) ≡ false → ⊥
queued_test e b h = ground arith

module _ (o : Orchestrator) (old : List Job) {s : JobState} (pol : IsPollable s) where
  poll_failed-Triple :
      (job : Job) (x : Error) → job.state ≡ s → Handles poller old job.id s s (poll_failed o job x)
  unfolding poll_failed
  poll_failed-Triple job x e =
      subst (λ u. Handles poller old job.id s u (poll_failed o job x)) e
        (Triple-if x.retryable (λ _. poll_later-Triple o old job (rw e here))
          (λ _. fail_remote-Triple o old job x.message (rw e here) (to_failed s pol)))

  recover_found-Triple :
      (job : Job) (status : TaskStatus)
      → job.state ≡ s
      → Handles poller old job.id s s (recover_found o job status)
  unfolding recover_found
  recover_found-Triple job status e = Triple-bind (Triple-ask _) λ now.
      Triple-bind
        {Q = λ job' t l. record {
          fact : job'.id ≡ job.id;
          state : Held old job.id remote_active t l;
        }}
        (Triple-if (state_eq job.state remote_active)
          (λ h. Triple-pure _ (λ t l held. record {
            fact = refl;
            state = subst (λ u. Held old job.id u t l) (sym e ∙ state_eq→eq _ _ h) held;
          }))
          (λ h.
            Triple-weaken
              (Triple-update_job_state o.env
                (record job {
                  remote_id = keep_or job.remote_id status.remote_id;
                  updated_at = now;
                })
                remote_active _ here (to_active s pol))
              (λ t l p. p)
              (λ job' t l p. record { fact = ap (λ (j : Job). j.id) p.fact.1; state = p.state })
              (λ t l p. p)))
        λ job'. Triple-given λ same.
          subst (λ i. Handles poller old i s remote_active (apply_status o job' status)) same
            (apply_status-Triple o old (to_active s pol) job' status)

  recover_with-Triple :
      (job : Job) (r : Result (Option TaskStatus))
      → job.state ≡ s
      → Handles poller old job.id s s (recover_with o job r)
  unfolding recover_with
  recover_with-Triple job (err x) e = poll_failed-Triple job x e
  recover_with-Triple job (ok none) e =
      subst (λ u. Handles poller old job.id s u (poll_later o job)) e
        (poll_later-Triple o old job (rw e here))
  recover_with-Triple job (ok (some status)) e = recover_found-Triple job status e

  try_recover-Triple :
      (job : Job) → job.state ≡ s → Handles poller old job.id s s (try_recover_active_status o job)
  unfolding try_recover_active_status find_active
  try_recover-Triple job e = Triple-bind (Triple-ask _) λ r. recover_with-Triple job r e

  promote_queued-Triple :
      (job : Job) → job.state ≡ s → Handles poller old job.id s s (promote_queued o job)
  unfolding promote_queued find_active
  promote_queued-Triple job e = Triple-bind (Triple-ask _) λ now.
      Triple-bind
        (Triple-update_job_state o.env (record job { updated_at = now }) remote_active _ here
          (to_active s pol))
        λ job'. Triple-given λ same. Triple-bind (Triple-ask _) λ found.
          Triple-bind (Triple-lift found (λ a h t l p. p) (Held-Moved old job.id (to_active s pol)))
            λ status.
              subst (λ i. Handles poller old i s remote_active (apply_active_status o job' status))
                (ap (λ (j : Job). j.id) same.1)
                (apply_active_status-Triple o old (to_active s pol) job' status
                  (ap (λ (j : Job). j.state) same.1))

  queued_status-Triple :
      (job : Job) (status : TaskStatus)
      → job.state ≡ s
      → Handles poller old job.id s s (apply_queued_status o job status)
  unfolding apply_queued_status
  queued_status-Triple job status e =
      Triple-if (is_empty status.remote_id)
        (λ _.
          subst (λ u. Handles poller old job.id s u (poll_later o (queued_job job status))) e
            (poll_later-Triple o old (queued_job job status) (rw e here)))
        (λ _. promote_queued-Triple (queued_job job status) e)

  handle_queued-Triple :
      (job : Job) (r : Result (Option TaskStatus))
      → job.state ≡ s
      → Handles poller old job.id s s (handle_queued o job r)
  unfolding handle_queued
  handle_queued-Triple job (err x) e = try_recover-Triple job e
  handle_queued-Triple job (ok none) e = try_recover-Triple job e
  handle_queued-Triple job (ok (some status)) e = queued_status-Triple job status e

  -- A job that is looked up by its remote id is active.
  handle_polled-Triple :
      (job : Job) (r : Result (Option TaskStatus))
      → job.state ≡ s
      → s ≡ remote_active
      → Handles poller old job.id s s (handle_polled o job r)
  unfolding handle_polled
  handle_polled-Triple job (err x) e active = poll_failed-Triple job x e
  handle_polled-Triple job (ok status) e active =
      subst (λ u. Handles poller old job.id s u (apply_active_status o job status)) (sym active)
        (apply_active_status-Triple o old (to_active s pol) job status (e ∙ active))

  -- Not queued, so active.
  not_queued : (b : Bool) → (state_eq s remote_queued || b) ≡ false → s ≡ remote_active
  not_queued b h = elim pol [ inl q ↦ absurd (queued_test q b h) | inr a ↦ a ]

  pub poll_job-Triple :
      (job : Job) → job.state ≡ s → Handles poller old job.id s s (process_poll_job o job)
  unfolding process_poll_job process_queued_poll_job
  poll_job-Triple job e =
      Triple-if (state_eq job.state remote_queued || is_none job.remote_id)
        (λ _. Triple-bind (Triple-ask _) λ r. handle_queued-Triple job r e)
        (λ h. Triple-bind (Triple-ask _) λ r. handle_polled-Triple job r e (
          not_queued (is_none job.remote_id)
            (subst (λ u. (state_eq u remote_queued || is_none job.remote_id) ≡ false) e h)))
