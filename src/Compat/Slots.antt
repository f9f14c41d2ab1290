-- ===== src/Compat/Slots.antt =====
-- The queue and the history of SABnzbd.
use mathlib.Core.List.{Perm, perm_middle}
use mathlib.Core.List.Perm
use tor_boxarr.Base.{
  Bool, Bool-cases, List, Str, [], all, and_parts, arith, drop, false, has_prefix, if◌then◌else◌,
  inl, inr, length, map, not, refl, true, ◌++◌, ◌∷◌, ◌≡◌,
}
use tor_boxarr.Compat.Floats.{Floats}
use tor_boxarr.Compat.Sab.{
  history_slots, is_sab_history_state, is_sab_queue_state, normalize_nzo_id, nzo_id, nzo_prefix,
  project_sab_history, project_sab_history_slot, project_sab_queue, project_sab_queue_slot,
  queue_slots, trim_prefix,
}
use tor_boxarr.Model.{
  Job, JobState, accepted, failed, local_download_pending, local_downloading, local_verify,
  remote_active, remote_failed, remote_queued, remove_pending, removed, state_eq, submit_pending,
  submit_retry,
}

drop-append : (p s : Str) → drop (length p) (p ++ s) ≡ s
drop-append [] s = refl
drop-append (c ∷ p) s = drop-append p s

has_prefix-append : (p s : Str) → has_prefix (p ++ s) p ≡ true
unfolding has_prefix
has_prefix-append [] [] = refl
has_prefix-append [] (c ∷ s) = refl
has_prefix-append (c ∷ p) s = ground (arith, has_prefix-append p s)

normalize-nzo_id : (public_id : Str) → normalize_nzo_id (nzo_id public_id) ≡ public_id
unfolding normalize_nzo_id nzo_id trim_prefix
normalize-nzo_id public_id =
    rw (has_prefix-append nzo_prefix public_id) (drop-append nzo_prefix public_id)

false_of_not : {b : Bool} → not b ≡ true → b ≡ false
false_of_not {b = true} h = cc
false_of_not {b = false} h = refl

-- A job that is not removed is in the queue or in the history, and not in both.
one_of_two :
    (st : JobState)
    → state_eq st removed ≡ false
    → is_sab_history_state st ≡ not (is_sab_queue_state st)
one_of_two removed h = cc
one_of_two accepted h = refl
one_of_two submit_pending h = refl
one_of_two submit_retry h = refl
one_of_two remote_queued h = refl
one_of_two remote_active h = refl
one_of_two remote_failed h = refl
one_of_two local_download_pending h = refl
one_of_two local_downloading h = refl
one_of_two local_verify h = refl
one_of_two JobState.completed h = refl
one_of_two remove_pending h = refl
one_of_two failed h = refl

-- The jobs that the queue and the history name: an id of a slot names the job whose public id it
-- stands for.
abbrev pub queue_ids : Floats → Str → List Job → List Str
queue_ids fl version jobs =
    map (λ slot. normalize_nzo_id slot.nzo_id) (project_sab_queue fl version jobs).slots

abbrev pub history_ids : Floats → Str → List Job → List Str
history_ids fl version jobs =
    map (λ slot. normalize_nzo_id slot.nzo_id) (project_sab_history fl version jobs).slots

queue_ids-cons :
    (fl : Floats) (version : Str) (job : Job) (jobs : List Job)
    → queue_ids fl version (job ∷ jobs) ≡ (
        if is_sab_queue_state job.state
        then job.public_id ∷ queue_ids fl version jobs
        else queue_ids fl version jobs)
unfolding project_sab_queue queue_slots project_sab_queue_slot
queue_ids-cons fl version job jobs = elim (Bool-cases (is_sab_queue_state job.state)) [
  | inl shown ↦ rw (shown, normalize-nzo_id job.public_id) refl
  | inr hidden ↦ rw hidden refl
]

history_ids-cons :
    (fl : Floats) (version : Str) (job : Job) (jobs : List Job)
    → history_ids fl version (job ∷ jobs) ≡ (
        if is_sab_history_state job.state
        then job.public_id ∷ history_ids fl version jobs
        else history_ids fl version jobs)
unfolding project_sab_history history_slots project_sab_history_slot
history_ids-cons fl version job jobs = elim (Bool-cases (is_sab_history_state job.state)) [
  | inl shown ↦ rw (shown, normalize-nzo_id job.public_id) refl
  | inr hidden ↦ rw hidden refl
]

both_ids-cons :
    (fl : Floats) (version : Str) (job : Job) (jobs : List Job)
    → (is_sab_history_state job.state ≡ not (is_sab_queue_state job.state))
    → Perm
        (queue_ids fl version jobs ++ history_ids fl version jobs)
        (map (λ job. job.public_id) jobs)
    → Perm
        (queue_ids fl version (job ∷ jobs) ++ history_ids fl version (job ∷ jobs))
        (map (λ job. job.public_id) (job ∷ jobs))
both_ids-cons fl version job jobs other rest = elim (Bool-cases (is_sab_queue_state job.state)) [
  | inl shown ↦
      rw (queue_ids-cons fl version job jobs, history_ids-cons fl version job jobs, other, shown)
        (Perm.cons job.public_id rest)
  | inr hidden ↦
      rw (queue_ids-cons fl version job jobs, history_ids-cons fl version job jobs, other, hidden)
        (Perm.trans (perm_middle (queue_ids fl version jobs) (history_ids fl version jobs))
          (Perm.cons job.public_id rest))
]

-- For jobs none of which is removed, the ids that the queue shows and then the ids that the history
-- shows are, in some order, the public ids of the jobs: each job is shown in exactly one of the two,
-- and under an id that a later request resolves to that job.
pub project_sab_queue-history-Perm :
    (fl : Floats) (version : Str) (jobs : List Job)
    → all (λ job. not (state_eq job.state removed)) jobs ≡ true
    → Perm
        (queue_ids fl version jobs ++ history_ids fl version jobs)
        (map (λ job. job.public_id) jobs)
unfolding project_sab_queue project_sab_history queue_slots history_slots
project_sab_queue-history-Perm fl version [] h = Perm.refl []
project_sab_queue-history-Perm fl version (job ∷ jobs) h =
    let parts = and_parts (not (state_eq job.state removed)) (all _ jobs) h in
    both_ids-cons fl version job jobs (one_of_two job.state (false_of_not parts.0))
      (project_sab_queue-history-Perm fl version jobs parts.1)
