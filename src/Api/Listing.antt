-- ===== src/Api/Listing.antt =====
-- The queue and the history of the SABnzbd interface, as two requests see them.
use mathlib.Core.List.{Perm}
use tor_boxarr.Api.Http.{Request, history_json, plain, queue_json}
use tor_boxarr.Api.Library.{Server}
use tor_boxarr.Api.Progress.{
  needs_local_transfer_overlay, over_parts, overlay, with_local_transfer_progress,
}
use tor_boxarr.Api.Qbit.{visible_with_progress}
use tor_boxarr.Api.Sab.{handle_sab_history, handle_sab_queue, wanted_category}
use tor_boxarr.Base.{
  Bool, Bool-cases, List, Str, [], all, and_parts, ap, arith, filter, if◌then◌else◌, inl, inr,
  is_empty, map, none, not, pos, refl, str_eq, subst, suc, true, ℕ, ◌&&◌, ◌++◌, ◌||◌, ◌∷◌, ◌≡◌,
}
use tor_boxarr.Compat.Floats.{Floats}
use tor_boxarr.Compat.Sab.{
  SabHistory, SabQueue, normalize_nzo_id, project_sab_history, project_sab_queue,
}
use tor_boxarr.Compat.Slots.{project_sab_queue-history-Perm}
use tor_boxarr.Model.{ClientKind, Job, TransferPart, removed, sab, state_eq}
use tor_boxarr.Store.Answers.{all-filter, all-limited, all-sort_by, all-weaken}
use tor_boxarr.Store.Jobs.{kind_eq, limited, list_visible_client_jobs, newer, newest_first}
use tor_boxarr.Store.Parts.{list_transfer_parts}
use tor_boxarr.Store.Retry.{query}
use tor_boxarr.Torbox.Client.{ok}
use tor_boxarr.World.{Env, M, Tables, World, ask, attempt, pure, ◌>>=◌}

abbrev pub not_removed : Job → Bool
not_removed job = not (state_eq job.state removed)

abbrev pub seen_by : ClientKind → Str → Job → Bool
seen_by kind category row =
    kind_eq row.client_kind kind
    && not (state_eq row.state removed)
    && (is_empty category || str_eq row.category category)

seen-not_removed :
    (kind : ClientKind) (category : Str) (row : Job)
    → seen_by kind category row ≡ true
    → not_removed row ≡ true
seen-not_removed kind category row h = ground arith

-- The jobs that a request lists, where the read of the table does not fail.
abbrev pub visible_jobs : Env → ClientKind → Str → Tables → List Job
visible_jobs e kind category t =
    limited (pos 1000) (newest_first e (filter (seen_by kind category) t.jobs))

visible_jobs-all :
    (e : Env) (kind : ClientKind) (category : Str) (t : Tables)
    → all not_removed (visible_jobs e kind category t) ≡ true
visible_jobs-all e kind category t =
    all-limited not_removed (pos 1000) (newest_first e (filter (seen_by kind category) t.jobs)) (
      all-sort_by not_removed (newer e) (filter (seen_by kind category) t.jobs) (
        all-weaken (seen_by kind category) not_removed (filter (seen_by kind category) t.jobs)
          (seen-not_removed kind category) (all-filter (seen_by kind category) t.jobs)))

list_visible-calm :
    (e : Env) (kind : ClientKind) (category : Str) (w : World)
    → e.query_fault w.tick ≡ none
    → list_visible_client_jobs e kind category (pos 1000) w
      ≡ (ok (visible_jobs e kind category w.db), record w { tick = suc w.tick })
unfolding list_visible_client_jobs query ◌>>=◌ ask
list_visible-calm e kind category w calm = rw calm refl

-- A job as the overlay shows it.
abbrev pub shown_in : Tables → Job → Job
shown_in t job =
    if not (needs_local_transfer_overlay job.state)
    then job
    else over_parts job (filter (λ row. str_eq row.job_id job.id) t.parts)

over_parts-keeps :
    (job : Job) (parts : List TransferPart)
    → ((over_parts job parts).public_id ≡ job.public_id)
      × ((over_parts job parts).state ≡ job.state)
over_parts-keeps job [] = (refl, refl)
over_parts-keeps job (part ∷ parts) = (refl, refl)

shown_in-keeps :
    (t : Tables) (job : Job)
    → ((shown_in t job).public_id ≡ job.public_id) × ((shown_in t job).state ≡ job.state)
shown_in-keeps t job = elim (Bool-cases (needs_local_transfer_overlay job.state)) [
  | inl needs ↦ rw needs (over_parts-keeps job _)
  | inr plain ↦ rw plain (refl, refl)
]

-- A run that answers `a` and leaves the tables.
pub record Yields {A : Type 0} (m : M A) (a : A) (w : World) : Type 0 where
  pub tick : ℕ
  pub same : m w ≡ (ok a, record w { tick = tick })

overlay-Yields :
    (e : Env) (job : Job) (w : World)
    → ((n : ℕ) → e.query_fault n ≡ none)
    → Yields (overlay e job) (shown_in w.db job) w
unfolding overlay list_transfer_parts query ◌>>=◌ ask pure
overlay-Yields e job w calm = elim (Bool-cases (needs_local_transfer_overlay job.state)) [
  | inl needs ↦ record { tick = suc w.tick; same = rw (needs, calm w.tick) refl }
  | inr plain ↦ record { tick = w.tick; same = rw plain refl }
]

progress-Yields :
    (e : Env) (jobs : List Job) (w : World)
    → ((n : ℕ) → e.query_fault n ≡ none)
    → Yields (with_local_transfer_progress e jobs) (map (shown_in w.db) jobs) w
unfolding with_local_transfer_progress ◌>>=◌ pure
progress-Yields e [] w calm = record { tick = w.tick; same = refl }
progress-Yields e (job ∷ jobs) w calm =
    let first = overlay-Yields e job w calm in
    let rest = progress-Yields e jobs (record w { tick = first.tick }) calm in
    record { tick = rest.tick; same = rw (first.same, rest.same) refl }

visible-Yields :
    (fl : Floats) (s : Server) (kind : ClientKind) (category : Str) (w : World)
    → ((n : ℕ) → s.env.query_fault n ≡ none)
    → Yields
        (visible_with_progress fl s kind category)
        (map (shown_in w.db) (visible_jobs s.env kind category w.db))
        w
unfolding visible_with_progress ◌>>=◌
visible-Yields fl s kind category w calm =
    let rest =
      progress-Yields s.env (visible_jobs s.env kind category w.db) (record w { tick = suc w.tick })
        calm in
    record {
      tick = rest.tick;
      same = rw (list_visible-calm s.env kind category w (calm w.tick), rest.same) refl;
    }

shown-all :
    (t : Tables) (jobs : List Job)
    → all not_removed jobs ≡ true
    → all not_removed (map (shown_in t) jobs) ≡ true
shown-all t [] h = refl
shown-all t (job ∷ jobs) h =
    let parts = and_parts (not_removed job) (all not_removed jobs) h in
    rw ((shown_in-keeps t job).1, parts.0, shown-all t jobs parts.1) refl

shown-ids :
    (t : Tables) (jobs : List Job)
    → map (λ job. job.public_id) (map (shown_in t) jobs) ≡ map (λ job. job.public_id) jobs
shown-ids t [] = refl
shown-ids t (job ∷ jobs) = rw ((shown_in-keeps t job).0, shown-ids t jobs) refl

-- The ids that a slot names, as a later request reads them.
abbrev pub ids_of_queue : SabQueue → List Str
ids_of_queue q = map (λ slot. normalize_nzo_id slot.nzo_id) q.slots

abbrev pub ids_of_history : SabHistory → List Str
ids_of_history h = map (λ slot. normalize_nzo_id slot.nzo_id) h.slots

queue_answer :
    (fl : Floats) (s : Server) (r : Request) (w : World)
    → ((n : ℕ) → s.env.query_fault n ≡ none)
    → Yields
        (handle_sab_queue fl s r)
        (plain 200 (
          queue_json (
            project_sab_queue fl s.compatibility.sab_version
              (map (shown_in w.db) (visible_jobs s.env sab (wanted_category fl s r) w.db)))))
        w
unfolding handle_sab_queue ◌>>=◌ attempt pure
queue_answer fl s r w calm =
    let run = visible-Yields fl s sab (wanted_category fl s r) w calm in
    record { tick = run.tick; same = rw run.same refl }

history_answer :
    (fl : Floats) (s : Server) (r : Request) (w : World)
    → ((n : ℕ) → s.env.query_fault n ≡ none)
    → Yields
        (handle_sab_history fl s r)
        (plain 200 (
          history_json (
            project_sab_history fl s.compatibility.sab_version
              (map (shown_in w.db) (visible_jobs s.env sab (wanted_category fl s r) w.db)))))
        w
unfolding handle_sab_history ◌>>=◌ attempt pure
history_answer fl s r w calm =
    let run = visible-Yields fl s sab (wanted_category fl s r) w calm in
    record { tick = run.tick; same = rw run.same refl }

-- Where no read of a table fails, a request for the queue and then one for the history with the same
-- fields are both answered with 200, and the ids in the two answers, as a later request reads them,
-- are in some order the public ids of the rows that are visible: the newest 1000 of the client in the
-- category that are not removed. So each of them is listed, in exactly one of the two answers.
pub handle_sab_queue-history_complete :
    (fl : Floats) (s : Server) (r : Request) (w : World)
    → ((n : ℕ) → s.env.query_fault n ≡ none)
    → let w' = (handle_sab_queue fl s r w).1 in
      (q : SabQueue) × (h : SabHistory) × ((handle_sab_queue fl s r w).0
        ≡ ok (plain 200 (queue_json q)))
      × ((handle_sab_history fl s r w').0 ≡ ok (plain 200 (history_json h)))
      × Perm
          (ids_of_queue q ++ ids_of_history h)
          (map (λ job. job.public_id) (visible_jobs s.env sab (wanted_category fl s r) w.db))
handle_sab_queue-history_complete fl s r w calm =
    let jobs = visible_jobs s.env sab (wanted_category fl s r) w.db in
    let shown = map (shown_in w.db) jobs in
    let first = queue_answer fl s r w calm in
    let second = history_answer fl s r (record w { tick = first.tick }) calm in
    (
      project_sab_queue fl s.compatibility.sab_version shown,
      project_sab_history fl s.compatibility.sab_version shown,
      ap (λ run. run.0) first.same,
      rw (first.same) (ap (λ run. run.0) second.same),
      subst (Perm _) (shown-ids w.db jobs) (
          project_sab_queue-history-Perm fl s.compatibility.sab_version shown
            (shown-all w.db jobs (visible_jobs-all s.env sab (wanted_category fl s r) w.db))),
    )
