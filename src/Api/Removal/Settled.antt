-- ===== src/Api/Removal/Settled.antt =====
-- A removal that is requested again changes nothing.
use tor_boxarr.Api.Library.{Server}
use tor_boxarr.Api.Removal.{mark_remove_pending, request_removal}
use tor_boxarr.Base.{
  Bool, Bool-cases, List, Option, Str, [], any, ap, false, find, inl, inr, none, refl, some, str_eq,
  str_eq_refl, subst, suc, sym, true, ℕ, ◌&&◌, ◌||◌, ◌∙◌, ◌∷◌, ◌≡◌, ◌⊎◌,
}
use tor_boxarr.Model.{Job, remove_pending, removed, state_eq}
use tor_boxarr.Store.EventRules.{append_event-Triple}
use tor_boxarr.Store.Jobs.{
  get_job_by_public_id, overwrite, overwritten, update_clash, update_job, update_job_state,
  update_row, write_state,
}
use tor_boxarr.Store.Retry.{query}
use tor_boxarr.Store.Rules.{Applied, Triple-exec_write, Triple-query}
use tor_boxarr.Torbox.Client.{ok}
use tor_boxarr.World.{Effect, Tables, World, ask, pure, ◌>>=◌}
use tor_boxarr.World.Triple.{
  Anything, Triple, Triple-ask, Triple-bind, Triple-if, Triple-pure, Triple-with_text, after_ok,
}

abbrev pub with_public_id : Str → Job → Bool
with_public_id public_id row = str_eq row.public_id public_id

abbrev pub is_leaving : Job → Bool
is_leaving job = state_eq job.state removed || state_eq job.state remove_pending

-- The row that a public id names, if there is one, is removed or waits for it.
abbrev pub IsSettled : Str → List Job → Type 0
IsSettled public_id rows =
    (find (with_public_id public_id) rows ≡ none)
    ⊎ ((row : Job) × (find (with_public_id public_id) rows ≡ some row) × (is_leaving row ≡ true))

at_head :
    (public_id : Str) (job next : Job) (rows : List Job)
    → next.id ≡ job.id
    → str_eq job.public_id public_id ≡ true
    → find (with_public_id public_id) (overwrite next (job ∷ rows)) ≡ some (overwritten next job)
unfolding overwrite
at_head public_id job next rows same hit =
    let its : str_eq job.id next.id ≡ true = rw same (str_eq_refl job.id) in rw (its, hit)

passed_by :
    (public_id : Str) (next row : Job) (rows : List Job)
    → str_eq row.public_id public_id ≡ false
    → find (with_public_id public_id) (overwrite next (row ∷ rows))
      ≡ find (with_public_id public_id) (overwrite next rows)
unfolding overwrite
passed_by public_id next row rows miss = elim (Bool-cases (str_eq row.id next.id)) [
  | inl e ↦ rw (e, miss)
  | inr e ↦ rw (e, miss)
]

find-overwrite :
    (public_id : Str) (job next : Job) (rows : List Job)
    → next.id ≡ job.id
    → find (with_public_id public_id) rows ≡ some job
    → find (with_public_id public_id) (overwrite next rows) ≡ some (overwritten next job)
find-overwrite public_id job next [] same h = cc
find-overwrite public_id job next (row ∷ rows) same h =
    elim (Bool-cases (str_eq row.public_id public_id)) [
      | inl hit ↦
          let head : some row ≡ some job = rw hit at h in
          let row_is : job ≡ row = cc in
          subst
            (λ r.
              find (with_public_id public_id) (overwrite next (r ∷ rows))
              ≡ some (overwritten next job))
            row_is
            (at_head public_id job next rows same
              (subst (λ r. str_eq r.public_id public_id ≡ true) (sym row_is) hit))
      | inr miss ↦
          passed_by public_id next row rows miss
          ∙ find-overwrite public_id job next rows same (rw miss at h)
    ]

removal-Applied :
    (public_id : Str) (job next : Job) (t : Tables) (l : List Effect)
    → next.id ≡ job.id
    → is_leaving next ≡ true
    → find (with_public_id public_id) t.jobs ≡ some job
    → Applied
        (λ _ t l. IsSettled public_id t.jobs)
        (λ t l. find (with_public_id public_id) t.jobs ≡ some job)
        t
        (update_row next t)
        l
unfolding update_row
removal-Applied public_id job next t l same leaving h =
    elim (Bool-cases
      (any (λ row. str_eq row.id next.id) t.jobs && any (update_clash next) t.jobs)) [
        | inl clash ↦ rw clash h
        | inr fits ↦
            rw fits
              (inr (overwritten next job, find-overwrite public_id job next t.jobs same h, leaving))
      ]

request-IsSettled :
    (s : Server) (public_id : Str) (found : Option Job)
    → Triple
        (λ t l. find (with_public_id public_id) t.jobs ≡ found)
        (request_removal s found)
        (λ _ t l. IsSettled public_id t.jobs)
        Anything
unfolding request_removal update_job_state write_state update_job
request-IsSettled s public_id none = Triple-pure tt (λ t l h. inl h)
request-IsSettled s public_id (some job) =
    Triple-if (state_eq job.state removed || state_eq job.state remove_pending)
      (λ gone. Triple-pure tt (λ t l h. inr (job, h, gone)))
      λ _. Triple-bind (Triple-ask _) λ now.
        Triple-bind
          (Triple-bind (Triple-ask _) λ later.
            Triple-bind
              (Triple-bind
                (Triple-with_text _ (
                  Triple-exec_write s.env _ (λ t l d h. h) (λ t l h. tt)
                    (λ t l. removal-Applied public_id job _ t l refl refl)))
                λ _. append_event-Triple (IsSettled public_id) s.env job.id _ _ _)
              λ _. Triple-pure _ (λ t l h. h))
          λ _. Triple-pure tt (λ t l h. h)

mark-IsSettled :
    (s : Server) (public_id : Str)
    → Triple Anything
        (mark_remove_pending s public_id)
        (λ _ t l. IsSettled public_id t.jobs)
        Anything
unfolding mark_remove_pending get_job_by_public_id
mark-IsSettled s public_id =
    Triple-bind (Triple-query s.env _ (λ t l h. h) (λ t l h. refl)) (request-IsSettled s public_id)

nothing_left :
    (s : Server) (public_id : Str) (w : World)
    → s.env.query_fault w.tick ≡ none
    → IsSettled public_id w.jobs
    → mark_remove_pending s public_id w ≡ (ok tt, record w { tick = suc w.tick })
unfolding mark_remove_pending get_job_by_public_id query request_removal ◌>>=◌ ask pure
nothing_left s public_id w calm (inl missing) = rw (calm, missing)
nothing_left s public_id w calm (inr (row, found, leaving)) = rw (calm, found, leaving)

-- Once a removal request has succeeded, the row that its public id names, if there is one, is removed
-- or waits for its removal; and the same request again succeeds, if the read of the table does not
-- fail, and leaves all tables as they are.
pub mark_remove_pending-settles :
    (s : Server) (public_id : Str) (w : World)
    → ((n : ℕ) → s.env.query_fault n ≡ none)
    → (mark_remove_pending s public_id w).0 ≡ ok tt
    → let w' = (mark_remove_pending s public_id w).1 in
      IsSettled public_id w'.jobs
      × ((mark_remove_pending s public_id w').0 ≡ ok tt)
      × ((mark_remove_pending s public_id w').1.db ≡ w'.db)
mark_remove_pending-settles s public_id w calm first =
    let w' = (mark_remove_pending s public_id w).1 in
    let settled =
      after_ok (λ _ t l. IsSettled public_id t.jobs) (mark_remove_pending s public_id w).0 w' tt
        first ((mark-IsSettled s public_id).run w tt) in
    let again = nothing_left s public_id w' (calm w'.tick) settled in
    (settled, ap (λ r. r.0) again, ap (λ r. r.1.db) again)
