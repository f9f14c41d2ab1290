-- ===== src/Worker/Finalize/Back.antt =====
-- What sending a job back to the download leaves behind.
use tor_boxarr.Base.{
  Bool-cases, List, Option, Str, [], any, inl, inr, none, pos, refl, some, str_eq, str_eq_refl,
  true, ℕ, ◌&&◌, ◌++◌, ◌∙◌, ◌∷◌, ◌≡◌, ◌⊎◌,
}
use tor_boxarr.Diagram.{SameOthers, state_of}
use tor_boxarr.Model.{Job, JobState, Time, local_downloading}
use tor_boxarr.Store.Jobs.{
  append_event, insert_event, update_clash, update_job, update_job_state, update_row, write_state,
}
use tor_boxarr.Store.Rules.{Applied, IsQuiet, Triple-exec_write}
use tor_boxarr.Store.StateRules.{after_put, state_of-overwrite, update_row-others}
use tor_boxarr.Worker.Finalize.{download_again}
use tor_boxarr.Worker.Helpers.{Orchestrator}
use tor_boxarr.World.{Effect, Tables, slept}
use tor_boxarr.World.Triple.{
  Assertion, Triple, Triple-ask, Triple-bind, Triple-pure, Triple-with_text, ◌⇒◌,
}

-- No call but the sleeps between the attempts of a write.
pub data Dozed (l0 : List Effect) : List Effect → Type 0 where
  still : Dozed l0 l0
  dozed : {l : List Effect} (d : ℕ) → Dozed l0 l → Dozed l0 (l ++ (slept (pos d) ∷ []))

abbrev pub downloading_again : Option JobState → Option JobState
downloading_again none = none
downloading_again (some s) = some local_downloading

-- The row of the job has a state of which `S` holds; no other row has changed its state since `old`,
-- and nothing was moved, opened or removed.
pub record Calm (old : List Job) (l0 : List Effect) (id : Str) (S : Option JobState → Type 0)
    (t : Tables) (l : List Effect) : Type 0 where
  pub others : SameOthers id old t.jobs
  pub state : S (state_of id t.jobs)
  pub calls : Dozed l0 l

-- With success the row is back in its download; with an error it may still be as it was.
abbrev pub SentBack : List Job → List Effect → Str → Assertion
SentBack old l0 id = Calm old l0 id λ s. s ≡ downloading_again (state_of id old)

abbrev pub Unsent : List Job → List Effect → Str → Assertion
Unsent old l0 id = Calm old l0 id λ s. s ≡ state_of id old

abbrev pub MaybeSent : List Job → List Effect → Str → Assertion
MaybeSent old l0 id =
    Calm old l0 id λ s. (s ≡ state_of id old) ⊎ (s ≡ downloading_again (state_of id old))

module _ (old : List Job) (l0 : List Effect) where
  Calm-quiet : (id : Str) (S : Option JobState → Type 0) → IsQuiet (Calm old l0 id S)
  Calm-quiet id S t l d h = record { others = h.others; state = h.state; calls = dozed d (h.calls) }

  Calm-weaken :
      (id : Str) {S R : Option JobState → Type 0}
      → ((s : Option JobState) → S s → R s)
      → ◌⇒◌ (Calm old l0 id S) (Calm old l0 id R)
  Calm-weaken id weak t l h = record {
    others = h.others;
    state = weak _ (h.state);
    calls = h.calls;
  }

  put_downloading : (s : Option JobState) → after_put true local_downloading s ≡ downloading_again s
  put_downloading none = refl
  put_downloading (some s) = refl

  -- The row in hand is on its way to the download.
  update_row-SentBack :
      (job : Job) (t : Tables) (l : List Effect)
      → job.state ≡ local_downloading
      → Unsent old l0 job.id t l
      → Applied (λ _. SentBack old l0 job.id) (Unsent old l0 job.id) t (update_row job t) l
  unfolding update_row
  update_row-SentBack job t l to h =
      elim (Bool-cases
        (any (λ row. str_eq row.id job.id) t.jobs && any (update_clash job) t.jobs)) [
          | inl clash ↦ rw clash h
          | inr fits ↦ rw fits (record {
            others = update_row-others old job t (h.others);
            state = state_of-overwrite job job.id t.jobs ∙ put;
            calls = h.calls;
          })
        ]
    where
      put :
          after_put (str_eq job.id job.id) job.state (state_of job.id t.jobs)
          ≡ downloading_again (state_of job.id old)
      put = rw (str_eq_refl job.id, to, h.state) (put_downloading (state_of job.id old))

  event-Calm :
      (id other : Str) (S : Option JobState → Type 0) (from to : Option JobState) (message : Str)
      (now : Time) (t : Tables) (l : List Effect)
      → Calm old l0 id S t l
      → Applied
          (λ _. Calm old l0 id S)
          (Calm old l0 id S)
          t
          (insert_event other from to message now t)
          l
  unfolding insert_event
  event-Calm id other S from to message now t l h =
      elim (Bool-cases (any (λ row. str_eq row.id other) t.jobs)) [
        | inl there ↦ rw there (record { others = h.others; state = h.state; calls = h.calls })
        | inr missing ↦ rw missing h
      ]

  pub download_again-SentBack :
      (o : Orchestrator) (job : Job) (msg : Str)
      → Triple
          (Unsent old l0 job.id)
          (download_again o job msg)
          (λ _. SentBack old l0 job.id)
          (MaybeSent old l0 job.id)
  unfolding download_again update_job_state write_state update_job append_event
  download_again-SentBack o job msg = Triple-bind (Triple-ask _) λ now.
      Triple-bind (Triple-ask _) λ later.
        Triple-bind
          (Triple-bind (Triple-ask _) λ at.
            Triple-bind
              (Triple-bind
                (Triple-with_text _ (
                  Triple-exec_write o.env _ (Calm-quiet job.id _) (Calm-weaken job.id λ s h. inl h)
                    (λ t l h. update_row-SentBack _ t l refl h)))
                λ _. Triple-bind (Triple-ask _) λ stamp. Triple-with_text _ (
                  Triple-exec_write o.env _ (Calm-quiet job.id _) (Calm-weaken job.id λ s h. inr h)
                    (event-Calm job.id job.id _ _ _ msg stamp)))
              λ _. Triple-pure _ (λ t l h. h))
          λ _. Triple-pure _ (λ t l h. h)
