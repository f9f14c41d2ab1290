-- ===== src/Store/StateRules.antt =====
-- Triples for the writes of a handler: what they do to the states of the rows.
use tor_boxarr.Base.{
  Bool, Bool-cases, List, Option, Str, [], any, arith, if◌then◌else◌, inl, inr, none, refl, some,
  str_eq, str_eq_iff, str_eq_refl, sym, ◌&&◌, ◌∷◌, ◌≡◌,
}
use tor_boxarr.Diagram.{MovesOnly, SameOthers, Way, Worker, state_of}
use tor_boxarr.Model.{Job, JobState, Time}
use tor_boxarr.Store.Jobs.{
  append_event, insert_event, moved, overwrite, update_clash, update_job, update_job_state,
  update_row, write_state,
}
use tor_boxarr.Store.Rules.{Applied, Triple-exec_write}
use tor_boxarr.World.{Effect, Env, Tables}
use tor_boxarr.World.Triple.{
  Assertion, Triple, Triple-ask, Triple-bind, Triple-pure, Triple-weaken, Triple-with_text, ◌⇒◌,
}

abbrev pub after_put : Bool → JobState → Option JobState → Option JobState
after_put hit s none = none
after_put hit s (some t) = some (if hit then s else t)

pub state_of-overwrite :
    (job : Job) (other : Str) (rows : List Job)
    → state_of other (overwrite job rows)
      ≡ after_put (str_eq job.id other) job.state (state_of other rows)
unfolding overwrite
state_of-overwrite job other [] = refl
state_of-overwrite job other (row ∷ rows) = ground (
  arith,
  str_eq_iff row.id job.id,
  str_eq_iff row.id other,
  str_eq_iff job.id other,
  state_of-overwrite job other rows,
)

-- The row of the job is in state `s`, and no other row has changed its state since `old`.
abbrev pub Held : List Job → Str → JobState → Assertion
Held old id s t l = SameOthers id old t.jobs × (state_of id t.jobs ≡ some s)

abbrev pub Moved : Worker → List Job → Str → JobState → Assertion
Moved by old id s t l = MovesOnly by id s old t.jobs

pub Held-Moved :
    {by : Worker} (old : List Job) (id : Str) {s u : JobState}
    → Way by s u
    → ◌⇒◌ (Held old id u) (Moved by old id s)
Held-Moved {by} old id {s} {u} way t l h = record { others = h.0; to = u; stored = h.1; way = way }

pub update_row-others :
    (old : List Job) (job : Job) (t : Tables)
    → SameOthers job.id old t.jobs
    → SameOthers job.id old (overwrite job t.jobs)
update_row-others old job t h other ne = ground (
  arith,
  state_of-overwrite job other t.jobs,
  str_eq_iff job.id other,
  h other ne,
  λ (p : job.id ≡ other). ne (sym p),
)

update_row-Held :
    (old : List Job) (s : JobState) (job : Job) (t : Tables) (l : List Effect)
    → Held old job.id s t l
    → Applied (λ _. Held old job.id job.state) (Held old job.id s) t (update_row job t) l
unfolding update_row
update_row-Held old s job t l h = ground (
  arith,
  state_of-overwrite job job.id t.jobs,
  str_eq_refl job.id,
  h.0,
  update_row-others old job t h.0,
)

module _ {by : Worker} {old : List Job} {s s0 : JobState} (e : Env) where
  -- The row takes the state of the job in hand, or stays.
  pub Triple-update_job :
      (job : Job)
      → Way by s0 s
      → Triple
          (Held old job.id s)
          (update_job e job)
          (λ _. Held old job.id job.state)
          (Moved by old job.id s0)
  unfolding update_job
  Triple-update_job job way =
      Triple-with_text _ (
        Triple-exec_write e _ (λ t l d h. h) (Held-Moved old job.id way)
          (update_row-Held old s job))

  Triple-append_event :
      (id : Str) (from to : Option JobState) (message : Str)
      → Way by s0 s
      → Triple
          (Held old id s)
          (append_event e id from to message)
          (λ _. Held old id s)
          (Moved by old id s0)
  unfolding append_event insert_event
  Triple-append_event id from to message way = Triple-bind (Triple-ask _) λ now.
      Triple-with_text _ (
        Triple-exec_write e _ (λ t l d h. h) (Held-Moved old id way) (λ t l h. ground (arith, h.0)))

module _ {by : Worker} {old : List Job} {s s0 : JobState} (e : Env) where
  pub Triple-write_state :
      (job : Job) (prev : JobState) (message : Str)
      → Way by s0 s
      → Way by s0 job.state
      → Triple
          (Held old job.id s)
          (write_state e job prev job.state message)
          (λ _. Held old job.id job.state)
          (Moved by old job.id s0)
  unfolding write_state
  Triple-write_state job prev message way way' =
      Triple-bind (Triple-update_job e job way)
        λ _. Triple-append_event e job.id (some prev) (some job.state) message way'

  pub Triple-update_job_state :
      (job : Job) (next : JobState) (message : Str)
      → Way by s0 s
      → Way by s0 next
      → Triple
          (Held old job.id s)
          (update_job_state e job next message)
          (λ job' t l. record {
            fact : (now : Time) × (job' ≡ moved job next now);
            state : Held old job.id next t l;
          })
          (Moved by old job.id s0)
  unfolding update_job_state
  Triple-update_job_state job next message way way' = Triple-bind (Triple-ask _) λ now.
      Triple-bind (Triple-write_state (moved job next now) job.state message way way')
        λ _. Triple-pure _ (λ t l h. record { fact = (now, refl); state = h })

  -- The last write of a handler.
  pub Triple-move :
      (job : Job) (next : JobState) (message : Str)
      → Way by s0 s
      → Way by s0 next
      → Triple
          (Held old job.id s)
          (update_job_state e job next message)
          (λ _. Moved by old job.id s0)
          (Moved by old job.id s0)
  Triple-move job next message way way' =
      Triple-weaken (Triple-update_job_state job next message way way') (λ t l h. h)
        (λ job' t l h. Held-Moved old job.id way' t l h.state) (λ t l h. h)

  -- The last write of a handler that leaves the state alone.
  pub Triple-stay :
      (job : Job)
      → Way by s0 s
      → Way by s0 job.state
      → Triple
          (Held old job.id s)
          (update_job e job)
          (λ _. Moved by old job.id s0)
          (Moved by old job.id s0)
  Triple-stay job way way' =
      Triple-weaken (Triple-update_job e job way) (λ t l h. h) (λ _. Held-Moved old job.id way')
        (λ t l h. h)

-- A handler that need not know the stored state: whatever it is, a write takes it along.
module _ {by : Worker} (old : List Job) (s0 : JobState) where
  overwritten-Moved :
      (job : Job) (t : Tables) (l : List Effect)
      → Way by s0 job.state
      → Moved by old job.id s0 t l
      → MovesOnly by job.id s0 old (overwrite job t.jobs)
  overwritten-Moved job t l way h = record {
    others = update_row-others old job t h.others;
    to = job.state;
    stored = ground (arith, state_of-overwrite job job.id t.jobs, str_eq_refl job.id, h.stored);
    way = way;
  }

  update_row-Moved :
      (job : Job) (t : Tables) (l : List Effect)
      → Way by s0 job.state
      → Moved by old job.id s0 t l
      → Applied (λ _. Moved by old job.id s0) (Moved by old job.id s0) t (update_row job t) l
  unfolding update_row
  update_row-Moved job t l way h =
      elim (Bool-cases
        (any (λ row. str_eq row.id job.id) t.jobs && any (update_clash job) t.jobs)) [
          | inl clash ↦ rw clash h
          | inr fits ↦ rw fits (overwritten-Moved job t l way h)
        ]

  event-Moved :
      (id other : Str) (from to : Option JobState) (message : Str) (now : Time) (t : Tables)
      (l : List Effect)
      → Moved by old id s0 t l
      → Applied
          (λ _. Moved by old id s0)
          (Moved by old id s0)
          t
          (insert_event other from to message now t)
          l
  unfolding insert_event
  event-Moved id other from to message now t l h =
      elim (Bool-cases (any (λ row. str_eq row.id other) t.jobs)) [
        | inl there ↦ rw there h
        | inr missing ↦ rw missing h
      ]

  pub Triple-write_any :
      (e : Env) (job : Job) (prev : JobState) (message : Str)
      → Way by s0 job.state
      → Triple
          (Moved by old job.id s0)
          (write_state e job prev job.state message)
          (λ _. Moved by old job.id s0)
          (Moved by old job.id s0)
  unfolding write_state update_job append_event
  Triple-write_any e job prev message way =
      Triple-bind
        (Triple-with_text _
          (Triple-exec_write e _ (λ t l d h. h) (λ t l h. h) (λ t l. update_row-Moved job t l way)))
        λ _. Triple-bind (Triple-ask _) λ now. Triple-with_text _ (
          Triple-exec_write e _ (λ t l d h. h) (λ t l h. h)
            (event-Moved job.id job.id (some prev) (some job.state) message now))

  pub Triple-move_any :
      (e : Env) (job : Job) (next : JobState) (message : Str)
      → Way by s0 next
      → Triple
          (Moved by old job.id s0)
          (update_job_state e job next message)
          (λ _. Moved by old job.id s0)
          (Moved by old job.id s0)
  unfolding update_job_state
  Triple-move_any e job next message way = Triple-bind (Triple-ask _) λ now.
      Triple-bind (Triple-write_any e (moved job next now) job.state message way)
        λ _. Triple-pure _ (λ t l h. h)
