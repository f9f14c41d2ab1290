-- ===== src/Store/EventRules.antt =====
-- Events leave the jobs as they are.
use tor_boxarr.Base.{Bool-cases, List, Option, Str, any, inl, inr, str_eq}
use tor_boxarr.Model.{Job, JobState, Time}
use tor_boxarr.Store.Jobs.{append_event, insert_event}
use tor_boxarr.Store.Rules.{Applied, Triple-exec_write}
use tor_boxarr.World.{Effect, Env, Tables}
use tor_boxarr.World.Triple.{Anything, Triple, Triple-ask, Triple-bind, Triple-with_text}

pub event-Applied :
    (P : List Job → Type 0) (id : Str) (from to : Option JobState) (message : Str) (now : Time)
    (t : Tables) (l : List Effect)
    → P t.jobs
    → Applied (λ _ t l. P t.jobs) (λ t l. P t.jobs) t (insert_event id from to message now t) l
unfolding insert_event
event-Applied P id from to message now t l h =
    elim (Bool-cases (any (λ row. str_eq row.id id) t.jobs)) [
      | inl there ↦ rw there h
      | inr missing ↦ rw missing h
    ]

-- An event leaves the jobs as they are.
pub append_event-Triple :
    (P : List Job → Type 0) (e : Env) (id : Str) (from to : Option JobState) (message : Str)
    → Triple (λ t l. P t.jobs) (append_event e id from to message) (λ _ t l. P t.jobs) Anything
unfolding append_event
append_event-Triple P e id from to message = Triple-bind (Triple-ask _) λ now.
    Triple-with_text _
      (Triple-exec_write e _ (λ t l d h. h) (λ t l h. tt) (event-Applied P id from to message now))
