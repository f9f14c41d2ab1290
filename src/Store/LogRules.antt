-- ===== src/Store/LogRules.antt =====
-- The writes of a handler make no call on the file system: what holds of the log goes on to hold.
use tor_boxarr.Base.{ℕ, pos, Str, List, [], ◌∷◌, ◌++◌}
use tor_boxarr.Model.{Job, JobState}
use tor_boxarr.Torbox.Client.{Result, ok, err}
use tor_boxarr.World.{Env, Tables, Effect, M, slept}
use tor_boxarr.World.Triple.{Triple, Triple-pure, Triple-bind, Triple-ask, Triple-with_text}
use tor_boxarr.Store.Retry.{Statement, exec_write}
use tor_boxarr.Store.Rules.{Applied, Triple-exec_write}
use tor_boxarr.Store.Jobs.{update_job, append_event, write_state, update_job_state}

-- What holds of the log before holds of it afterwards, with errors too.
abbrev pub KeepsLog : {A : Type 0} → (List Effect → Type 0) → M A → Type 0
KeepsLog P m = Triple (λ t l. P l) m (λ _ t l. P l) (λ t l. P l)

module _ {P : List Effect → Type 0}
    (quiet : (l : List Effect) (d : ℕ) → P l → P (l ++ (slept (pos d) ∷ []))) (e : Env) where
  pub exec_write-KeepsLog : {A : Type 0} (stmt : Statement A) → KeepsLog P (exec_write e stmt)
  exec_write-KeepsLog stmt =
      Triple-exec_write e stmt (λ t l d p. quiet l d p) (λ t l p. p) λ t l p. go t (stmt t) l p
    where
      go :
          {A : Type 0} (t : Tables) (r : Result (A × Tables)) (l : List Effect)
          → P l
          → Applied (λ (_ : A) t l. P l) (λ t l. P l) t r l
      go t (ok (a, t')) l p = p
      go t (err x) l p = p

  pub update_job_state-KeepsLog :
      (job : Job) (next : JobState) (message : Str)
      → KeepsLog P (update_job_state e job next message)
  unfolding update_job_state write_state update_job append_event
  update_job_state-KeepsLog job next message = Triple-bind (Triple-ask _) λ now.
      Triple-bind
        (Triple-bind (Triple-with_text _ (exec_write-KeepsLog _))
          λ _. Triple-bind (Triple-ask _) λ now. Triple-with_text _ (exec_write-KeepsLog _))
        λ _. Triple-pure _ (λ t l p. p)
