-- ===== src/Diagram.antt =====
-- The life of a job as a diagram of its states (the constants of internal/store/model.go), stated
-- apart from the handlers. What the workers do is compared with it.
use tor_boxarr.Base.{List, Option, Str, [], if◌then◌else◌, none, some, str_eq, ◌∷◌, ◌≡◌, ◌≢◌}
use tor_boxarr.Model.{
  Job, JobState, completed, failed, local_download_pending, local_downloading, local_verify,
  remote_active, remote_failed, remote_queued, remove_pending, removed, submit_pending,
  submit_retry,
}

-- The workers of internal/worker/orchestrator.go.
pub data Worker : Type 0 where
  submitter poller downloader finalizer remover : Worker

-- The edges that each worker owns.
pub data Edge : Worker → JobState → JobState → Type 0 where
  retry_pending : Edge submitter submit_pending submit_retry
  retry_again : Edge submitter submit_retry submit_retry
  queue_pending : Edge submitter submit_pending remote_queued
  queue_retry : Edge submitter submit_retry remote_queued
  start_pending : Edge submitter submit_pending remote_active
  start_retry : Edge submitter submit_retry remote_active
  refuse_pending : Edge submitter submit_pending remote_failed
  refuse_retry : Edge submitter submit_retry remote_failed
  activate : Edge poller remote_queued remote_active
  lose_queued : Edge poller remote_queued remote_failed
  lose_active : Edge poller remote_active remote_failed
  ready : Edge poller remote_active local_download_pending
  begin_download : Edge downloader local_download_pending local_downloading
  skip_download : Edge downloader local_download_pending local_verify
  refuse_download : Edge downloader local_download_pending failed
  go_on : Edge downloader local_downloading local_downloading
  arrive : Edge downloader local_downloading local_verify
  break_download : Edge downloader local_downloading failed
  finish : Edge finalizer local_verify completed
  repair : Edge finalizer local_verify local_downloading
  break_verify : Edge finalizer local_verify failed
  remove : Edge remover remove_pending removed
  refuse_removal : Edge remover remove_pending failed

-- What one run of a handler may do to the state in all: leave it, or take one edge of its worker. The
-- poller may also find a queued job active, and then take an edge of an active one.
pub data Way : Worker → JobState → JobState → Type 0 where
  here : {by : Worker} {s : JobState} → Way by s s
  along : {by : Worker} {s t : JobState} → Edge by s t → Way by s t
  through : {t : JobState} → Edge poller remote_active t → Way poller remote_queued t

pub activated-Way :
    {s t : JobState} → Way poller s remote_active → Edge poller remote_active t → Way poller s t
activated-Way here h = along h
activated-Way (along activate) h = through h
activated-Way (through again) h = elim again [ ]

-- The state of the row with an id.
abbrev pub state_of : Str → List Job → Option JobState
state_of id [] = none
state_of id (row ∷ rows) = if str_eq row.id id then some row.state else state_of id rows

-- All rows but one have the states that they had.
abbrev pub SameOthers : Str → List Job → List Job → Type 0
SameOthers id old new = (other : Str) → other ≢ id → state_of other new ≡ state_of other old

-- A handler moves the row of its job from `s` by an edge of its worker, and no other row.
pub record MovesOnly (by : Worker) (id : Str) (s : JobState) (old new : List Job) : Type 0 where
  pub others : SameOthers id old new
  pub to : JobState
  pub stored : state_of id new ≡ some to
  pub way : Way by s to
