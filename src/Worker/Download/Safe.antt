-- ===== src/Worker/Download/Safe.antt =====
-- The writes of the downloader, and the edges of the diagram that it may take.
use tor_boxarr.Base.{Bool-cases, List, Str, any, inl, inr, str_eq, subst, ◌≡◌, ◌⊎◌}
use tor_boxarr.Diagram.{
  Way, along, arrive, begin_download, break_download, downloader, go_on, refuse_download,
  skip_download,
}
use tor_boxarr.Files.Downloader.{Outcome}
use tor_boxarr.Model.{
  Job, JobState, TransferPart, failed, local_download_pending, local_downloading, local_verify,
}
use tor_boxarr.Store.Jobs.{update_job_state, write_state}
use tor_boxarr.Store.Parts.{same_part, upsert_part, upsert_transfer_part}
use tor_boxarr.Store.Rules.{Applied, Triple-exec_write}
use tor_boxarr.Store.StateRules.{Moved, Triple-move_any, Triple-write_any}
use tor_boxarr.Torbox.Client.{Result, err, ok}
use tor_boxarr.Worker.Download.Progress.{Session}
use tor_boxarr.Worker.Helpers.{Orchestrator}
use tor_boxarr.World.{Effect, M, Tables, attempt, ignore, pure}
use tor_boxarr.World.Triple.{
  Caught, Triple, Triple-attempt, Triple-ignore, Triple-pure, Triple-weaken, Triple-with_text, ◌⇒◌,
}

-- A job that the downloader claims.
abbrev pub IsDownloadable : JobState → Type 0
IsDownloadable s = (s ≡ local_download_pending) ⊎ (s ≡ local_downloading)

pub to_downloading : (s : JobState) → IsDownloadable s → Way downloader s local_downloading
to_downloading s (inl h) = rw h (along begin_download)
to_downloading s (inr h) = rw h (along go_on)

pub to_verify : (s : JobState) → IsDownloadable s → Way downloader s local_verify
to_verify s (inl h) = rw h (along skip_download)
to_verify s (inr h) = rw h (along arrive)

pub to_failed : (s : JobState) → IsDownloadable s → Way downloader s failed
to_failed s (inl h) = rw h (along refuse_download)
to_failed s (inr h) = rw h (along break_download)

-- The job in hand stays the one with this id.
abbrev pub Names : Str → Session → Type 0
Names id s = s.job.id ≡ id

upserted-Moved :
    (old : List Job) (id : Str) (s0 : JobState) (part : TransferPart) (t : Tables) (l : List Effect)
    → Moved downloader old id s0 t l
    → Applied
        (λ _. Moved downloader old id s0)
        (Moved downloader old id s0)
        t
        (upsert_part part t)
        l
unfolding upsert_part
upserted-Moved old id s0 part t l h =
    elim (Bool-cases (any (λ row. str_eq row.id part.job_id) t.jobs)) [
      | inl there ↦ rw there (elim (Bool-cases (any (same_part part) t.parts)) [
        | inl hit ↦ rw hit h
        | inr miss ↦ rw miss h
      ])
      | inr missing ↦ rw missing h
    ]

module _ (o : Orchestrator) (old : List Job) (id : Str) {s0 : JobState}
    (dl : IsDownloadable s0) where
  -- A program that moves only this row, as far as the diagram allows.
  abbrev pub Safe : {A : Type 0} → M A → Type 0
  Safe m =
      Triple (Moved downloader old id s0) m (λ _. Moved downloader old id s0)
        (Moved downloader old id s0)

  pub move-Safe :
      (job : Job) (next : JobState) (message : Str)
      → job.id ≡ id
      → Way downloader s0 next
      → Safe (update_job_state o.env job next message)
  move-Safe job next message e way =
      subst
        (λ i.
          Triple (Moved downloader old i s0) (update_job_state o.env job next message)
            (λ _. Moved downloader old i s0) (Moved downloader old i s0))
        e (Triple-move_any old s0 o.env job next message way)

  pub write-Safe :
      (job : Job) (prev : JobState) (message : Str)
      → job.id ≡ id
      → Way downloader s0 job.state
      → Safe (write_state o.env job prev job.state message)
  write-Safe job prev message e way =
      subst
        (λ i.
          Triple (Moved downloader old i s0) (write_state o.env job prev job.state message)
            (λ _. Moved downloader old i s0) (Moved downloader old i s0))
        e (Triple-write_any old s0 o.env job prev message way)

  pub upsert-Safe : (part : TransferPart) → Safe (upsert_transfer_part o.env part)
  unfolding upsert_transfer_part
  upsert-Safe part =
      Triple-with_text _
        (Triple-exec_write o.env _ (λ t l d h. h) (λ t l h. h) (upserted-Moved old id s0 part))

  -- As the callback of the downloader: the session keeps its job.
  abbrev pub SafeStep : M (Outcome Session) → Type 0
  SafeStep m =
      Triple (Moved downloader old id s0) m
        (λ r t l. record { fact : Names id r.state; state : Moved downloader old id s0 t l })
        (Moved downloader old id s0)

  pub pure-SafeStep : (r : Outcome Session) → Names id r.state → SafeStep (pure r)
  pure-SafeStep r e = Triple-pure r (λ t l h. record { fact = e; state = h })

  -- What is caught is safe on both sides.
  pub attempt-Safe : {A : Type 0} {m : M A} → Safe m → Safe (attempt m)
  attempt-Safe h = Triple-weaken (Triple-attempt h) (λ t l p. p) caught (λ t l p. p)
    where
      caught :
          {A : Type 0} (r : Result A)
          → ◌⇒◌
              (Caught (λ (_ : A). Moved downloader old id s0) (Moved downloader old id s0) r)
              (Moved downloader old id s0)
      caught (ok a) t l p = p
      caught (err x) t l p = p

  pub ignore-Safe : {A : Type 0} {m : M A} → Safe m → Safe (ignore m)
  ignore-Safe h = Triple-ignore h (λ a t l p. p) (λ t l p. p)
