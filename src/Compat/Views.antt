-- ===== src/Compat/Views.antt =====
-- The numbers that the qBittorrent view of a job shows.
use tor_boxarr.Base.{
  Bool, Bool-cases, arith, false, if◌then◌else◌, inl, inr, ltb_ℤ, max_ℤ, neg_part, negsuc, pos,
  pos_part, sub64, sub64_exact, true, two_63, ℕ, ℤ, ◌+ℤ◌, ◌<◌, ◌≡◌, ◌≤◌,
}
use tor_boxarr.Compat.Floats.{Floats}
use tor_boxarr.Compat.Qbit.{
  clamp, part_of, progress_in, project_qbit_progress, project_qbit_torrent,
}
use tor_boxarr.Compat.Transfer.{project_local_transfer_bytes, shows_bytes}
use tor_boxarr.Model.{
  Job, JobState, accepted, local_download_pending, local_downloading, local_verify, remote_active,
  remote_failed, remote_queued, remove_pending, removed, submit_pending, submit_retry,
}

-- A number of an `int64`.
abbrev pub IsInt64 : ℤ → Type 0
IsInt64 n = (pos_part n < two_63) × (neg_part n ≤ two_63)

left_over :
    (m n : ℕ)
    → m < two_63
    → n < two_63
    → pos n +ℤ max_ℤ (sub64 (pos m) (pos n)) (pos 0) ≡ max_ℤ (pos m) (pos n)
unfolding ◌+ℤ◌ max_ℤ ltb_ℤ
left_over m n h k = rw (sub64_exact m n h k) (ground arith)

floor_zero : (n : ℤ) → max_ℤ n (pos 0) ≡ pos (pos_part n)
unfolding max_ℤ ltb_ℤ
floor_zero (pos n) = ground arith
floor_zero (negsuc n) = ground arith

module _ (fl : Floats) where
  -- What IEEE 754 says of the numbers 0 and 1.
  pub record IsOrdered : Type 0 where
    pub zero_zero : fl.less (fl.of_int (pos 0)) (fl.of_int (pos 0)) ≡ false
    pub one_zero : fl.less (fl.of_int (pos 1)) (fl.of_int (pos 0)) ≡ false
    pub one_one : fl.less (fl.of_int (pos 1)) (fl.of_int (pos 1)) ≡ false

  abbrev pub IsShare : fl.Float → Type 0
  IsShare v = (fl.less v (fl.of_int (pos 0)) ≡ false) × (fl.less (fl.of_int (pos 1)) v ≡ false)

  clamp-IsShare : (v : fl.Float) → IsOrdered → IsShare (clamp fl v)
  unfolding clamp
  clamp-IsShare v h = elim (Bool-cases (fl.less v (fl.of_int (pos 0)))) [
    | inl low ↦ rw (low) (h.zero_zero, h.one_zero)
    | inr ok_low ↦ elim (Bool-cases (fl.less (fl.of_int (pos 1)) v)) [
      | inl high ↦ rw (ok_low, high) (h.one_zero, h.one_one)
      | inr fine ↦ rw (ok_low, fine) (ok_low, fine)
    ]
  ]

  progress-IsShare : (job : Job) → IsOrdered → IsShare (project_qbit_progress fl job)
  unfolding project_qbit_progress
  progress-IsShare job h = go job.state _ _
    where
      none_yet : IsShare (fl.of_int (pos 0))
      none_yet = (h.zero_zero, h.one_zero)

      whole : IsShare (fl.of_int (pos 1))
      whole = (h.one_zero, h.one_one)

      known :
          (b : Bool) (done total : ℤ)
          → IsShare (if b then fl.of_int (pos 0) else part_of fl done total)
      known true done total = none_yet
      known false done total = clamp-IsShare _ h

      failing :
          (b : Bool) (done total : ℤ)
          → IsShare (if b then part_of fl done total else fl.of_int (pos 0))
      failing true done total = clamp-IsShare _ h
      failing false done total = none_yet

      go : (st : JobState) (done total : ℤ) → IsShare (progress_in fl st done total)
      go accepted done total = none_yet
      go submit_pending done total = none_yet
      go submit_retry done total = none_yet
      go remote_queued done total = none_yet
      go remote_active done total = none_yet
      go remote_failed done total = failing _ done total
      go local_download_pending done total = none_yet
      go local_downloading done total = known _ done total
      go local_verify done total = whole
      go JobState.completed done total = whole
      go remove_pending done total = whole
      go removed done total = none_yet
      go JobState.failed done total = failing _ done total

transfer_added :
    (job : Job)
    → IsInt64 job.bytes_done
    → IsInt64 job.bytes_total
    → (project_local_transfer_bytes job).0
        +ℤ max_ℤ
            (sub64 (project_local_transfer_bytes job).1 (project_local_transfer_bytes job).0)
            (pos 0)
      ≡ max_ℤ (project_local_transfer_bytes job).1 (project_local_transfer_bytes job).0
unfolding project_local_transfer_bytes
transfer_added job done total = elim (Bool-cases (shows_bytes job.state)) [
  | inl shown ↦
      rw (shown, floor_zero job.bytes_done, floor_zero job.bytes_total)
        (left_over (pos_part job.bytes_total) (pos_part job.bytes_done) total.0 done.0)
  | inr hidden ↦ rw hidden (left_over 0 0 (omega arith) (omega arith))
]

-- In the view of a job whose counters are `int64`, and for any float arithmetic in which 0 < 0, 1 < 0
-- and 1 < 1 are false: what is completed and what is left add up to the size, and the progress is
-- neither less than 0 nor more than 1.
pub project_qbit_torrent-accounts :
    (fl : Floats) (job : Job)
    → IsOrdered fl
    → IsInt64 job.bytes_done
    → IsInt64 job.bytes_total
    → let info = project_qbit_torrent fl job in
      (info.completed +ℤ info.amount_left ≡ info.size) × IsShare fl info.progress
unfolding project_qbit_torrent
project_qbit_torrent-accounts fl job h done total =
    (transfer_added job done total, progress-IsShare fl job h)
