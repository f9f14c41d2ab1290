-- ===== src/Worker/Finalize/Verified.antt =====
-- A job is moved to its completed path only behind a check of every part.
use tor_boxarr.Base.{
  Bool-cases, List, Option-cases, Str, [], inl, inr, ltb_ℤ, ltb_ℤ→le, none, pos, refl, some, subst,
  suc, sym, ℕ, ℤ, ◌∷◌, ◌≡◌, ◌≤ℤ◌, ◌⊎◌,
}
use tor_boxarr.Model.{Job, TransferPart}
use tor_boxarr.Torbox.Client.{Result, err, ok}
use tor_boxarr.Worker.Finalize.{download_again, finalize_parts, part_fault, verify_parts}
use tor_boxarr.Worker.Finalize.Back.{MaybeSent, SentBack, download_again-SentBack, still}
use tor_boxarr.Worker.Helpers.{Orchestrator}
use tor_boxarr.World.{Env, World, ask, pure, ◌>>=◌}
use tor_boxarr.World.Triple.{After}

-- The file of a part is there, and as long as the part's known length.
abbrev pub IsWhole : TransferPart → Result ℤ → Type 0
IsWhole part found =
    (size : ℤ) × (found ≡ ok size)
    × ((part.content_length ≤ℤ pos 0) ⊎ (part.content_length ≤ℤ size))

-- What the calls of `os.Stat` from the `n`th call on find.
abbrev pub AllWhole : Env → ℕ → List TransferPart → Type 0
AllWhole e n [] = Unit
AllWhole e n (part ∷ parts) = IsWhole part (e.stat n part.temp_path) × AllWhole e (suc n) parts

abbrev pub behind : ℕ → World → World
behind n w = record w { tick = n }

faultless :
    (part : TransferPart) (found : Result ℤ) → part_fault part found ≡ none → IsWhole part found
unfolding part_fault
faultless part (ok size) h = elim (Bool-cases (ltb_ℤ (pos 0) part.content_length)) [
  | inr unknown ↦ (size, refl, inl (ltb_ℤ→le (pos 0) part.content_length unknown))
  | inl known ↦ elim (Bool-cases (ltb_ℤ size part.content_length)) [
    | inr long ↦ (size, refl, inr (ltb_ℤ→le size part.content_length long))
    | inl short ↦ let bad : _ ≡ none = rw (known, short) at h in cc
  ]
]
faultless part (err x) h = cc

verified :
    (o : Orchestrator) (parts : List TransferPart) (w : World)
    → (AllWhole o.env w.tick parts)
      ⊎ ((msg : Str) × (n : ℕ) × (verify_parts o parts w ≡ (ok (some msg), behind n w)))
unfolding verify_parts ◌>>=◌ ask pure
verified o [] w = inl tt
verified o (part ∷ parts) w =
    elim (Option-cases (part_fault part (o.env.stat w.tick part.temp_path))) [
      | inr (msg, bad) ↦ inr (msg, suc w.tick, rw bad)
      | inl fine ↦ elim (verified o parts (behind (suc w.tick) w)) [
        | inl rest ↦ inl (faultless part _ fine, rest)
        | inr (msg, n, bad) ↦ inr (msg, n, rw (fine, bad))
      ]
    ]

-- The handler sends the job back to the download, behind `n` calls: it neither moves a file nor puts
-- the row in another state.
pub record IsSentBack (o : Orchestrator) (job : Job) (parts : List TransferPart) (w : World)
    : Type 0 where
  pub reason : Str
  pub calls : ℕ
  pub step : finalize_parts o job parts w ≡ download_again o job reason (behind calls w)
  pub outcome :
      After
        (λ _. SentBack w.jobs w.log job.id)
        (MaybeSent w.jobs w.log job.id)
        (finalize_parts o job parts w).0
        (finalize_parts o job parts w).1

sent_on :
    (o : Orchestrator) (job : Job) (part : TransferPart) (parts : List TransferPart) (w : World)
    (msg : Str) (n : ℕ)
    → verify_parts o (part ∷ parts) w ≡ (ok (some msg), behind n w)
    → finalize_parts o job (part ∷ parts) w ≡ download_again o job msg (behind n w)
unfolding finalize_parts ◌>>=◌
sent_on o job part parts w msg n bad = rw bad

-- Where the parts of a job are finalized, each part's file is found, as long as the part's length if that
-- is known, or else the job is sent back to the download: the only calls that change anything outside the
-- tables are the sleeps of the database's retries, so that no file is moved; no other row changes its
-- state, and the row of the job is in `local_downloading` if the handler succeeds, and in that or its old
-- state if it fails.
pub finalize_parts-verified :
    (o : Orchestrator) (job : Job) (part : TransferPart) (parts : List TransferPart) (w : World)
    → (AllWhole o.env w.tick (part ∷ parts)) ⊎ (IsSentBack o job (part ∷ parts) w)
finalize_parts-verified o job part parts w = elim (verified o (part ∷ parts) w) [
  | inl whole ↦ inl whole
  | inr (msg, n, bad) ↦
      let same = sent_on o job part parts w msg n bad in
      inr (record {
        reason = msg;
        calls = n;
        step = same;
        outcome =
            subst
              (λ r.
                After (λ _. SentBack w.jobs w.log job.id) (MaybeSent w.jobs w.log job.id) r.0 r.1)
              (sym same)
              ((download_again-SentBack w.jobs w.log o job msg).run (behind n w)
                (record { others = λ other ne. refl; state = refl; calls = still }));
      })
]
