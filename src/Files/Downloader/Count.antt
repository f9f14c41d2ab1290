-- ===== src/Files/Downloader/Count.antt =====
-- The bytes that a download counts are those that it has received.
use tor_boxarr.Api.Categories.{existing}
use tor_boxarr.Base.{
  Bool, List, Option, Str, [], add64_exact, arith, leb, ltb_ℤ, none, not, pos, refl, some, true,
  two_63, ℕ, ℤ, ◌&&◌, ◌+◌, ◌<◌, ◌==◌, ◌||◌, ◌∷◌, ◌≡◌, ==_iff,
}
use tor_boxarr.Files.Downloader.{
  Outcome, Progress, end_of_body, notify_every, or_fail, proceed_on, read_body,
}
use tor_boxarr.Model.{Time, TransferPart}
use tor_boxarr.Torbox.Client.{Error, Result, err, ok}
use tor_boxarr.Worker.Download.Progress.{
  Session, after_start, checkpoint, make_visible, on_progress, should_checkpoint_progress,
}
use tor_boxarr.Worker.Helpers.{Orchestrator}
use tor_boxarr.World.{Effect, Env, M, Tables, World}
use tor_boxarr.World.Triple.{
  After, Anything, Triple, Triple-any, Triple-ask, Triple-bind, Triple-emit, Triple-if, Triple-pure,
  Triple-weaken,
}

abbrev pub total_of : List ℕ → ℕ
total_of [] = 0
total_of (n ∷ ns) = n + total_of ns

-- Without an error, the part ends with the count.
abbrev pub Counts : {S : Type 0} → ℕ → Outcome S → Tables → List Effect → Type 0
Counts n o t l = o.error ≡ none → o.part.bytes_done ≡ pos n

-- The callback leaves the part with the count that it is called with.
abbrev pub SetsCount : {S : Type 0} → Progress S → Type 0
SetsCount {S} progress =
    (s : S) (part : TransferPart) (current total : ℤ)
    → Triple Anything (progress s part current total) (λ o t l. o.part.bytes_done ≡ current)
        Anything

module _ {S : Type 0} (e : Env) (progress : Progress S) (keeps : SetsCount progress) where
  end_of_body-Counts :
      (ending : Option Error) (n : ℕ) (s : S) (part : TransferPart)
      → Triple Anything (end_of_body e progress ending (pos n) s part) (Counts n) Anything
  unfolding end_of_body
  end_of_body-Counts (some x) n s part = Triple-pure _ (λ t l p h. cc)
  end_of_body-Counts none n s part =
      Triple-weaken (keeps s _ (pos n) _) (λ t l p. p) (λ o t l kept _. kept) (λ t l p. p)

  proceed_on-Counts :
      (f : Option Error) (o : Outcome S) (m : ℕ) (next : S → TransferPart → M (Outcome S))
      → o.error ≡ f
      → ((s : S) (part : TransferPart) → Triple Anything (next s part) (Counts m) Anything)
      → Triple Anything (proceed_on f o next) (Counts m) Anything
  proceed_on-Counts none o m next same h = h o.state o.part
  proceed_on-Counts (some x) o m next same h =
      Triple-pure o (λ t l p none_left. let bad : some x ≡ none = rw same at none_left in cc)

  or_fail-Counts :
      (s : S) (part : TransferPart) (text : Str) (f : Option Error) (m : ℕ) (next : M (Outcome S))
      → Triple Anything next (Counts m) Anything
      → Triple Anything (or_fail s part text f next) (Counts m) Anything
  or_fail-Counts s part text none m next h = h
  or_fail-Counts s part text (some x) m next h = Triple-pure _ (λ t l p bad. cc)

  read_body-Counts :
      (chunks : List ℕ) (ending : Option Error) (total : ℤ) (n m : ℕ) (sent : Bool) (since : ℕ)
      (s : S) (part : TransferPart)
      → n + total_of chunks ≡ m
      → m < two_63
      → Triple Anything
          (read_body e progress chunks ending total (pos n) sent since s part)
          (Counts m)
          Anything
  unfolding read_body
  read_body-Counts [] ending total n m sent since s part sum h =
      let same : n ≡ m = omega arith in rw (← same) (end_of_body-Counts ending n s part)
  read_body-Counts (c ∷ chunks) ending total n m sent since s part sum h =
      rw (add64_exact n c (omega arith)) (
        Triple-if (c == 0)
          (λ empty.
            let is_zero : c ≡ 0 = (==_iff c 0).0 empty in
            read_body-Counts chunks ending total n m sent since s part (omega arith) h)
          (λ _. Triple-bind {Q = λ _. Anything} (Triple-emit _ (λ t l p. p)) λ _.
            Triple-bind {Q = λ _. Anything} (Triple-ask _) λ f. or_fail-Counts s part _ f m _ (
              Triple-if (not sent || leb notify_every (since + c))
                (λ _. Triple-bind (keeps s _ _ _) λ o.
                  Triple-weaken
                    (proceed_on-Counts o.error o m _ refl λ s part.
                      read_body-Counts chunks ending total (n + c) m true 0 s part (omega arith) h)
                    (λ t l p. tt) (λ o t l q. q) (λ t l p. p))
                (λ _.
                  read_body-Counts chunks ending total (n + c) m sent (since + c) s _ (omega arith)
                    h))))

ended :
    {S : Type 0} (m : ℕ) (r : Result (Outcome S)) (w : World) (o : Outcome S)
    → r ≡ ok o
    → After (Counts m) Anything r w
    → o.error ≡ none
    → o.part.bytes_done ≡ pos m
ended m r w o h q = rw h at q

module _ (o : Orchestrator) where
  checkpoint-SetsCount :
      (now : Time) (done total : ℤ) (s : Session) (part : TransferPart)
      → Triple Anything
          (checkpoint o now done total s part)
          (λ r t l. r.part.bytes_done ≡ part.bytes_done)
          Anything
  unfolding checkpoint
  checkpoint-SetsCount now done total s part =
      Triple-if (should_checkpoint_progress s.last_persist now done total)
        (λ _. Triple-bind {Q = λ _. Anything} (Triple-any _) λ r. Triple-pure _ (λ t l p. refl))
        (λ _. Triple-pure _ (λ t l p. refl))

  after_start-SetsCount :
      (now : Time) (done total : ℤ) (s : Session) (part : TransferPart) (r : Result (Unit {0}))
      → Triple Anything
          (after_start o now done total s part r)
          (λ r t l. r.part.bytes_done ≡ part.bytes_done)
          Anything
  after_start-SetsCount now done total s part (ok _) = checkpoint-SetsCount now done total _ part
  after_start-SetsCount now done total s part (err x) = Triple-pure _ (λ t l p. refl)

  make_visible-SetsCount :
      (now : Time) (done total : ℤ) (s : Session) (part : TransferPart)
      → Triple Anything
          (make_visible o now done total s part)
          (λ r t l. r.part.bytes_done ≡ part.bytes_done)
          Anything
  unfolding make_visible
  make_visible-SetsCount now done total s part =
      Triple-bind {Q = λ _. Anything} (Triple-any _) λ later.
        Triple-bind {Q = λ _. Anything} (Triple-any _)
          λ r. after_start-SetsCount now done total _ part r

  -- The program's callback.
  on_progress-SetsCount : SetsCount (on_progress o)
  unfolding on_progress
  on_progress-SetsCount s part current total = Triple-bind {Q = λ _. Anything} (Triple-any _) λ now.
      Triple-if (not s.visible && ltb_ℤ (pos 0) total)
        (λ _. make_visible-SetsCount now current total _ _)
        (λ _. checkpoint-SetsCount now current total _ _)

-- Where the kept bytes and those of the body are an `int64` together: if the loop over the body, with
-- the callback of the worker, ends without an error, whatever chunks it was read in and however often the
-- callback was called, the part counts the kept bytes and those of all chunks.
pub read_body-counted :
    (o : Orchestrator) (chunks : List ℕ) (ending : Option Error) (total : ℤ) (existing : ℕ)
    (sent : Bool) (s : Session) (part : TransferPart) (w : World) (r : Outcome Session)
    → existing + total_of chunks < two_63
    → (read_body o.env (on_progress o) chunks ending total (pos existing) sent 0 s part w).0 ≡ ok r
    → r.error ≡ none
    → r.part.bytes_done ≡ pos (existing + total_of chunks)
read_body-counted o chunks ending total existing sent s part w r fits result =
    let m = existing + total_of chunks in
    let out = read_body o.env (on_progress o) chunks ending total (pos existing) sent 0 s part w in
    ended m out.0 out.1 r result (
      (read_body-Counts o.env (on_progress o) (on_progress-SetsCount o) chunks ending total existing
          m sent 0 s part refl fits).run
        w tt)
