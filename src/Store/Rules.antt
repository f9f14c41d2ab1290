-- ===== src/Store/Rules.antt =====
-- Triples for `execWrite` and for queries: a statement is applied once, or the tables stay.
use tor_boxarr.Base.{ℕ, zero, suc, ◌+◌, pos, Option, none, some, List, [], ◌∷◌, ◌++◌}
use tor_boxarr.Torbox.Client.{Error, Result, ok, err}
use tor_boxarr.World.{Env, Tables, World, Effect, M, slept, fault}
use tor_boxarr.World.Triple.{
  Assertion, After, Caught, Triple, ◌⇒◌, Triple-pure, Triple-fail, Triple-lift, Triple-if,
  Triple-bind, Triple-attempt, Triple-ask, Triple-emit, Triple-weaken,
}
use tor_boxarr.Store.Retry.{
  Statement, sleep_context, settle, retry_loop, retry_sqlite_busy, exec_once, exec_write, query,
  unless_fault, applied, next_delay,
}

-- Sleeping is no concern of the assertion.
abbrev pub IsQuiet : Assertion → Type 0
IsQuiet P = (t : Tables) (l : List Effect) (d : ℕ) → P t l → P t (l ++ (slept (pos d) ∷ []))

-- What holds behind a statement that was applied or refused.
abbrev pub Applied :
    {A : Type 0} → (A → Assertion) → Assertion → Tables → Result (A × Tables) → List Effect → Type 0
Applied Q P t (ok (a, t')) l = Q a t' l
Applied Q P t (err x) l = P t l

sleep-Triple :
    {P E : Assertion} (e : Env) (d : ℕ)
    → IsQuiet P
    → ◌⇒◌ P E
    → Triple P (sleep_context e d) (λ _. P) E
unfolding sleep_context
sleep-Triple e d quiet weak =
    Triple-bind (Triple-emit _ (λ t l p. quiet t l d p))
      λ _. Triple-bind (Triple-ask _) λ f. Triple-lift (fault f) (λ a h t l p. p) weak

applied-Triple :
    {A : Type 0} {P : Assertion} {Q : A → Assertion} (stmt : Statement A)
    → ((t : Tables) (l : List Effect) → P t l → Applied Q P t (stmt t) l)
    → Triple P (λ w. applied (stmt w.db) w) Q P
applied-Triple {A} {P} {Q} stmt h = record { run = λ w p. go (stmt w.db) w (h w.db w.log p) }
  where
    go :
        (r : Result (A × Tables)) (w : World)
        → Applied Q P w.db r w.log
        → After Q P (applied r w).0 (applied r w).1
    go (ok (a, t)) w q = q
    go (err x) w q = q

module _ {A : Type 0} {P : Assertion} {Q : A → Assertion} {E : Assertion} (e : Env) where
  settle-Triple :
      (n d : ℕ) (again : ℕ → M A) (r : Result A)
      → IsQuiet P
      → ◌⇒◌ P E
      → ((d : ℕ) → Triple P (again d) Q E)
      → Triple (Caught Q P r) (settle e n d again r) Q E
  unfolding settle
  settle-Triple n d again (ok a) quiet weak more = Triple-pure a (λ t l q. q)
  settle-Triple n d again (err x) quiet weak more =
      Triple-if _ (λ _. Triple-fail x weak)
        (λ _. Triple-bind (sleep-Triple e d quiet weak) (λ _. more (next_delay d)))

  retry_loop-Triple :
      (fuel n d : ℕ) (fn : M A)
      → IsQuiet P
      → ◌⇒◌ P E
      → Triple P fn Q P
      → Triple P (retry_loop e fuel n d fn) Q E
  unfolding retry_loop
  retry_loop-Triple zero n d fn quiet weak once = Triple-fail _ weak
  retry_loop-Triple (suc fuel) n d fn quiet weak once =
      Triple-bind (Triple-weaken (Triple-attempt once) (λ t l p. p) (λ r t l q. q) weak) λ r.
        settle-Triple n d _ r quiet weak λ d. retry_loop-Triple fuel (n + 1) d fn quiet weak once

  -- A body that keeps `P` where it fails may be tried again.
  pub Triple-retry :
      (fn : M A) → IsQuiet P → ◌⇒◌ P E → Triple P fn Q P → Triple P (retry_sqlite_busy e fn) Q E
  unfolding retry_sqlite_busy
  Triple-retry fn quiet weak once = retry_loop-Triple _ _ _ fn quiet weak once

  unless_fault-Triple :
      (f : Option Error) {m : M A} → Triple P m Q E → ◌⇒◌ P E → Triple P (unless_fault f m) Q E
  unless_fault-Triple none h k = h
  unless_fault-Triple (some x) h k = Triple-fail x k

module _ {A : Type 0} {P : Assertion} {Q : A → Assertion} {E : Assertion} (e : Env) where
  pub Triple-exec_write :
      (stmt : Statement A)
      → IsQuiet P
      → ◌⇒◌ P E
      → ((t : Tables) (l : List Effect) → P t l → Applied Q P t (stmt t) l)
      → Triple P (exec_write e stmt) Q E
  unfolding exec_write exec_once
  Triple-exec_write stmt quiet weak h =
      Triple-retry e _ quiet weak (
        Triple-bind (Triple-ask _)
          λ f. unless_fault-Triple e f (applied-Triple stmt h) (λ t l p. p))

  pub Triple-query :
      (read : Tables → A)
      → ◌⇒◌ P E
      → ((t : Tables) (l : List Effect) → P t l → Q (read t) t l)
      → Triple P (query e read) Q E
  unfolding query
  Triple-query read weak h =
      Triple-bind (Triple-ask _)
        λ f. unless_fault-Triple e f (record { run = λ w p. h w.db w.log p }) weak
