-- ===== src/Store/RetryBound.antt =====
-- The attempts that `retrySQLiteBusy` makes: at most six, so that the fuel of the model is enough.
use tor_boxarr.Base.{
  Bool, List, [], ap, arith, false, if◌then◌else◌, leb, map, none, not, pos, refl, suc, true, zero,
  ℕ, ◌++◌, ◌+◌, ◌-◌, ◌||◌, ◌∙◌, ◌∷◌, ◌≡◌, ◌≤◌,
}
use tor_boxarr.Store.Retry.{
  is_sqlite_busy, next_delay, retry_attempts, retry_base_delay, retry_loop, retry_sqlite_busy,
  settle, sleep_context,
}
use tor_boxarr.Torbox.Client.{Error, Result, err, ok}
use tor_boxarr.World.{
  Effect, Env, M, World, ask, attempt, bind_result, emit, fail, lift, slept, ◌>>=◌, ◌>>◌,
}

bind_result-same :
    {A B : Type 0} (r : Result A) (f g : A → M B) (w : World)
    → ((a : A) (w : World) → f a w ≡ g a w)
    → bind_result r f w ≡ bind_result r g w
bind_result-same (ok a) f g w same = same a w
bind_result-same (err x) f g w same = refl

module _ {A : Type 0} (e : Env) (fn : M A) where
  settle-last :
      (d : ℕ) (f g : ℕ → M A) (r : Result A) (w : World) → settle e 5 d f r w ≡ settle e 5 d g r w
  unfolding settle
  settle-last d f g (ok a) w = refl
  settle-last d f g (err x) w = rw (last (is_sqlite_busy x)) refl
    where
      last : (b : Bool) → (not b || leb 5 5) ≡ true
      last true = refl
      last false = refl

  settle-same :
      (n d : ℕ) (f g : ℕ → M A) (r : Result A) (w : World)
      → ((d : ℕ) (w : World) → f d w ≡ g d w)
      → settle e n d f r w ≡ settle e n d g r w
  unfolding settle sleep_context ◌>>=◌
  settle-same n d f g (ok a) w same = refl
  settle-same n d f g (err x) w same =
      elim (not (is_sqlite_busy x) || leb (retry_attempts - 1) n)
        as (λ b.
          (if b then fail x else sleep_context e d >> f (next_delay d)) w
          ≡ (if b then fail x else sleep_context e d >> g (next_delay d)) w) [
            | true ↦ refl
            | false ↦
                bind_result-same (sleep_context e d w).0 _ _ (sleep_context e d w).1
                  (λ _ w'. same (next_delay d) w')
          ]

  more_fuel :
      (fuel big n d : ℕ) (w : World)
      → n + fuel ≡ 5
      → fuel ≤ big
      → retry_loop e (suc big) n d fn w ≡ retry_loop e (suc fuel) n d fn w
  unfolding retry_loop ◌>>=◌ attempt
  more_fuel zero big n d w h le =
      let n_is : n ≡ 5 = omega arith in rw n_is (settle-last d _ _ (fn w).0 (fn w).1)
  more_fuel (suc fuel) zero n d w h le = absurd (omega arith)
  more_fuel (suc fuel) (suc big) n d w h le =
      settle-same n d _ _ (fn w).0 (fn w).1
        (λ d' w'. more_fuel fuel big (n + 1) d' w' (omega arith) (omega arith))

-- The fuel of the loop is enough: with any fuel from six on, an operation is tried, and its result
-- returned, in the same way.
pub retry_loop-fuel :
    {A : Type 0} (e : Env) (fn : M A) (fuel : ℕ) (w : World)
    → retry_attempts ≤ fuel
    → retry_loop e fuel 0 retry_base_delay fn w ≡ retry_sqlite_busy e fn w
unfolding retry_sqlite_busy
retry_loop-fuel e fn zero w h = absurd (omega arith)
retry_loop-fuel e fn (suc fuel) w h =
    more_fuel e fn 5 fuel 0 retry_base_delay w (omega arith) (omega arith)

-- The world behind a sleep.
abbrev pub rested : ℕ → World → World
rested d w = record w { tick = suc w.tick; log = w.log ++ (slept (pos d) ∷ []) }

-- At every attempt the operation ends with a busy error, and leaves the tables and the log.
abbrev pub IsBusy : {A : Type 0} → M A → Type 0
IsBusy op =
    (w : World)
    → (x : Error) × (n : ℕ) × (is_sqlite_busy x ≡ true) × (op w ≡ (err x, record w { tick = n }))

-- The world behind `n` calls and sleeps of these lengths, in nanoseconds.
abbrev pub behind_sleeps : ℕ → List ℕ → World → World
behind_sleeps n ds w = record w { tick = n; log = w.log ++ map (λ d. slept (pos d)) ds }

five_more :
    (l : List Effect) (a b c d f : Effect)
    → ((((l ++ (a ∷ [])) ++ (b ∷ [])) ++ (c ∷ [])) ++ (d ∷ [])) ++ (f ∷ [])
      ≡ l ++ (a ∷ b ∷ c ∷ d ∷ f ∷ [])
five_more [] a b c d f = refl
five_more (x ∷ l) a b c d f = rw (five_more l a b c d f) refl

module _ {A : Type 0} (e : Env) (op : M A) (busy : IsBusy op)
    (calm : (k : ℕ) → e.sleep_fault k ≡ none) where
  once_more :
      (fuel n d : ℕ) (w : World)
      → leb 5 n ≡ false
      → (k : ℕ) × (retry_loop e (suc fuel) n d op w
          ≡ retry_loop e fuel (n + 1) (next_delay d) op (behind_sleeps k (d ∷ []) w))
  unfolding retry_loop ◌>>=◌ attempt settle sleep_context fail emit ask lift
  once_more fuel n d w early =
      let (x, k, is_busy, fails) = busy w in (suc k, rw (fails, is_busy, early, calm k) refl)

  at_last :
      (d : ℕ) (w : World)
      → (x : Error) × (k : ℕ) × (is_sqlite_busy x ≡ true)
        × (retry_loop e 1 5 d op w ≡ (err x, record w { tick = k }))
  unfolding retry_loop ◌>>=◌ attempt settle fail
  at_last d w = let (x, k, is_busy, fails) = busy w in (x, k, is_busy, rw (fails, is_busy) refl)

-- An operation that ends with a busy error at every attempt and leaves the tables and the log then, as
-- a statement does that SQLite refuses, is tried until an error of the database is returned: the tables
-- are as before, and behind the log stand sleeps of 25, 50, 100, 200 and 250 ms, where no sleep is cut
-- short.
pub retry_sqlite_busy-persistent :
    {A : Type 0} (e : Env) (op : M A) (w : World)
    → IsBusy op
    → ((n : ℕ) → e.sleep_fault n ≡ none)
    → (x : Error) × (n : ℕ) × (is_sqlite_busy x ≡ true)
      × (retry_sqlite_busy e op w ≡ (
        err x,
        behind_sleeps n (25_000_000 ∷ 50_000_000 ∷ 100_000_000 ∷ 200_000_000 ∷ 250_000_000 ∷ []) w,
      ))
unfolding retry_sqlite_busy next_delay
retry_sqlite_busy-persistent e op w busy calm =
    let (k1, s1) = once_more e op busy calm 5 0 25_000_000 w refl in
    let w1 = behind_sleeps k1 (25_000_000 ∷ []) w in
    let (k2, s2) = once_more e op busy calm 4 1 50_000_000 w1 refl in
    let w2 = behind_sleeps k2 (50_000_000 ∷ []) w1 in
    let (k3, s3) = once_more e op busy calm 3 2 100_000_000 w2 refl in
    let w3 = behind_sleeps k3 (100_000_000 ∷ []) w2 in
    let (k4, s4) = once_more e op busy calm 2 3 200_000_000 w3 refl in
    let w4 = behind_sleeps k4 (200_000_000 ∷ []) w3 in
    let (k5, s5) = once_more e op busy calm 1 4 250_000_000 w4 refl in
    let w5 = behind_sleeps k5 (250_000_000 ∷ []) w4 in
    let (x, k, is_busy, ends) = at_last e op busy calm 250_000_000 w5 in
    (
      x,
      k,
      is_busy,
      s1
          ∙ s2
          ∙ s3
          ∙ s4
          ∙ s5
          ∙ ends
          ∙ ap (λ log. (err x, record w { tick = k; log = log })) (five_more w.log _ _ _ _ _),
    )
