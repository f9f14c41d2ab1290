-- ===== src/Worker/Submit/Backoff.antt =====
-- The delay between two attempts to submit a job.
use Prim.Native.Nat.{max}
use native.Mathlib.Nat.{pow-suc}
use tor_boxarr.Base.{
  ℕ, zero, suc, ◌+◌, ◌-◌, ◌*◌, ◌/◌, ◌^◌, ◌≤◌, ◌<◌, ◌≡◌, refl, ℤ, pos, false, arith, leb_ℤ, max_ℤ,
  quot_ℤ, ltb_ℤ, add64_exact, two_63, ltb, if◌then◌else◌, ap, ◌∙◌,
}
use tor_boxarr.Torbox.Client.{ok}
use tor_boxarr.World.{Env, World, ask, pure, ◌>>=◌}
use tor_boxarr.Worker.Helpers.{Orchestrator, with_jitter}
use tor_boxarr.Worker.Submit.{backoff_delay, submit_backoff}

-- `rand.Int64N(b)` gives a number in [0, b).
abbrev pub IsRandom : Env → Type 0
IsRandom e = (n b : ℕ) → 0 < b → (r : ℕ) × (e.random n (pos b) ≡ pos r) × (r < b)

abbrev bound : ℕ → ℕ
bound d = max (d / 5) 1

max-quot : (d : ℕ) → max_ℤ (quot_ℤ (pos d) 5) (pos 1) ≡ pos (bound d)
unfolding max_ℤ quot_ℤ ltb_ℤ
max-quot d = ground arith

positive : (d : ℕ) → leb_ℤ (pos (suc d)) (pos 0) ≡ false
unfolding leb_ℤ
positive d = ground arith

drawn_value :
    (e : Env) (d r : ℕ) (w : World)
    → e.random w.tick (pos (bound (suc d))) ≡ pos r
    → suc d + r < two_63
    → (with_jitter e (pos (suc d)) w).0 ≡ ok (pos (suc d + r))
unfolding with_jitter ask pure ◌>>=◌
drawn_value e d r w drawn small =
    rw (positive d, max-quot (suc d), drawn, add64_exact (suc d) r small)

-- The jitter is at most a fifth.
jittered :
    (e : Env) (d : ℕ) (w : World)
    → IsRandom e
    → d + d / 5 < two_63
    → (wait : ℕ) × ((with_jitter e (pos d) w).0 ≡ ok (pos wait)) × (d ≤ wait) × (wait ≤ d + d / 5)
unfolding with_jitter ask pure ◌>>=◌ leb_ℤ
jittered e zero w rnd h = (0, refl, omega arith, omega arith)
jittered e (suc d) w rnd h =
    let (r, drawn, below) = rnd w.tick (bound (suc d)) (omega arith) in
    (suc d + r, drawn_value e d r w drawn (omega arith), omega arith, omega arith)

backoff_delay-capped : (base top : ℕ) (count : ℤ) → backoff_delay base top count ≤ top
unfolding backoff_delay
backoff_delay-capped base top count = ground arith

doubled : (base n : ℕ) → base * 2 ^ suc n ≡ 2 * (base * 2 ^ n)
doubled base n = rw (pow-suc 2 n) grind arith

abbrev pub cap : ℕ → ℕ → ℕ
cap top d = if ltb top d then top else d

cap-doubled : (d top : ℕ) → cap top (2 * d) ≡ cap top (2 * cap top d)
cap-doubled d top = ground arith

-- The delay before the first new attempt is the least delay, and each further attempt doubles it,
-- both up to the greatest delay.
pub backoff_delay-doubles :
    (base top n : ℕ)
    → (backoff_delay base top (pos 1) ≡ cap top base)
      × (backoff_delay base top (pos (suc (suc n)))
          ≡ cap top (2 * backoff_delay base top (pos (suc n))))
unfolding backoff_delay
backoff_delay-doubles base top n = (
  ap (cap top) (omega arith),
  rw (pred (suc n), pred n) (ap (cap top) (doubled base n) ∙ cap-doubled (base * 2 ^ n) top),
)
  where
    pred : (n : ℕ) → suc n - 1 ≡ n
    pred n = omega arith

-- With a random source that keeps to its range and a greatest delay of which six fifths are an
-- `int64`, the wait before the next attempt to submit is never an error. It is at least the
-- exponential delay, which is at most the greatest delay, and above it by at most a fifth of it.
pub submit_backoff-bounds :
    (o : Orchestrator) (count : ℤ) (w : World)
    → IsRandom o.env
    → let top = o.workers.submit_retry_max in
      let delay = backoff_delay o.workers.submit_retry_min top count in
      top + top / 5 < two_63
      → (wait : ℕ) × ((submit_backoff o count w).0 ≡ ok (pos wait))
        × (delay ≤ wait)
        × (wait ≤ delay + delay / 5)
        × (delay ≤ top)
unfolding submit_backoff
submit_backoff-bounds o count w rnd h =
    let capped = backoff_delay-capped o.workers.submit_retry_min o.workers.submit_retry_max count in
    let (wait, result, low, high) =
      jittered o.env (backoff_delay o.workers.submit_retry_min o.workers.submit_retry_max count) w
        rnd (omega arith) in
    (wait, result, low, high, capped)
