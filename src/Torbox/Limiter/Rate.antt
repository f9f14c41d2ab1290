-- ===== src/Torbox/Limiter/Rate.antt =====
-- How many waits a bucket grants.
use tor_boxarr.Base.{
  Bool, Bool-cases, List, Option, [], arith, inl, inr, leb_ℤ, ltb, none, pos, refl, some, subst, ℕ,
  ◌+◌, ◌==◌, ◌||◌, ◌∙◌, ◌∷◌, ◌≡◌, ◌≤◌,
}
use tor_boxarr.Model.{Duration}
use tor_boxarr.Store.Jobs.{limited}
use tor_boxarr.Torbox.Limiter.{
  Bucket, Event, Run, Step, and_then, at_end, cancels, count, grants, halts, is_granted, is_tick,
  new_token_bucket, refill, returns, take_token, ticks,
}

abbrev Smaller : Bucket → Option Bucket → Type 0
Smaller a none = Unit
Smaller a (some b) =
    (b.capacity ≡ a.capacity) × (b.tokens ≤ b.capacity) × (1 + b.tokens ≤ a.tokens + 0)

take_token-Smaller : (a : Bucket) → a.tokens ≤ a.capacity → Smaller a (take_token a)
unfolding take_token
take_token-Smaller a h = elim (Bool-cases (a.tokens == 0)) [
  | inl empty ↦ rw empty tt
  | inr filled ↦ rw filled (refl, omega arith, ground arith)
]

Step-bound :
    {a b : Bucket} {x : Event}
    → Step a x b
    → a.tokens ≤ a.capacity
    → (b.capacity ≡ a.capacity)
      × (b.tokens ≤ b.capacity)
      × (count is_granted (x ∷ []) + b.tokens ≤ a.tokens + count is_tick (x ∷ []))
unfolding refill take_token count
Step-bound (ticks b going paced) h = elim (Bool-cases (ltb b.tokens b.capacity)) [
  | inl room ↦ rw room (refl, ground arith, omega arith)
  | inr full ↦ rw full (refl, h, omega arith)
]
Step-bound (grants a b taken) h = subst (Smaller a) taken (take_token-Smaller a h)
Step-bound (cancels b) h = (refl, h, omega arith)
Step-bound (halts b) h = (refl, h, omega arith)
Step-bound (returns b shut) h = (refl, h, omega arith)

count-cons :
    (p : Event → Bool) (x : Event) (xs : List Event)
    → count p (x ∷ xs) ≡ count p (x ∷ []) + count p xs
unfolding count
count-cons p x xs = elim (Bool-cases (p x)) [
  | inl hit ↦ rw hit (omega arith)
  | inr miss ↦ rw miss (omega arith)
]

Run-bound :
    {a b : Bucket} {xs : List Event}
    → Run a xs b
    → a.tokens ≤ a.capacity
    → (b.capacity ≡ a.capacity)
      × (b.tokens ≤ b.capacity)
      × (count is_granted xs + b.tokens ≤ a.tokens + count is_tick xs)
unfolding count
Run-bound (at_end b) h = (refl, h, omega arith)
Run-bound {a} {b} (and_then {b = middle} {x} {xs = ys} step run) h =
    let one = Step-bound step h in
    let more = Run-bound run one.1 in
    (more.0 ∙ one.0, more.1, rw (count-cons is_granted x ys, count-cons is_tick x ys) (omega arith))

abbrev Fresh : ℕ → Option Bucket → Type 0
Fresh c none = Unit
Fresh c (some a) = (a.capacity ≡ c) × (a.tokens ≡ c)

new_token_bucket-Fresh :
    (c : ℕ) (refill_every : Duration) → Fresh c (new_token_bucket (pos c) refill_every)
unfolding new_token_bucket
new_token_bucket-Fresh c refill_every =
    elim (Bool-cases (leb_ℤ (pos c) (pos 0) || leb_ℤ refill_every (pos 0))) [
      | inl unlimited ↦ rw unlimited tt
      | inr limited ↦ rw limited (refl, refl)
    ]

-- Whatever happens to a bucket of capacity `c`, and in whatever order: it never holds more than `c`
-- tokens, and the waits that it grants are at most `c` and one for each tick.
pub new_token_bucket-bounds :
    (c : ℕ) (refill_every : Duration) (a b : Bucket) (xs : List Event)
    → new_token_bucket (pos c) refill_every ≡ some a
    → Run a xs b
    → (b.tokens ≤ c) × (count is_granted xs ≤ c + count is_tick xs)
new_token_bucket-bounds c refill_every a b xs made run =
    let fresh = subst (Fresh c) made (new_token_bucket-Fresh c refill_every) in
    let bound = Run-bound run (rw (fresh.0, fresh.1) (omega arith)) in
    (omega (arith, bound.0, bound.1, fresh.0), omega (arith, bound.2, fresh.1))
