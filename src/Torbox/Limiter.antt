-- ===== src/Torbox/Limiter.antt =====
-- internal/torbox/limiter.go: the token bucket, as a channel that holds `tokens` of `capacity` values.
pub mod Rate
use tor_boxarr.Base.{
  Bool, List, Option, [], false, if◌then◌else◌, leb_ℤ, ltb, none, pos, pos_part, some, true, ℕ, ℤ,
  ◌+◌, ◌-◌, ◌/◌, ◌<◌, ◌==◌, ◌||◌, ◌∷◌, ◌≡◌,
}
use tor_boxarr.Model.{Duration, closed}
use tor_boxarr.Torbox.Client.{Error}

pub record Bucket : Type 0 where
  pub capacity : ℕ
  pub tokens : ℕ
  -- The interval of the ticker, in nanoseconds: `time.NewTicker` panics where it is 0.
  pub tick_every : ℕ
  -- The channel `stop` is closed; the goroutine has not returned.
  pub closed : Bool
  pub running : Bool

-- none is the bucket without a channel, which limits nothing.
unfoldable pub new_token_bucket : ℤ → Duration → Option Bucket
new_token_bucket capacity refill_every =
    if leb_ℤ capacity (pos 0) || leb_ℤ refill_every (pos 0)
    then none
    else some (record {
      capacity = pos_part capacity;
      tokens = pos_part capacity;
      tick_every = pos_part refill_every / pos_part capacity;
      closed = false;
      running = true;
    })

-- The goroutine at a tick: it sends, unless the channel is full.
unfoldable pub refill : Bucket → Bucket
refill b = if ltb b.tokens b.capacity then record b { tokens = b.tokens + 1 } else b

-- The receive of `Wait`: none is a receive that blocks.
unfoldable pub take_token : Bucket → Option Bucket
take_token b = if b.tokens == 0 then none else some (record b { tokens = b.tokens - 1 })

-- What happens to a bucket, in the order in which its channel sees it.
pub data Event : Type 0 where
  ticked granted cancelled halt returned : Event

pub data Step : Bucket → Event → Bucket → Type 0 where
  -- Also where `stop` is closed: the select may see both. With the interval 0 the program has ended.
  ticks : (b : Bucket) → b.running ≡ true → 0 < b.tick_every → Step b ticked (refill b)
  grants : (b b' : Bucket) → take_token b ≡ some b' → Step b granted b'
  -- `Wait` returns `ctx.Err()`.
  cancels : (b : Bucket) → Step b cancelled b
  halts : (b : Bucket) → Step b halt (record b { closed = true })
  returns : (b : Bucket) → b.closed ≡ true → Step b returned (record b { running = false })

pub data Run : Bucket → List Event → Bucket → Type 0 where
  at_end : (b : Bucket) → Run b [] b
  and_then :
      {a b c : Bucket} {x : Event} {xs : List Event} → Step a x b → Run b xs c → Run a (x ∷ xs) c

abbrev pub is_granted : Event → Bool
is_granted granted = true
is_granted _ = false

abbrev pub is_tick : Event → Bool
is_tick ticked = true
is_tick _ = false

unfoldable pub count : (Event → Bool) → List Event → ℕ
count p [] = 0
count p (x ∷ xs) = let rest = count p xs in if p x then rest + 1 else rest

-- `MultiLimiter.Wait`: the answers of its waiters, in order; none is a nil waiter.
abbrev pub error_or : Option Error → Option Error → Option Error
error_or none rest = rest
error_or (some x) rest = some x

unfoldable pub wait_all : List (Option (Option Error)) → Option Error
wait_all [] = none
wait_all (none ∷ waiters) = wait_all waiters
wait_all (some answer ∷ waiters) = error_or answer (wait_all waiters)
