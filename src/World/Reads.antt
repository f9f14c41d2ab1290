-- ===== src/World/Reads.antt =====
-- Programs that only read: whatever holds of the tables and of the log of calls holds behind them.
use tor_boxarr.Base.{Bool, List, false, if◌then◌else◌, refl, true, ◌≡◌}
use tor_boxarr.Store.Retry.{query}
use tor_boxarr.Store.Rules.{Triple-query}
use tor_boxarr.Torbox.Client.{Result, err, ok}
use tor_boxarr.World.{Effect, Env, M, Tables, World, attempt, lift, pure}
use tor_boxarr.World.Triple.{
  After, Assertion, Caught, Triple, Triple-attempt, Triple-if, Triple-lift, Triple-pure,
  Triple-weaken,
}

pub record IsUntouched (w w' : World) : Type 0 where
  pub tables : w'.db ≡ w.db
  pub effects : w'.log ≡ w.log

abbrev pub Reads : {A : Type 0} → Assertion → M A → Type 0
Reads P m = Triple P m (λ _. P) P

module _ {P : Assertion} where
  pub Reads-pure : {A : Type 0} (a : A) → Reads P (pure a)
  Reads-pure a = Triple-pure a (λ t l p. p)

  pub Reads-lift : {A : Type 0} (r : Result A) → Reads P (lift r)
  Reads-lift r = Triple-lift r (λ a h t l p. p) (λ t l p. p)

  pub Reads-query : {A : Type 0} (e : Env) (read : Tables → A) → Reads P (query e read)
  Reads-query e read = Triple-query e read (λ t l p. p) (λ t l p. p)

  pub Reads-attempt : {A : Type 0} {m : M A} → Reads P m → Reads P (attempt m)
  Reads-attempt h = Triple-weaken (Triple-attempt h) (λ t l p. p) caught (λ t l p. p)
    where
      caught :
          {A : Type 0} (r : Result A) (t : Tables) (l : List Effect)
          → Caught (λ _. P) P r t l
          → P t l
      caught (ok a) t l c = c
      caught (err x) t l c = c

  pub Reads-if :
      {A : Type 0} (b : Bool) {m n : M A}
      → (b ≡ true → Reads P m)
      → (b ≡ false → Reads P n)
      → Reads P (if b then m else n)
  Reads-if b h k = Triple-if b h k

-- A program that keeps every assertion leaves the tables and the log as they are.
pub reads-IsUntouched :
    {A : Type 0} (m : M A) (w : World)
    → Reads (λ t l. (t ≡ w.db) × (l ≡ w.log)) m
    → IsUntouched w (m w).1
reads-IsUntouched {A} m w h = go (m w).0 (m w).1 (h.run w (refl, refl))
  where
    Same : Assertion
    Same t l = (t ≡ w.db) × (l ≡ w.log)

    go : (r : Result A) (w' : World) → After (λ _. Same) Same r w' → IsUntouched w w'
    go (ok a) w' h = record { tables = h.0; effects = h.1 }
    go (err x) w' h = record { tables = h.0; effects = h.1 }
