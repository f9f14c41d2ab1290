-- ===== src/World/Triple.antt =====
-- Reasoning about programs of type `M A`: a triple says what holds of the tables and of the log of
-- calls behind a program, for its result and for its errors.
use tor_boxarr.Base.{ℕ, Bool, true, false, List, [], ◌∷◌, ◌++◌, if◌then◌else◌, ◌≡◌, refl}
use tor_boxarr.Torbox.Client.{Error, Result, ok, err}
use tor_boxarr.World.{
  Tables, World, Effect, M, pure, fail, bind_result, ◌>>=◌, attempt, ignore, lift, map_error,
  with_text, ask, emit,
}

abbrev pub Assertion : Type 1
Assertion = Tables → List Effect → Type 0

abbrev pub After : {A : Type 0} → (A → Assertion) → Assertion → Result A → World → Type 0
After Q E (ok a) w = Q a w.db w.log
After Q E (err x) w = E w.db w.log

pub record Triple {A : Type 0} (P : Assertion) (m : M A) (Q : A → Assertion) (E : Assertion)
    : Type 0 where
  pub run : (w : World) → P w.db w.log → After Q E (m w).0 (m w).1

-- One assertion entails the other.
abbrev pub ◌⇒◌ : Assertion → Assertion → Type 0
◌⇒◌ P Q = (t : Tables) (l : List Effect) → P t l → Q t l

-- What `attempt` makes of the two outcomes.
abbrev pub Caught : {A : Type 0} → (A → Assertion) → Assertion → Result A → Assertion
Caught Q E (ok a) = Q a
Caught Q E (err x) = E

module _ {A : Type 0} {P : Assertion} {Q : A → Assertion} {E : Assertion} where
  pub Triple-pure : (a : A) → ◌⇒◌ P (Q a) → Triple P (pure a) Q E
  unfolding pure
  Triple-pure a h = record { run = λ w p. h w.db w.log p }

  pub Triple-fail : (x : Error) → ◌⇒◌ P E → Triple P (fail x) Q E
  unfolding fail
  Triple-fail x h = record { run = λ w p. h w.db w.log p }

  pub Triple-lift :
      (r : Result A) → ((a : A) → r ≡ ok a → ◌⇒◌ P (Q a)) → ◌⇒◌ P E → Triple P (lift r) Q E
  unfolding lift
  Triple-lift (ok a) h k = record { run = λ w p. h a refl w.db w.log p }
  Triple-lift (err x) h k = record { run = λ w p. k w.db w.log p }

  pub Triple-weaken :
      {P' : Assertion} {Q' : A → Assertion} {E' : Assertion} {m : M A}
      → Triple P m Q E
      → ◌⇒◌ P' P
      → ((a : A) → ◌⇒◌ (Q a) (Q' a))
      → ◌⇒◌ E E'
      → Triple P' m Q' E'
  Triple-weaken {P'} {Q'} {E'} {m} h pre post error = record {
    run = λ w p. go (m w).0 (m w).1 (h.run w (pre w.db w.log p));
  }
    where
      go : (r : Result A) (w : World) → After Q E r w → After Q' E' r w
      go (ok a) w q = post a w.db w.log q
      go (err x) w q = error w.db w.log q

  pub Triple-attempt : {m : M A} → Triple P m Q E → Triple P (attempt m) (Caught Q E) E
  unfolding attempt
  Triple-attempt {m} h = record { run = λ w p. go (m w).0 (m w).1 (h.run w p) }
    where
      go : (r : Result A) (w : World) → After Q E r w → Caught Q E r w.db w.log
      go (ok a) w q = q
      go (err x) w q = q

  pub Triple-ignore :
      {R : Assertion} {m : M A}
      → Triple P m Q E
      → ((a : A) → ◌⇒◌ (Q a) R)
      → ◌⇒◌ E R
      → Triple P (ignore m) (λ _. R) E
  unfolding ignore
  Triple-ignore {R} {m} h k e = record { run = λ w p. go (m w).0 (m w).1 (h.run w p) }
    where
      go : (r : Result A) (w : World) → After Q E r w → R w.db w.log
      go (ok a) w q = k a w.db w.log q
      go (err x) w q = e w.db w.log q

  pub Triple-with_text :
      (f : Error → Error) {m : M A} → Triple P m Q E → Triple P (with_text f m) Q E
  unfolding with_text
  Triple-with_text f {m} h = record { run = λ w p. go (m w).0 (m w).1 (h.run w p) }
    where
      go : (r : Result A) (w : World) → After Q E r w → After Q E (map_error f r) w
      go (ok a) w q = q
      go (err x) w q = q

  pub Triple-if :
      (b : Bool) {m n : M A}
      → (b ≡ true → Triple P m Q E)
      → (b ≡ false → Triple P n Q E)
      → Triple P (if b then m else n) Q E
  Triple-if true h k = h refl
  Triple-if false h k = k refl

pub Triple-bind :
    {A B : Type 0} {P : Assertion} {Q : A → Assertion} {R : B → Assertion} {E : Assertion} {m : M A}
    {f : A → M B}
    → Triple P m Q E
    → ((a : A) → Triple (Q a) (f a) R E)
    → Triple P (m >>= f) R E
unfolding ◌>>=◌
Triple-bind {A} {B} {P} {Q} {R} {E} {m} {f} h k = record {
  run = λ w p. go (m w).0 (m w).1 (h.run w p);
}
  where
    go :
        (r : Result A) (w : World)
        → After Q E r w
        → After R E (bind_result r f w).0 (bind_result r f w).1
    go (ok a) w q = (k a).run w q
    go (err x) w q = q

pub Triple-ask : {A : Type 0} {P E : Assertion} (f : ℕ → A) → Triple P (ask f) (λ _. P) E
unfolding ask
Triple-ask f = record { run = λ w p. p }

pub Triple-emit :
    {P Q E : Assertion} (x : Effect)
    → ((t : Tables) (l : List Effect) → P t l → Q t (l ++ (x ∷ [])))
    → Triple P (emit x) (λ _. Q) E
unfolding emit
Triple-emit x h = record { run = λ w p. h w.db w.log p }

-- A fact about values that an assertion carries.
pub Triple-given :
    {A X : Type 0} {P : Assertion} {Q : A → Assertion} {E : Assertion} {m : M A}
    → (X → Triple P m Q E)
    → Triple (λ t l. record { fact : X; state : P t l }) m Q E
Triple-given h = record { run = λ w p. (h p.fact).run w p.state }

abbrev pub Anything : Assertion
Anything t l = Unit

pub Triple-any : {A : Type 0} (m : M A) → Triple Anything m (λ _. Anything) Anything
Triple-any {A} m = record { run = λ w p. go (m w).0 (m w).1 }
  where
    go : (r : Result A) (w : World) → After (λ _. Anything) Anything r w
    go (ok a) w = tt
    go (err x) w = tt

-- What holds of the result and the tables where the run succeeds.
pub after_ok :
    {A : Type 0} (Q : A → Assertion) (r : Result A) (w : World) (a : A)
    → r ≡ ok a
    → After Q Anything r w
    → Q a w.db w.log
after_ok Q r w a h q = rw h at q
