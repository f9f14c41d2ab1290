-- ===== src/Torbox/Outcome.antt =====
-- What holds of the value of a chain of results.
use tor_boxarr.Torbox.Client.{Result, err, ok}
use tor_boxarr.Torbox.Service.{◌>>?◌}

-- What holds of the value of a result, if it has one.
abbrev pub Holds : {A : Type 0} → (A → Type 0) → Result A → Type 0
Holds P (ok a) = P a
Holds P (err x) = Unit

pub Holds-bind :
    {A B : Type 0} (P : A → Type 0) (Q : B → Type 0) (r : Result A) (f : A → Result B)
    → Holds P r
    → ((a : A) → P a → Holds Q (f a))
    → Holds Q (r >>? f)
Holds-bind P Q (ok a) f h k = k a h
Holds-bind P Q (err x) f h k = tt

pub Holds-any :
    {A B : Type 0} (Q : B → Type 0) (r : Result A) (f : A → Result B)
    → ((a : A) → Holds Q (f a))
    → Holds Q (r >>? f)
Holds-any Q (ok a) f k = k a
Holds-any Q (err x) f k = tt
