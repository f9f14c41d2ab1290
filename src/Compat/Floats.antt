-- ===== src/Compat/Floats.antt =====
-- The float64 arithmetic that internal/compat does, and its `math.Round`, `math.Ceil` and
-- `fmt.Sprintf("%.2f", x)`: the type and the operations are those of Go.
use tor_boxarr.Base.{ℤ, Bool, Str}

pub record Floats : Type 1 where
  pub Float : Type 0
  pub of_int : ℤ → Float
  pub to_int : Float → ℤ
  pub div : Float → Float → Float
  pub mul : Float → Float → Float
  pub less : Float → Float → Bool
  pub round : Float → Float
  pub ceil : Float → Float
  pub two_digits : Float → Str
  -- `d.Seconds()` of a duration.
  pub seconds : ℤ → Float
