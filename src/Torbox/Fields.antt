-- ===== src/Torbox/Fields.antt =====
-- internal/torbox/parse.go: the first field among some that can be read as a text, a number or a
-- truth value.
use tor_boxarr.Base.{
  Bool, List, Option, Str, [], false, if◌then◌else◌, is_empty, lit, none, parse_int, pos, show_int,
  some, ℤ, ◌||◌, ◌∷◌,
}
use tor_boxarr.Compat.Floats.{Floats}
use tor_boxarr.Torbox.Json.{
  Decoding, Fields, Json, array, flag, lookup, null, number, object, string,
}

module _ (fl : Floats) (d : Decoding fl) where
  abbrev pub is_set : fl.Float → Bool
  is_set x = fl.less x (fl.of_int (pos 0)) || fl.less (fl.of_int (pos 0)) x

  unfoldable pub stringify : Json fl.Float → Str
  stringify null = []
  stringify (string s) = s
  stringify (number x) = show_int (fl.to_int x)
  stringify (flag b) = if b then lit "true" else lit "false"
  stringify (array items) = d.print (array items)
  stringify (object fields) = d.print (object fields)

  abbrev pub text_of : Option (Json fl.Float) → Str
  text_of none = []
  text_of (some v) = stringify v

  unfoldable pub first_string : Fields fl.Float → List Str → Str
  first_string m [] = []
  first_string m (key ∷ keys) =
      if is_empty (text_of (lookup m key)) then first_string m keys else text_of (lookup m key)

  abbrev pub int_of : Option (Json fl.Float) → Option ℤ
  int_of (some (number x)) = some (fl.to_int x)
  int_of (some (string s)) = parse_int s
  int_of _ = none

  abbrev pub or_int : Option ℤ → ℤ → ℤ
  or_int none rest = rest
  or_int (some n) rest = n

  unfoldable pub first_int : Fields fl.Float → List Str → ℤ
  first_int m [] = pos 0
  first_int m (key ∷ keys) = or_int (int_of (lookup m key)) (first_int m keys)

  abbrev pub float_of : Option (Json fl.Float) → Option fl.Float
  float_of (some (number x)) = some x
  float_of (some (string s)) = d.parse_float s
  float_of _ = none

  abbrev pub or_float : Option fl.Float → fl.Float → fl.Float
  or_float none rest = rest
  or_float (some x) rest = x

  unfoldable pub first_float : Fields fl.Float → List Str → fl.Float
  first_float m [] = fl.of_int (pos 0)
  first_float m (key ∷ keys) = or_float (float_of (lookup m key)) (first_float m keys)

  -- The value of `boolField`: none where its second result is false.
  abbrev pub bool_of : Option (Json fl.Float) → Option Bool
  bool_of (some (flag b)) = some b
  bool_of (some (string s)) = d.parse_bool s
  bool_of (some (number x)) = some (is_set x)
  bool_of _ = none

  unfoldable pub bool_field : Fields fl.Float → Str → Option Bool
  bool_field m key = bool_of (lookup m key)

  abbrev pub or_bool : Option Bool → Bool → Bool
  or_bool none rest = rest
  or_bool (some b) rest = b

  unfoldable pub first_bool : Fields fl.Float → List Str → Bool
  first_bool m [] = false
  first_bool m (key ∷ keys) = or_bool (bool_of (lookup m key)) (first_bool m keys)
