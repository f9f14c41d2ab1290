-- ===== src/Torbox/Json.antt =====
-- What `json.Unmarshal` makes of a text where the target is `any`: numbers are float64. The parser of
-- internal/torbox/parse.go reads nothing else, so that its cases for other types of numbers are left out.
use tor_boxarr.Base.{Bool, Option, Str, if◌then◌else◌, none, some, str_eq}
use tor_boxarr.Compat.Floats.{Floats}

mutual
  pub data Json (Float : Type 0) : Type 0 where
    null : Json Float
    flag : Bool → Json Float
    number : Float → Json Float
    string : Str → Json Float
    array : Items Float → Json Float
    object : Fields Float → Json Float

  pub data Items (Float : Type 0) : Type 0 where
    no_items : Items Float
    item : Json Float → Items Float → Items Float

  -- The fields of an object, each name once.
  pub data Fields (Float : Type 0) : Type 0 where
    no_fields : Fields Float
    entry : Str → Json Float → Fields Float → Fields Float

-- `strconv.ParseFloat`, `strconv.ParseBool`, and `%v` of a list or a map.
pub record Decoding (fl : Floats) : Type 0 where
  pub parse_float : Str → Option fl.Float
  pub parse_bool : Str → Option Bool
  pub print : Json fl.Float → Str

module _ {Float : Type 0} where
  unfoldable pub lookup : Fields Float → Str → Option (Json Float)
  lookup no_fields key = none
  lookup (entry k v fields) key = if str_eq k key then some v else lookup fields key
