-- ===== src/Queue/Payload/Values.antt =====
-- JSON values and fields as `encoding/json` writes them, a string without its invalid UTF-8,
-- `omitempty`, and the reading of a value into a Go field, which fails on a value of another kind.
use saveinator.Prelude.{
  Bool, List, ◌∷◌, Option, none, some, Bytes, is_empty, ℤ, pos, eq_ℤ, if◌then◌else◌,
}
use saveinator.Text.Utf8.{to_valid_utf8}
use saveinator.Float64.{Float64, is_zero}

pub data Json : Type 0 where
  str : Bytes → Json
  int : ℤ → Json
  float : Float64 → Json
  bool : Bool → Json
  ints : List ℤ → Json

abbrev pub Fields : Type 0
Fields = List (Bytes × Json)

-- What a task carries: `payload []byte`.
pub data Body : Type 0 where
  object : Fields → Body
  malformed : Body

-- a string's value
abbrev pub text : Bytes → Json
text v = str (to_valid_utf8 v)

abbrev pub omit_str : Bytes → Bytes → Fields → Fields
omit_str k v rest = if is_empty v then rest else (k, text v) ∷ rest

abbrev pub omit_int : Bytes → ℤ → Fields → Fields
omit_int k v rest = if eq_ℤ v (pos 0) then rest else (k, int v) ∷ rest

abbrev pub omit_bool : Bytes → Bool → Fields → Fields
omit_bool k v rest = if v then (k, bool v) ∷ rest else rest

abbrev pub omit_float : Bytes → Float64 → Fields → Fields
omit_float k v rest = if is_zero v then rest else (k, float v) ∷ rest

abbrev pub as_str : Json → Option Bytes
as_str (str v) = some v
as_str _ = none

abbrev pub as_int : Json → Option ℤ
as_int (int v) = some v
as_int _ = none

abbrev pub as_bool : Json → Option Bool
as_bool (bool v) = some v
as_bool _ = none

abbrev pub as_float : Json → Option Float64
as_float (float v) = some v
as_float _ = none
