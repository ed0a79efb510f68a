-- ===== src/Runtime/Check.antt =====
-- Reading, checking and writing the values of settings: go/internal/runtime/store.go and `splitList` of
-- helpers.go. `FormatValue`, which writes a value for display, is left out.
use saveinator.Prelude.{
  ℕ, ◌^◌, ◌-◌, Bool, true, false, ◌&&◌, ◌||◌, List, [], ◌∷◌, Option, none, some, Bytes, codes,
  eq_bytes, contains, is_empty, ℤ, pos, negsuc, ltb_ℤ, ltb, ◌==◌, zero, suc, if◌then◌else◌,
}
use saveinator.Text.Split.{split, join}
use saveinator.Text.Trim.{trim_space, to_lower}
use saveinator.Text.Decimal.{format_int, parse_int, magnitude}
use saveinator.Runtime.Setting.{ValueType, Setting}
use saveinator.Runtime.Value.{Value}

-- the parts between commas, trimmed, without the empty ones
abbrev pub nonempty_parts : List Bytes → List Bytes
nonempty_parts [] = []
nonempty_parts (p ∷ ps) =
    let rest = nonempty_parts ps in if is_empty (trim_space p) then rest else trim_space p ∷ rest

unfoldable pub split_list : Bytes → List Bytes
split_list raw = nonempty_parts (split b',' raw)

-- The value of `strconv.Atoi`, which on an error of range is the nearest `int` and else 0.
abbrev pub clamp_magnitude : Bool → ℕ → ℤ
clamp_magnitude true zero = pos 0
clamp_magnitude true (suc n) = if ltb n (2 ^ 63) then negsuc n else negsuc (2 ^ 63 - 1)
clamp_magnitude false n = if ltb n (2 ^ 63) then pos n else pos (2 ^ 63 - 1)

abbrev pub clamp_parsed : Bool → Option ℕ → ℤ
clamp_parsed minus none = pos 0
clamp_parsed minus (some n) = clamp_magnitude minus n

unfoldable pub atoi_value : Bytes → ℤ
atoi_value [] = pos 0
atoi_value (c ∷ s) =
    if c == b'-'
    then clamp_parsed true (magnitude s)
    else if c == b'+'
    then clamp_parsed false (magnitude s)
    else clamp_parsed false (magnitude (c ∷ s))

-- The errors of `Validate`.
pub data Invalid : Type 0 where
  expected_bool : Invalid
  not_allowed : Invalid
  invalid_value : Bytes → Invalid
  empty_list : Invalid
  expected_int : Invalid
  below_min : Invalid
  above_max : Invalid

abbrev pub is_bool_word : Bytes → Bool
is_bool_word w =
    eq_bytes w (codes "1")
    || eq_bytes w (codes "0")
    || eq_bytes w (codes "true")
    || eq_bytes w (codes "false")
    || eq_bytes w (codes "yes")
    || eq_bytes w (codes "no")
    || eq_bytes w (codes "on")
    || eq_bytes w (codes "off")

-- the first part that is not allowed
unfoldable pub first_invalid : List Bytes → List Bytes → Option Bytes
first_invalid allowed [] = none
first_invalid allowed (p ∷ ps) =
    let rest = first_invalid allowed ps in if contains allowed p then rest else some p

unfoldable pub validate_int : Setting → Bytes → Option Invalid
validate_int def raw = elim (parse_int raw) [
  | none ↦ some expected_int
  | some n ↦
      if ltb_ℤ (pos 0) def.min_value && ltb_ℤ n def.min_value
      then some below_min
      else if ltb_ℤ (pos 0) def.max_value && ltb_ℤ def.max_value n
      then some above_max
      else none
]

unfoldable pub validate_trimmed : ValueType → Setting → Bytes → Option Invalid
unfolding first_invalid validate_int
validate_trimmed ValueType.bool def raw =
    if is_bool_word (to_lower raw) then none else some expected_bool
validate_trimmed ValueType.enum def raw =
    if contains def.allowed raw then none else some not_allowed
validate_trimmed ValueType.list def raw = elim (first_invalid def.allowed (split_list raw)) [
  | some part ↦ some (invalid_value part)
  | none ↦ if is_empty raw then some empty_list else none
]
validate_trimmed ValueType.int def raw = validate_int def raw

-- `none` is no error. The type is one of the four, so the `default` of the switch is not reached.
unfoldable pub validate : Setting → Bytes → Option Invalid
unfolding validate_trimmed
validate def raw = validate_trimmed def.value_type def (trim_space raw)

abbrev is_true_word : Bytes → Bool
is_true_word w =
    eq_bytes w (codes "1")
    || eq_bytes w (codes "true")
    || eq_bytes w (codes "yes")
    || eq_bytes w (codes "on")

unfoldable pub parse_trimmed : ValueType → Bytes → Value
parse_trimmed ValueType.bool raw = Value.bool (is_true_word (to_lower raw))
parse_trimmed ValueType.enum raw = Value.str raw
parse_trimmed ValueType.list raw = Value.str (join b',' (split_list raw))
parse_trimmed ValueType.int raw = Value.int (atoi_value raw)

unfoldable pub parse : Setting → Bytes → Value
unfolding parse_trimmed
parse def raw = parse_trimmed def.value_type (trim_space raw)

-- fmt.Sprintf("%v", value)
abbrev pub print_value : Value → Bytes
print_value (Value.int n) = format_int n
print_value (Value.bool b) = if b then codes "true" else codes "false"
print_value (Value.str s) = s

-- `b, ok := value.(bool); ok && b`
abbrev pub is_true : Value → Bool
is_true (Value.bool b) = b
is_true (Value.int n) = false
is_true (Value.str s) = false

abbrev pub serialise_as : ValueType → Value → Bytes
serialise_as ValueType.bool v = if is_true v then codes "1" else codes "0"
serialise_as ValueType.enum v = print_value v
serialise_as ValueType.list v = print_value v
serialise_as ValueType.int v = print_value v

unfoldable pub serialise : Value → Setting → Bytes
serialise v def = serialise_as def.value_type v

abbrev pub deserialise_as : ValueType → Bytes → Value
deserialise_as ValueType.bool raw =
    Value.bool (eq_bytes raw (codes "1") || eq_bytes (to_lower raw) (codes "true"))
deserialise_as ValueType.enum raw = Value.str raw
deserialise_as ValueType.list raw = Value.str raw
deserialise_as ValueType.int raw = Value.int (atoi_value raw)

unfoldable pub deserialise : Bytes → Setting → Value
deserialise raw def = deserialise_as def.value_type raw
