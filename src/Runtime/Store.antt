-- ===== src/Runtime/Store.antt =====
-- Storing runtime settings: go/internal/runtime/store.go, and the hash of go/internal/redisx/runtime.go.
pub mod Laws
pub mod Valid
pub mod Defaults
pub mod Stored
use saveinator.Prelude.{
  ℕ, ◌^◌, ◌-◌, Bool, true, false, ◌&&◌, ◌||◌, not, List, [], ◌∷◌, ◌++◌, Option, none, some, Bytes,
  codes, eq_bytes, contains, is_empty, ℤ, pos, negsuc, eq_ℤ, ltb_ℤ, ltb, ◌==◌, zero, suc,
  if◌then◌else◌,
}
use saveinator.Text.Split.{split, join}
use saveinator.Text.Trim.{trim_space, to_lower}
use saveinator.Text.Decimal.{format_int, parse_int, magnitude, signed}
use saveinator.Redis.{Redis}
use saveinator.Runtime.Setting.{ValueType, Setting}
use saveinator.Runtime.Registry.{settings}
use saveinator.Runtime.Config.{Settings}
use saveinator.Runtime.Value.{Value}
use saveinator.Runtime.Lookup.{lookup_in, lookup, service_settings_in, service_settings}
use saveinator.Runtime.Check.{
  nonempty_parts, split_list, clamp_magnitude, clamp_parsed, atoi_value, Invalid, is_bool_word,
  first_invalid, validate_int, validate_trimmed, validate, parse_trimmed, parse, print_value,
  is_true, serialise_as, serialise, deserialise_as, deserialise, expected_bool, not_allowed,
  empty_list, expected_int, below_min, above_max,
}
use saveinator.Runtime.Default.{
  config_value, is_text_type, is_bool_type, own_default, default_from_config,
}

abbrev pub runtime_settings_key : Bytes
runtime_settings_key = codes "saveinator:runtime_settings"

module _ (R : Redis) (cfg : Option Settings) where
  unfoldable pub runtime_get : Bytes → R.State → Option (Option Bytes)
  runtime_get field s = R.hget runtime_settings_key field s

  unfoldable pub runtime_set : Bytes → Bytes → R.State → Bool × R.State
  runtime_set field value s = R.hset runtime_settings_key field value s

  unfoldable pub runtime_delete : Bytes → R.State → Bool × R.State
  runtime_delete field s = R.hdel runtime_settings_key field s

  unfoldable pub runtime_delete_all : R.State → Bool × R.State
  runtime_delete_all s = R.del runtime_settings_key s

  -- Its error is always nil: a server that does not answer gives the default.
  unfoldable pub current_value : Setting → R.State → Value
  unfolding runtime_get
  current_value def s = elim (runtime_get def.redis_key s) [
    | none ↦ default_from_config cfg def
    | some reply ↦ elim reply [
      | none ↦ default_from_config cfg def
      | some raw ↦ deserialise raw def
    ]
  ]

  abbrev int_or : ℤ → Value → ℤ
  int_or fallback (Value.int n) = n
  int_or fallback (Value.bool b) = fallback
  int_or fallback (Value.str t) = fallback

  unfoldable pub current_int : Bytes → ℤ → R.State → ℤ
  current_int redis_key fallback s = elim (lookup redis_key) [
    | none ↦ fallback
    | some def ↦ int_or fallback (current_value def s)
  ]

  -- `false` is an error, of an unknown key too.
  unfoldable pub set_value : Bytes → Value → R.State → Bool × R.State
  unfolding runtime_set
  set_value redis_key value s = elim (lookup redis_key) [
    | none ↦ (false, s)
    | some def ↦ runtime_set redis_key (serialise value def) s
  ]

  unfoldable pub reset : Bytes → R.State → Bool × R.State
  unfolding runtime_delete
  reset redis_key s = runtime_delete redis_key s

  unfoldable pub reset_all : R.State → Bool × R.State
  unfolding runtime_delete_all
  reset_all s = runtime_delete_all s
