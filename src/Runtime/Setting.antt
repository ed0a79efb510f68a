-- ===== src/Runtime/Setting.antt =====
-- The type of a runtime setting: go/internal/runtime/registry.go.
use saveinator.Prelude.{ℕ, Bool, false, List, [], Bytes, String, ℤ, pos}

pub data ValueType : Type 0 where
  int bool enum list : ValueType

pub record Setting : Type 0 where
  pub redis_key : Bytes
  pub config_field : Bytes
  pub service : Bytes
  pub value_type : ValueType
  pub min_value : ℤ
  pub max_value : ℤ
  pub default_int : ℤ
  pub default_bool : Bool
  pub default_str : Bytes
  pub allowed : List Bytes
  pub label_en : String
  pub label_ru : String
  pub unit : String

-- The zero value of the struct, but for its type.
abbrev pub empty_setting : Setting
empty_setting = record {
  redis_key = [];
  config_field = [];
  service = [];
  value_type = int;
  min_value = pos 0;
  max_value = pos 0;
  default_int = pos 0;
  default_bool = false;
  default_str = [];
  allowed = [];
  label_en = "";
  label_ru = "";
  unit = "";
}

abbrev pub int_setting : Bytes → Bytes → Bytes → String → String → String → ℕ → ℕ → ℕ → Setting
int_setting key field service en ru unit min max def = record empty_setting {
  redis_key = key;
  config_field = field;
  service = service;
  value_type = int;
  min_value = pos min;
  max_value = pos max;
  default_int = pos def;
  label_en = en;
  label_ru = ru;
  unit = unit;
}

abbrev pub bool_setting : Bytes → Bytes → Bytes → String → String → Bool → Setting
bool_setting key field service en ru def = record empty_setting {
  redis_key = key;
  config_field = field;
  service = service;
  value_type = bool;
  default_bool = def;
  label_en = en;
  label_ru = ru;
}
