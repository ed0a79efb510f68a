-- ===== src/Runtime/Value.antt =====
-- A value of a runtime setting, Go's `any` that holds an `int`, a `bool` or a `string`.
use saveinator.Prelude.{Bool, Bytes, ℤ}

pub data Value : Type 0 where
  int : ℤ → Value
  bool : Bool → Value
  str : Bytes → Value
