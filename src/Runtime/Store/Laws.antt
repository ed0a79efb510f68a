-- ===== src/Runtime/Store/Laws.antt =====
-- What an accepted setting is, and that it is read back as it was set.
use saveinator.Prelude.{
  ℕ, zero, suc, ◌≡◌, refl, ap, Bool, true, false, [], ◌∷◌, Option, none, some, arith, Bytes,
  eq_bytes, ℤ, IsInt64, Bool-cases, inl, inr, ◌==◌, ◌>>=◌,
}
use saveinator.Text.Trim.{trim_space, to_lower}
use saveinator.Text.Decimal.{parse_int, magnitude, signed}
use saveinator.Text.Decimal.RoundTrip.{parse_int-format_int}
use saveinator.Runtime.Setting.{ValueType, Setting}
use saveinator.Runtime.Value.{Value}
use saveinator.Runtime.Check.{
  atoi_value, clamp_parsed, parse_trimmed, parse, serialise_as, serialise, deserialise_as,
  deserialise,
}

clamp-signed :
    (minus : Bool) (m : Option ℕ) (z : ℤ) → (m >>= signed minus) ≡ some z → clamp_parsed minus m ≡ z
unfolding signed
clamp-signed minus none z h = cc
clamp-signed true (some zero) z h = cc
clamp-signed true (some (suc n)) z h = ground arith
clamp-signed false (some n) z h = ground arith

-- where `Atoi` succeeds, its value is the number
pub atoi_value-parse_int : (s : Bytes) (z : ℤ) → parse_int s ≡ some z → atoi_value s ≡ z
unfolding atoi_value parse_int
atoi_value-parse_int [] z h = cc
atoi_value-parse_int (c ∷ s) z h = ground (
  arith,
  clamp-signed true (magnitude s) z,
  clamp-signed false (magnitude s) z,
  clamp-signed false (magnitude (c ∷ s)) z,
)

clamp-IsInt64 : (minus : Bool) (m : Option ℕ) → IsInt64 (clamp_parsed minus m)
clamp-IsInt64 minus none = omega arith
clamp-IsInt64 true (some zero) = omega arith
clamp-IsInt64 true (some (suc n)) = ground arith
clamp-IsInt64 false (some n) = ground arith

atoi_value-IsInt64 : (s : Bytes) → IsInt64 (atoi_value s)
unfolding atoi_value
atoi_value-IsInt64 [] = omega arith
atoi_value-IsInt64 (c ∷ s) = elim (Bool-cases (c == b'-')) [
  | inl e ↦ rw (e, IsInt64) (clamp-IsInt64 true (magnitude s))
  | inr e ↦ elim (Bool-cases (c == b'+')) [
    | inl p ↦ rw (e, p, IsInt64) (clamp-IsInt64 false (magnitude s))
    | inr p ↦ rw (e, p, IsInt64) (clamp-IsInt64 false (magnitude (c ∷ s)))
  ]
]

deserialise-parse_as :
    (t : ValueType) (raw : Bytes)
    → deserialise_as t (serialise_as t (parse_trimmed t raw)) ≡ parse_trimmed t raw
unfolding parse_trimmed eq_bytes to_lower
deserialise-parse_as ValueType.bool raw = ground arith
deserialise-parse_as ValueType.enum raw = refl
deserialise-parse_as ValueType.list raw = refl
deserialise-parse_as ValueType.int raw =
    ap Value.int
      (atoi_value-parse_int _ _ (parse_int-format_int (atoi_value raw) (atoi_value-IsInt64 raw)))

-- A value that was read from an administrator's text is the same after it has been written to Redis
-- and read from there, for settings of every type.
pub deserialise-serialise :
    (def : Setting) (raw : Bytes) → deserialise (serialise (parse def raw) def) def ≡ parse def raw
unfolding deserialise serialise parse
deserialise-serialise def raw = deserialise-parse_as def.value_type (trim_space raw)
