-- ===== src/Float64.antt =====
-- `float64` by its bit pattern: the sign is bit 63, the exponent and the fraction are the rest, and
-- a pattern whose rest lies above the infinity's is not a number.
use saveinator.Prelude.{
  ℕ, ◌*◌, ◌%◌, ◌^◌, Bool, true, false, ◌&&◌, ◌||◌, ltb, leb, ◌==◌, if◌then◌else◌,
}

abbrev pub Float64 : Type 0
Float64 = ℕ

abbrev sign_bit : ℕ
sign_bit = 2 ^ 63

abbrev pub infinity : ℕ
infinity = 2047 * 2 ^ 52

abbrev pub is_negative : Float64 → Bool
is_negative x = leb sign_bit x

abbrev pub size : Float64 → ℕ
size x = x % sign_bit

-- `x == 0`, of either sign
abbrev pub is_zero : Float64 → Bool
is_zero x = size x == 0

abbrev pub is_nan : Float64 → Bool
is_nan x = ltb infinity (size x)

-- an infinity or not a number: what `encoding/json` refuses to write
abbrev pub is_unsupported : Float64 → Bool
is_unsupported x = leb infinity (size x)

-- `a < b`: false if one is not a number; zeros of both signs are equal.
abbrev pub float_lt : Float64 → Float64 → Bool
float_lt a b =
    if is_nan a || is_nan b || (is_zero a && is_zero b)
    then false
    else if is_negative a
    then (if is_negative b then ltb (size b) (size a) else true)
    else if is_negative b
    then false
    else ltb (size a) (size b)
