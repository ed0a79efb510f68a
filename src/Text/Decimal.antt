-- ===== src/Text/Decimal.antt =====
-- `strconv.FormatInt(_, 10)` (which `%d` prints too) and `strconv.ParseInt(_, 10, 64)`.
pub mod RoundTrip
use saveinator.Prelude.{
  ℕ, zero, suc, ◌+◌, ◌-◌, ◌*◌, ◌/◌, ◌%◌, ◌^◌, true, false, Bool, ◌&&◌, [], ◌∷◌, Option, none, some,
  Bytes, ltb, leb, ◌==◌, if◌then◌else◌, ℤ, pos, negsuc, ◌>>=◌,
}

-- The digits of `n` in front of `out`. A round divides by ten, so fuel above `n` is enough.
unfoldable pub digits : ℕ → ℕ → Bytes → Bytes
digits zero n out = out
digits (suc f) n out = elim (ltb n 10) [
  | true ↦ (b'0' + n) ∷ out
  | false ↦ digits f (n / 10) ((b'0' + n % 10) ∷ out)
]

unfoldable pub format_nat : ℕ → Bytes
unfolding digits
format_nat n = digits (suc n) n []

unfoldable pub format_int : ℤ → Bytes
unfolding format_nat
format_int (pos n) = format_nat n
format_int (negsuc n) = b'-' ∷ format_nat (suc n)

abbrev pub is_digit : ℕ → Bool
is_digit c = leb b'0' c && leb c b'9'

-- The number that digits spell behind `acc`.
unfoldable pub scan : ℕ → Bytes → Option ℕ
scan acc [] = some acc
scan acc (c ∷ s) = let rest = scan (acc * 10 + (c - b'0')) s in if is_digit c then rest else none

-- One digit at least.
unfoldable pub magnitude : Bytes → Option ℕ
unfolding scan
magnitude [] = none
magnitude (c ∷ s) = scan 0 (c ∷ s)

-- The value under its sign, refused outside the range of `int64`.
unfoldable pub signed : Bool → ℕ → Option ℤ
signed true zero = some (pos 0)
signed true (suc n) = if ltb n (2 ^ 63) then some (negsuc n) else none
signed false n = if ltb n (2 ^ 63) then some (pos n) else none

-- `none` is any error of `ParseInt`.
unfoldable pub parse_int : Bytes → Option ℤ
parse_int [] = none
parse_int (c ∷ s) =
    if c == b'-'
    then magnitude s >>= signed true
    else if c == b'+'
    then magnitude s >>= signed false
    else magnitude (c ∷ s) >>= signed false
