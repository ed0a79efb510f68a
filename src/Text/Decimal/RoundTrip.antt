-- ===== src/Text/Decimal/RoundTrip.antt =====
-- Reading back a printed integer, and what a printed integer is made of.
use saveinator.Prelude.{
  ℕ, zero, suc, ◌+◌, ◌/◌, ◌%◌, ◌<◌, ◌≡◌, ◌≢◌, refl, [], ◌∷◌, Option, some, none, arith, Bytes, ltb,
  All, Lacks, ℤ, pos, negsuc, IsInt64, Bool-cases, Bool, ◌∙◌, ap, ◌>>=◌, inl, inr, true, false,
}
use saveinator.Text.Decimal.{
  digits, format_nat, format_int, scan, magnitude, signed, parse_int, is_digit,
}

scan-digits : (f n : ℕ) (out : Bytes) → n < f → scan 0 (digits f n out) ≡ scan n out
unfolding digits scan
scan-digits zero n out h = elim h [ ]
scan-digits (suc f) n out h = ground (arith, scan-digits f (n / 10) ((b'0' + n % 10) ∷ out))

digits-ne-nil : (f n : ℕ) (out : Bytes) → n < f → digits f n out ≢ []
unfolding digits
digits-ne-nil zero n out h = elim h [ ]
digits-ne-nil (suc f) n out h = ground (arith, digits-ne-nil f (n / 10) ((b'0' + n % 10) ∷ out))

abbrev pub IsDigit : ℕ → Type 0
IsDigit c = is_digit c ≡ true

digits-IsDigit : (f n : ℕ) (out : Bytes) → All IsDigit out → All IsDigit (digits f n out)
unfolding digits
digits-IsDigit zero n out h = h
digits-IsDigit (suc f) n out h = elim (Bool-cases (ltb n 10)) [
  | inl e ↦ rw (e, All) (ground arith, h)
  | inr e ↦ rw (e, All) (digits-IsDigit f (n / 10) ((b'0' + n % 10) ∷ out) (ground arith, h))
]

format_nat-IsDigit : (n : ℕ) → All IsDigit (format_nat n)
unfolding format_nat
format_nat-IsDigit n = digits-IsDigit (suc n) n [] tt

format_nat-ne-nil : (n : ℕ) → format_nat n ≢ []
unfolding format_nat
format_nat-ne-nil n = digits-ne-nil (suc n) n [] (omega arith)

scan-format_nat : (n : ℕ) → scan 0 (format_nat n) ≡ some n
unfolding format_nat
scan-format_nat n = scan-digits (suc n) n [] (omega arith) ∙ unfold scan in refl

magnitude-scan : (s : Bytes) → s ≢ [] → magnitude s ≡ scan 0 s
unfolding magnitude
magnitude-scan [] h = absurd (h refl)
magnitude-scan (c ∷ s) h = refl

magnitude-format_nat : (n : ℕ) → magnitude (format_nat n) ≡ some n
magnitude-format_nat n = magnitude-scan (format_nat n) (format_nat-ne-nil n) ∙ scan-format_nat n

-- a text with no sign in front
parse_unsigned : (s : Bytes) → All IsDigit s → parse_int s ≡ (magnitude s >>= signed false)
unfolding parse_int
parse_unsigned [] h = unfold magnitude in refl
parse_unsigned (c ∷ s) h = ground arith

-- Every `int64` is read back from its decimal print.
pub parse_int-format_int : (z : ℤ) → IsInt64 z → parse_int (format_int z) ≡ some z
parse_int-format_int (pos n) h =
    unfold format_int in
    rw (parse_unsigned (format_nat n) (format_nat-IsDigit n), magnitude-format_nat n)
      (unfold signed in ground arith)
parse_int-format_int (negsuc n) h =
    unfold format_int parse_int in rw (magnitude-format_nat (suc n)) (unfold signed in ground arith)

-- Two integers of the range that print alike are equal.
pub format_int-injective : (a b : ℤ) → IsInt64 a → IsInt64 b → format_int a ≡ format_int b → a ≡ b
format_int-injective a b ha hb e =
    cc (parse_int-format_int a ha, parse_int-format_int b hb, ap parse_int e)

IsDigit-Lacks : (sep : ℕ) (s : Bytes) → is_digit sep ≡ false → All IsDigit s → Lacks sep s
IsDigit-Lacks sep [] h d = tt
IsDigit-Lacks sep (c ∷ s) h d = (ground arith, IsDigit-Lacks sep s h d.1)

-- A printed integer holds digits and a minus sign alone.
pub format_int-Lacks :
    (sep : ℕ) (z : ℤ) → is_digit sep ≡ false → sep ≢ b'-' → Lacks sep (format_int z)
unfolding format_int
format_int-Lacks sep (pos n) h m = IsDigit-Lacks sep (format_nat n) h (format_nat-IsDigit n)
format_int-Lacks sep (negsuc n) h m =
    (ground arith, IsDigit-Lacks sep (format_nat (suc n)) h (format_nat-IsDigit (suc n)))

signed-IsInt64 : (minus : Bool) (n : ℕ) (z : ℤ) → signed minus n ≡ some z → IsInt64 z
unfolding signed
signed-IsInt64 true zero z h = ground arith
signed-IsInt64 true (suc n) z h = ground arith
signed-IsInt64 false n z h = ground arith

bound-IsInt64 : (minus : Bool) (m : Option ℕ) (z : ℤ) → (m >>= signed minus) ≡ some z → IsInt64 z
bound-IsInt64 minus none z h = cc
bound-IsInt64 minus (some n) z h = signed-IsInt64 minus n z h

-- What is read lies in the range of `int64`.
pub parse_int-IsInt64 : (s : Bytes) (z : ℤ) → parse_int s ≡ some z → IsInt64 z
unfolding parse_int
parse_int-IsInt64 [] z h = cc
parse_int-IsInt64 (c ∷ s) z h = ground (
  arith,
  bound-IsInt64 true (magnitude s) z,
  bound-IsInt64 false (magnitude s) z,
  bound-IsInt64 false (magnitude (c ∷ s)) z,
)
