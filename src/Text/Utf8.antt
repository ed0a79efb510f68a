-- ===== src/Text/Utf8.antt =====
-- UTF-8 as Go's unicode/utf8 decodes it, and what `encoding/json` makes of a string: every byte that
-- begins no encoded rune becomes U+FFFD.
use saveinator.Prelude.{
  ℕ, zero, suc, ◌-◌, ◌<◌, ◌≡◌, refl, Bool, ◌&&◌, [], ◌∷◌, ◌++◌, arith, Bytes, All, ltb, leb, ap,
  ◌==◌, if◌then◌else◌,
}

abbrev between : ℕ → ℕ → ℕ → Bool
between low high b = leb low b && leb b high

abbrev continues : ℕ → Bool
continues b = between 128 191 b

-- the bounds of the second byte behind the first
abbrev second : ℕ → ℕ → Bool
second a b =
    if a == 224
    then between 160 191 b
    else if a == 237
    then between 128 159 b
    else if a == 240
    then between 144 191 b
    else if a == 244
    then between 128 143 b
    else continues b

-- The length of the rune at the front, 0 where there is none.
unfoldable pub rune_length : Bytes → ℕ
rune_length [] = 0
rune_length (a ∷ []) = if ltb a 128 then 1 else 0
rune_length (a ∷ b ∷ []) =
    if ltb a 128 then 1 else if between 194 223 a && continues b then 2 else 0
rune_length (a ∷ b ∷ c ∷ []) =
    if ltb a 128
    then 1
    else if between 194 223 a && continues b
    then 2
    else if between 224 239 a && (second a b && continues c)
    then 3
    else 0
rune_length (a ∷ b ∷ c ∷ d ∷ s) =
    if ltb a 128
    then 1
    else if between 194 223 a && continues b
    then 2
    else if between 224 239 a && (second a b && continues c)
    then 3
    else if between 240 244 a && (second a b && (continues c && continues d))
    then 4
    else 0

-- the bytes of U+FFFD
abbrev pub replacement : Bytes
replacement = 239 ∷ 191 ∷ 189 ∷ []

-- with the number of bytes that belong to the rune begun
unfoldable pub valid_from : ℕ → Bytes → Bytes
valid_from n [] = []
valid_from (suc n) (a ∷ s) = a ∷ valid_from n s
valid_from zero (a ∷ s) =
    let n = rune_length (a ∷ s) in (if n == 0 then replacement else a ∷ []) ++ valid_from (n - 1) s

unfoldable pub to_valid_utf8 : Bytes → Bytes
to_valid_utf8 [] = []
to_valid_utf8 (a ∷ s) = valid_from 0 (a ∷ s)

rune_length-ascii : (a : ℕ) (s : Bytes) → a < 128 → rune_length (a ∷ s) ≡ 1
unfolding rune_length
rune_length-ascii a [] h = ground arith
rune_length-ascii a (b ∷ []) h = ground arith
rune_length-ascii a (b ∷ c ∷ []) h = ground arith
rune_length-ascii a (b ∷ c ∷ d ∷ s) h = ground arith

valid_from-ascii : (s : Bytes) → All (λ a. a < 128) s → valid_from 0 s ≡ s
unfolding valid_from
valid_from-ascii [] h = refl
valid_from-ascii (a ∷ s) (small, rest) =
    rw (rune_length-ascii a s small) (ap (λ (l : Bytes). a ∷ l) (valid_from-ascii s rest))

-- An ASCII text is kept.
pub to_valid_utf8-ascii : (s : Bytes) → All (λ a. a < 128) s → to_valid_utf8 s ≡ s
unfolding to_valid_utf8
to_valid_utf8-ascii [] h = refl
to_valid_utf8-ascii (a ∷ s) h = valid_from-ascii (a ∷ s) h

-- "é" is kept, and its first byte alone is not
kept_lem : to_valid_utf8 (195 ∷ 169 ∷ []) ≡ 195 ∷ 169 ∷ []
unfolding to_valid_utf8 valid_from rune_length
kept_lem = refl

replaced_lem : to_valid_utf8 (195 ∷ 40 ∷ []) ≡ 239 ∷ 191 ∷ 189 ∷ 40 ∷ []
unfolding to_valid_utf8 valid_from rune_length
replaced_lem = refl
