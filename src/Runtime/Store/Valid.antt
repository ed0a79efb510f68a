-- ===== src/Runtime/Store/Valid.antt =====
-- Which texts `Validate` accepts.
use saveinator.Prelude.{
  ℕ, ◌≡◌, ◌≢◌, refl, true, false, List, [], ◌∷◌, none, some, arith, Bytes, contains, ℤ, pos, negsuc,
  ltb_ℤ, leb_ℤ, Bool-cases, Option-cases, inl, inr, All, ap, sym, ◌∙◌,
}
use saveinator.Text.Split.{join}
use saveinator.Text.Trim.{trim_space}
use saveinator.Text.Decimal.{parse_int}
use saveinator.Runtime.Setting.{ValueType, Setting}
use saveinator.Runtime.Value.{Value}
use saveinator.Runtime.Check.{
  split_list, first_invalid, validate_int, validate_trimmed, validate, parse_trimmed, parse,
}
use saveinator.Runtime.Store.Laws.{atoi_value-parse_int}

-- The number lies within the bounds that the setting has: a bound of zero or less is none.
abbrev pub InBounds : Setting → ℤ → Type 0
InBounds def n =
    (ltb_ℤ (pos 0) def.min_value ≡ true → leb_ℤ def.min_value n ≡ true)
    × (ltb_ℤ (pos 0) def.max_value ≡ true → leb_ℤ n def.max_value ≡ true)

leb-ltb : (a b : ℤ) → ltb_ℤ a b ≡ false → leb_ℤ b a ≡ true
leb-ltb (pos a) (pos b) h = ground arith
leb-ltb (pos a) (negsuc b) h = ground arith
leb-ltb (negsuc a) (pos b) h = ground arith
leb-ltb (negsuc a) (negsuc b) h = ground arith

ltb-leb : (a b : ℤ) → leb_ℤ b a ≡ true → ltb_ℤ a b ≡ false
ltb-leb (pos a) (pos b) h = ground arith
ltb-leb (pos a) (negsuc b) h = ground arith
ltb-leb (negsuc a) (pos b) h = ground arith
ltb-leb (negsuc a) (negsuc b) h = ground arith

validate_number_sound :
    (def : Setting) (raw : Bytes)
    → validate_int def raw ≡ none
    → (n : ℤ) × (parse_int raw ≡ some n) × InBounds def n
unfolding validate_int
validate_number_sound def raw h = elim (Option-cases (parse_int raw)) [
  | inl e ↦ absurd (cc (rw (e, validate_int) at h))
  | inr (n, e) ↦
      let h' = rw (e, validate_int) at h in
      (
        n,
        e,
        (
          (λ p. leb-ltb n def.min_value (ground (arith, h', p))),
          (λ p. leb-ltb def.max_value n (ground (arith, h', p))),
        ),
      )
]

validate_as :
    (def : Setting) (raw : Bytes) (t : ValueType)
    → def.value_type ≡ t
    → validate def raw ≡ validate_trimmed t def (trim_space raw)
unfolding validate
validate_as def raw t e = ap (λ (u : ValueType). validate_trimmed u def (trim_space raw)) e

parse_as :
    (def : Setting) (raw : Bytes) (t : ValueType)
    → def.value_type ≡ t
    → parse def raw ≡ parse_trimmed t (trim_space raw)
unfolding parse
parse_as def raw t e = ap (λ (u : ValueType). parse_trimmed u (trim_space raw)) e

validate_as_int :
    (def : Setting) (raw : Bytes)
    → def.value_type ≡ ValueType.int
    → validate def raw ≡ validate_int def (trim_space raw)
validate_as_int def raw t = validate_as def raw ValueType.int t ∙ unfold validate_trimmed in refl

parse_as_int :
    (def : Setting) (raw : Bytes) (n : ℤ)
    → def.value_type ≡ ValueType.int
    → parse_int (trim_space raw) ≡ some n
    → parse def raw ≡ Value.int n
parse_as_int def raw n t e =
    parse_as def raw ValueType.int t
    ∙ unfold parse_trimmed in ap Value.int (atoi_value-parse_int (trim_space raw) n e)

-- A text accepted for a setting of integer type is a decimal number within the setting's bounds, and
-- it is the value that is stored.
pub validate_int_sound :
    (def : Setting) (raw : Bytes)
    → def.value_type ≡ ValueType.int
    → validate def raw ≡ none
    → (n : ℤ) × (parse_int (trim_space raw) ≡ some n)
      × InBounds def n
      × (parse def raw ≡ Value.int n)
validate_int_sound def raw t h =
    let (n, e, bounds) =
      validate_number_sound def (trim_space raw) (sym (validate_as_int def raw t) ∙ h) in
    (n, e, bounds, parse_as_int def raw n t e)

validate_number_complete :
    (def : Setting) (text : Bytes) (n : ℤ)
    → parse_int text ≡ some n
    → InBounds def n
    → validate_int def text ≡ none
unfolding validate_int
validate_number_complete def text n e bounds =
    rw (e, validate_int)
      (ground (
        arith,
        λ (p : ltb_ℤ (pos 0) def.min_value ≡ true). ltb-leb n def.min_value (bounds.0 p),
        λ (p : ltb_ℤ (pos 0) def.max_value ≡ true). ltb-leb def.max_value n (bounds.1 p),
      ))

-- Every decimal number within the bounds is accepted. With a lower bound of zero a negative number is
-- within them, whatever its size.
pub validate_int_complete :
    (def : Setting) (raw : Bytes) (n : ℤ)
    → def.value_type ≡ ValueType.int
    → parse_int (trim_space raw) ≡ some n
    → InBounds def n
    → validate def raw ≡ none
validate_int_complete def raw n t e bounds =
    validate_as_int def raw t ∙ validate_number_complete def (trim_space raw) n e bounds

-- A setting of integer type whose lower bound is zero accepts every negative number.
pub validate-negative :
    (def : Setting) (raw : Bytes) (k : ℕ)
    → def.value_type ≡ ValueType.int
    → def.min_value ≡ pos 0
    → parse_int (trim_space raw) ≡ some (negsuc k)
    → (validate def raw ≡ none) × (parse def raw ≡ Value.int (negsuc k))
validate-negative def raw k t m e = (
  validate_int_complete def raw (negsuc k) t e
      ((λ p. absurd (cc (rw m at p))), (λ p. negative_below def.max_value p)),
  parse_as_int def raw (negsuc k) t e,
)
  where
    negative_below : (m' : ℤ) → ltb_ℤ (pos 0) m' ≡ true → leb_ℤ (negsuc k) m' ≡ true
    negative_below (pos x) p = refl
    negative_below (negsuc x) p = ground arith

abbrev pub AllAllowed : List Bytes → List Bytes → Type 0
AllAllowed allowed = All (λ p. contains allowed p ≡ true)

first_invalid-AllAllowed :
    (allowed ps : List Bytes) → first_invalid allowed ps ≡ none → AllAllowed allowed ps
unfolding first_invalid
first_invalid-AllAllowed allowed [] h = tt
first_invalid-AllAllowed allowed (p ∷ ps) h = elim (Bool-cases (contains allowed p)) [
  | inl e ↦ (e, first_invalid-AllAllowed allowed ps (rw e at h))
  | inr e ↦ absurd (cc (rw e at h))
]

-- A text accepted for a setting of list type has only allowed parts, and is not empty between its
-- white space; but one that is made of commas and white space alone is accepted, and stored as the
-- empty text.
pub validate_list_sound :
    (def : Setting) (raw : Bytes)
    → def.value_type ≡ ValueType.list
    → (validate def raw ≡ none
        → AllAllowed def.allowed (split_list (trim_space raw)) × (trim_space raw ≢ []))
      × (split_list (trim_space raw) ≡ []
          → trim_space raw ≢ []
          → (validate def raw ≡ none) × (parse def raw ≡ Value.str []))
unfolding validate_trimmed
validate_list_sound def raw t = (
  (λ h. list_sound def (trim_space raw) (sym (validate_as def raw ValueType.list t) ∙ h)),
  (λ no_parts some_text. (
    validate_as def raw ValueType.list t ∙ blank_list def (trim_space raw) no_parts some_text,
    parse_as def raw ValueType.list t
        ∙ unfold parse_trimmed in
          ap (λ ps. Value.str (join b',' ps)) no_parts ∙ unfold join in refl,
  )),
)
  where
    list_sound :
        (d : Setting) (text : Bytes)
        → validate_trimmed ValueType.list d text ≡ none
        → AllAllowed d.allowed (split_list text) × (text ≢ [])
    list_sound d text h = elim (Option-cases (first_invalid d.allowed (split_list text))) [
      | inl e ↦
          (first_invalid-AllAllowed d.allowed (split_list text) e, λ z. ground (arith, e, z, h))
      | inr (p, e) ↦ absurd (cc (rw (e, validate_trimmed) at h))
    ]

    blank_list :
        (d : Setting) (text : Bytes)
        → split_list text ≡ []
        → text ≢ []
        → validate_trimmed ValueType.list d text ≡ none
    blank_list d [] p q = absurd (q refl)
    blank_list d (c ∷ text) p q = rw (p, validate_trimmed) (unfold first_invalid in refl)
