-- ===== src/Runtime/Store/Defaults.antt =====
-- The registry's own entries.
use mathlib.Core.Path.{subst}
use saveinator.Prelude.{
  ◌∙◌, sym, if◌then◌else◌, ◌≡◌, refl, Bool, true, false, ◌&&◌, List, [], ◌∷◌, Option, none, some,
  Bytes, eq_bytes, eq_bytes_iff, contains, Bool-cases, Option-cases, inl, inr,
}
use saveinator.Text.Split.{split}
use saveinator.Text.Trim.{trim_space, to_lower}
use saveinator.Text.Decimal.{format_int, parse_int, magnitude, signed}
use saveinator.Runtime.Setting.{Setting}
use saveinator.Runtime.Registry.{settings}
use saveinator.Runtime.Lookup.{lookup_in, lookup}
use saveinator.Runtime.Check.{split_list, Invalid, validate, serialise}
use saveinator.Runtime.Default.{own_default}

abbrev is_valid : Option Invalid → Bool
is_valid none = true
is_valid (some e) = false

-- every entry's own default passes the entry's check
default_valid : List Setting → Bool
default_valid [] = true
default_valid (s ∷ ss) = is_valid (validate s (serialise (own_default s) s)) && default_valid ss

default_valid_all : default_valid settings ≡ true
unfolding default_valid validate serialise own_default eq_bytes contains trim_space to_lower
    parse_int magnitude signed format_int split_list split
default_valid_all = refl

Passes : Setting → Type 0
Passes s = validate s (serialise (own_default s) s) ≡ none

Passes-is_valid :
    (s : Setting) → is_valid (validate s (serialise (own_default s) s)) ≡ true → Passes s
unfolding Passes
Passes-is_valid s h = elim (Option-cases (validate s (serialise (own_default s) s))) [
  | inl e ↦ e
  | inr (x, e) ↦ absurd (cc (rw e at h))
]

found_here :
    (s : Setting) (k : Bytes) (def : Setting)
    → Passes s
    → (if eq_bytes k s.redis_key then some s else none) ≡ some def
    → (def.redis_key ≡ k) × Passes def
found_here s k def v h = elim (Bool-cases (eq_bytes k s.redis_key)) [
  | inl e ↦
      let same : s ≡ def = cc (rw e at h) in
      subst (λ d. (d.redis_key ≡ k) × Passes d) same (sym ((eq_bytes_iff k s.redis_key).0 e), v)
  | inr e ↦ absurd (cc (rw e at h))
]

lookup_in_sound :
    (ss : List Setting) (k : Bytes) (def : Setting)
    → default_valid ss ≡ true
    → lookup_in ss k ≡ some def
    → (def.redis_key ≡ k) × Passes def
unfolding lookup_in default_valid
lookup_in_sound [] k def v h = cc
lookup_in_sound (s ∷ ss) k def v h =
    elim (Bool-cases (is_valid (validate s (serialise (own_default s) s)))) [
      | inr bad ↦ absurd (cc (rw bad at v))
      | inl good ↦ elim (Option-cases (lookup_in ss k)) [
        | inr (t, e) ↦ lookup_in_sound ss k def (rw good at v) (e ∙ (rw (e, lookup_in) at h))
        | inl e ↦ found_here s k def (Passes-is_valid s good) (rw (e, lookup_in) at h)
      ]
    ]

-- What the registry holds under a key is a setting of that key whose own default passes its check.
pub lookup_sound :
    (k : Bytes) (def : Setting)
    → lookup k ≡ some def
    → (def.redis_key ≡ k) × (validate def (serialise (own_default def) def) ≡ none)
unfolding lookup Passes
lookup_sound k def h = lookup_in_sound settings k def default_valid_all h
