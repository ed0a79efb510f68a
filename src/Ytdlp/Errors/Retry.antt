-- ===== src/Ytdlp/Errors/Retry.antt =====
-- Which errors are worth a second attempt, and what of an error is shown to whom.
use saveinator.Prelude.{
  ◌≡◌, ◌≢◌, ◌↔◌, ◌⊎◌, ◌≤◌, refl, sym, ap, ◌∙◌, ℕ, true, false, ◌&&◌, ◌||◌, List, [], ◌∷◌, ◌++◌,
  Option, none, some, arith, Bytes, codes, eq_bytes, length, take, length-append, length-take, ltb,
  ℤ, if◌then◌else◌, is_empty, Bool-cases, inl, inr, not,
}
use saveinator.Text.Search.{has_substring}
use saveinator.Text.Search.Laws.{has_substring-append, has_substring-behind}
use saveinator.Text.Trim.{to_lower, trim_space, lower}
use saveinator.Handler.Enqueue.{is_admin}
use saveinator.Ytdlp.Errors.{
  has_any, timeout_signs, format_signs, webpage_signs, not_found_signs, rate_signs, network_signs,
  is_format_unavailable_error, is_unexpected_webpage_error, user_facing_error_key, is_network_error,
  is_timeout_error, is_retryable_error, max_admin_debug_len, ellipsis, shortened, user_facing_error,
}

-- the code's decision, from the signs alone
retryable-signs :
    (e : Bytes)
    → is_retryable_error (some e) ≡ (
        has_any (to_lower e) timeout_signs
        || (not (has_any (to_lower e) format_signs)
            && (not (has_any (to_lower e) webpage_signs)
                && (not (has_any (to_lower e) not_found_signs)
                    && (not (has_any (to_lower e) rate_signs)
                        && has_any (to_lower e) network_signs)))))
unfolding is_retryable_error is_network_error is_timeout_error user_facing_error_key
    is_format_unavailable_error is_unexpected_webpage_error eq_bytes
retryable-signs e = elim (Bool-cases (has_any (to_lower e) timeout_signs)) [
  | inl h0 ↦ rw (h0)
  | inr h0 ↦ elim (Bool-cases (has_any (to_lower e) format_signs)) [
    | inl h1 ↦ rw (h0, h1)
    | inr h1 ↦ elim (Bool-cases (has_any (to_lower e) webpage_signs)) [
      | inl h2 ↦ rw (h0, h1, h2)
      | inr h2 ↦ elim (Bool-cases (has_any (to_lower e) not_found_signs)) [
        | inl h3 ↦ rw (h0, h1, h2, h3)
        | inr h3 ↦ elim (Bool-cases (has_any (to_lower e) rate_signs)) [
          | inl h4 ↦ rw (h0, h1, h2, h3, h4)
          | inr h4 ↦ elim (Bool-cases (has_any (to_lower e) network_signs)) [
            | inl h5 ↦ rw (h0, h1, h2, h3, h4, h5)
            | inr h5 ↦ rw (h0, h1, h2, h3, h4, h5)
          ]
        ]
      ]
    ]
  ]
]

-- An error is worth a second attempt exactly if its text, in small letters, has a sign of a timeout, or
-- has a sign of the network and none of an unavailable format, a challenge page, a missing video or
-- a rate limit.
pub is_retryable_error_iff :
    (e : Bytes)
    → (is_retryable_error (some e) ≡ true) ↔ (
        (has_any (to_lower e) timeout_signs ≡ true)
        ⊎ ((has_any (to_lower e) format_signs ≡ false)
            × (has_any (to_lower e) webpage_signs ≡ false)
            × (has_any (to_lower e) not_found_signs ≡ false)
            × (has_any (to_lower e) rate_signs ≡ false)
            × (has_any (to_lower e) network_signs ≡ true)))
is_retryable_error_iff e = ground (arith, retryable-signs e)

has_any-within :
    (a s b : Bytes) (ps : List Bytes) → has_any s ps ≡ true → has_any (a ++ (s ++ b)) ps ≡ true
unfolding has_any
has_any-within a s b [] h = cc
has_any-within a s b (p ∷ ps) h = elim (Bool-cases (has_substring s p)) [
  | inl e ↦ rw (has_substring-behind a (s ++ b) p (has_substring-append s b p e))
  | inr e ↦ ground (arith, has_any-within a s b ps (rw e at h))
]

to_lower-append : (a b : Bytes) → to_lower (a ++ b) ≡ to_lower a ++ to_lower b
unfolding to_lower
to_lower-append [] b = refl
to_lower-append (c ∷ a) b = ap (λ r. lower c ∷ r) (to_lower-append a b)

timeout-signs : (e : Bytes) → is_timeout_error (some e) ≡ has_any (to_lower e) timeout_signs
unfolding is_timeout_error user_facing_error_key is_format_unavailable_error
    is_unexpected_webpage_error eq_bytes
timeout-signs e = elim (Bool-cases (has_any (to_lower e) timeout_signs)) [
  | inl h0 ↦ rw (h0)
  | inr h0 ↦ elim (Bool-cases (has_any (to_lower e) format_signs)) [
    | inl h1 ↦ rw (h0, h1)
    | inr h1 ↦ elim (Bool-cases (has_any (to_lower e) webpage_signs)) [
      | inl h2 ↦ rw (h0, h1, h2)
      | inr h2 ↦ elim (Bool-cases (has_any (to_lower e) not_found_signs)) [
        | inl h3 ↦ rw (h0, h1, h2, h3)
        | inr h3 ↦ elim (Bool-cases (has_any (to_lower e) rate_signs)) [
          | inl h4 ↦ rw (h0, h1, h2, h3, h4)
          | inr h4 ↦ elim (Bool-cases (has_any (to_lower e) network_signs)) [
            | inl h5 ↦ rw (h0, h1, h2, h3, h4, h5)
            | inr h5 ↦ rw (h0, h1, h2, h3, h4, h5)
          ]
        ]
      ]
    ]
  ]
]

-- A timeout stays one, and is worth a second attempt, in whatever an error wraps around its text.
pub is_timeout_error-wrapped :
    (before e behind : Bytes)
    → is_timeout_error (some e) ≡ true
    → (is_timeout_error (some (before ++ (e ++ behind))) ≡ true)
      × (is_retryable_error (some (before ++ (e ++ behind))) ≡ true)
unfolding is_retryable_error
is_timeout_error-wrapped before e behind h =
    let whole = before ++ (e ++ behind) in
    let sign : has_any (to_lower whole) timeout_signs ≡ true =
      rw (to_lower-append before (e ++ behind), to_lower-append e behind)
        (has_any-within (to_lower before) (to_lower e) (to_lower behind) timeout_signs
          (sym (timeout-signs e) ∙ h)) in
    (timeout-signs whole ∙ sign, (is_retryable_error_iff whole).1 (inl sign))

some-injective : {a b : Bytes} → some a ≡ some b → a ≡ b
some-injective h = cc

length-shortened : (d : Bytes) → length (shortened d) ≤ 3503
unfolding shortened
length-shortened d = elim (Bool-cases (ltb max_admin_debug_len (length d))) [
  | inl h ↦
      rw (h, length-append (take max_admin_debug_len d) ellipsis)
        (omega (arith, length-take max_admin_debug_len d))
  | inr h ↦ rw h (ground (arith, h))
]

append-nonempty : (a b : Bytes) (c : ℕ) → a ++ c ∷ b ≢ []
append-nonempty [] b c e = cc
append-nonempty (x ∷ a) b c e = cc

shortened-nonempty : (d : Bytes) → is_empty d ≡ false → shortened d ≢ []
unfolding shortened
shortened-nonempty d h = elim (Bool-cases (ltb max_admin_debug_len (length d))) [
  | inl l ↦ rw (l, shortened) (append-nonempty (take max_admin_debug_len d) _ _)
  | inr l ↦ rw (l, shortened) (λ e. absurd (cc (rw e at h)))
]

key-nonempty : (k : Bytes) → (if is_empty k then codes "errors.generic" else k) ≢ []
key-nonempty [] e = cc
key-nonempty (b ∷ k) e = cc

-- Nobody but the administrator is shown the text of an error; what the administrator is shown has at most
-- 3503 bytes and is not empty; and the message always has a key.
pub user_facing_error-shown :
    (admin_id user_id : ℤ) (err : Option Bytes)
    → ((user_facing_error admin_id user_id err).0 ≢ [])
      × (is_admin admin_id user_id ≡ false → (user_facing_error admin_id user_id err).1 ≡ none)
      × ((shown : Bytes)
          → (user_facing_error admin_id user_id err).1 ≡ some shown
          → (length shown ≤ 3503) × (shown ≢ []))
unfolding user_facing_error
user_facing_error-shown admin_id user_id none =
    (key-nonempty (user_facing_error_key [] none), (λ p. refl), λ shown h. cc)
user_facing_error-shown admin_id user_id (some text) =
    let named = key-nonempty (user_facing_error_key [] (some text)) in
    elim (Bool-cases (is_admin admin_id user_id)) [
      | inr a ↦ rw (a, user_facing_error) (named, (λ p. refl), λ shown h. cc)
      | inl a ↦ elim (Bool-cases (is_empty (trim_space text))) [
        | inl e ↦ rw (a, e, user_facing_error) (named, (λ p. cc), λ shown h. cc)
        | inr e ↦
            rw (a, e, user_facing_error)
              (
                named,
                (λ p. cc),
                (λ shown h. (
                  rw (some-injective h) at (length-shortened (trim_space text)),
                  (λ q. shortened-nonempty (trim_space text) e (some-injective h ∙ q)),
                )),
              )
      ]
    ]
