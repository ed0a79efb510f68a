-- ===== src/Dash/Auth/Sound.antt =====
-- Whom the check lets in.
use saveinator.Prelude.{
  ℕ, ◌≡◌, sym, false, List, some, Bytes, codes, eq_bytes, eq_bytes_iff, is_empty, ℤ, pos, leb_ℤ,
  Bool-cases, Option-cases, inl, inr,
}
use saveinator.Text.Decimal.{parse_int}
use saveinator.Dash.Auth.{claimed, is_stale, signature, telegram_auth}

module _ (sha256 : Bytes → Bytes) (hmac : Bytes → Bytes → Bytes) where
  -- A claim is made only of a form whose hash is the signature under the bot's token, whose date is a
  -- number that is not stale, and whose id is a positive number, which is the id claimed.
  pub telegram_auth_sound :
      (token : Bytes) (form : Bytes → Bytes) (keys : List Bytes) (now : ℕ) (id : ℤ)
      (username first : Bytes)
      → telegram_auth sha256 hmac token form keys now ≡ claimed id username first
      → (form (codes "hash") ≡ signature sha256 hmac token form keys)
        × ((date : ℤ) × (parse_int (form (codes "auth_date")) ≡ some date)
            × (is_stale now date ≡ false))
        × (parse_int (form (codes "id")) ≡ some id)
        × (leb_ℤ id (pos 0) ≡ false)
        × (username ≡ form (codes "username"))
        × (first ≡ form (codes "first_name"))
  unfolding telegram_auth
  telegram_auth_sound token form keys now id username first h =
      elim (Bool-cases (is_empty (form (codes "hash")))) [
        | inl e ↦ absurd (cc (rw (e, telegram_auth) at h))
        | inr e ↦ elim (Option-cases (parse_int (form (codes "auth_date")))) [
          | inl d ↦ absurd (cc (rw (e, d, telegram_auth) at h))
          | inr (date, d) ↦ elim (Bool-cases (is_stale now date)) [
            | inl s ↦ absurd (cc (rw (e, d, s, telegram_auth) at h))
            | inr s ↦
                elim (Bool-cases
                  (eq_bytes (signature sha256 hmac token form keys) (form (codes "hash")))) [
                    | inr w ↦ absurd (cc (rw (e, d, s, w, telegram_auth) at h))
                    | inl w ↦ elim (Option-cases (parse_int (form (codes "id")))) [
                      | inl i ↦ absurd (cc (rw (e, d, s, w, i, telegram_auth) at h))
                      | inr (n, i) ↦ elim (Bool-cases (leb_ℤ n (pos 0))) [
                        | inl z ↦ absurd (cc (rw (e, d, s, w, i, z, telegram_auth) at h))
                        | inr z ↦
                            let k = rw (e, d, s, w, i, z, telegram_auth) at h in
                            (
                              sym (
                                  (eq_bytes_iff (signature sha256 hmac token form keys)
                                      (form (codes "hash"))).0
                                    w),
                              (date, d, s),
                              cc (i, k),
                              cc (z, k),
                              cc k,
                              cc k,
                            )
                      ]
                    ]
                  ]
          ]
        ]
      ]
