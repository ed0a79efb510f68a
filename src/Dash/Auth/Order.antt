-- ===== src/Dash/Auth/Order.antt =====
-- Go walks a map in any order; the check does not see it.
use mathlib.Core.List.{Permᴰ}
use saveinator.Prelude.{◌≡◌, ap, List, ◌∷◌, ◌++◌, Bytes, ℕ, map}
use saveinator.Sorting.{
  leb_bytes, sort-keep, leb_bytes_total, leb_bytes_antisym, leb_bytes_transitive,
}
use saveinator.Text.Split.{join}
use saveinator.Dash.Auth.{
  is_signed, signed_keys, check_string, signature, verdict, hex_encode, telegram_auth,
}

signed_keys-order :
    (form : Bytes → Bytes) (keys keys' : List Bytes)
    → Permᴰ keys keys'
    → signed_keys form keys ≡ signed_keys form keys'
unfolding signed_keys
signed_keys-order form keys keys' d =
    sort-keep leb_bytes leb_bytes_total leb_bytes_antisym leb_bytes_transitive (is_signed form) d

check_string-order :
    (form : Bytes → Bytes) (keys keys' : List Bytes)
    → Permᴰ keys keys'
    → check_string form keys ≡ check_string form keys'
unfolding check_string
check_string-order form keys keys' d =
    ap (λ ks. join 10 (map (λ k. k ++ b'=' ∷ form k) ks)) (signed_keys-order form keys keys' d)

-- The text that is signed and the verdict are the same in whatever order the form's fields come.
pub telegram_auth-order :
    (sha256 : Bytes → Bytes) (hmac : Bytes → Bytes → Bytes) (token : Bytes) (form : Bytes → Bytes)
    (keys keys' : List Bytes) (now : ℕ)
    → Permᴰ keys keys'
    → (check_string form keys ≡ check_string form keys')
      × (telegram_auth sha256 hmac token form keys now
          ≡ telegram_auth sha256 hmac token form keys' now)
unfolding telegram_auth signature
telegram_auth-order sha256 hmac token form keys keys' now d =
    let text = check_string-order form keys keys' d in
    (text, ap (λ t. verdict (hex_encode (hmac (sha256 token) t)) form now) text)
