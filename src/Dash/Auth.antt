-- ===== src/Dash/Auth.antt =====
-- The check of the login widget: `telegramAuth` of go/internal/dash/auth.go. SHA-256 and HMAC of Go's
-- crypto packages are parameters, the HMAC by its key and its text; the form is its look-up, where a
-- missing field is the empty text, and its fields in the order in which the map is walked. The time is
-- in Unix seconds, below 2 ^ 63.
pub mod Order
pub mod Sound
use saveinator.Prelude.{
  ℕ, ◌+◌, ◌-◌, ◌*◌, ◌/◌, ◌%◌, ◌^◌, ltb, Bool, true, false, ◌&&◌, ◌||◌, not, List, [], ◌∷◌, ◌++◌,
  Option, none, some, Bytes, codes, eq_bytes, is_empty, ℤ, pos, negsuc, leb_ℤ, keep, map,
  if◌then◌else◌,
}
use saveinator.Text.Split.{join}
use saveinator.Text.Decimal.{parse_int}
use saveinator.Sorting.{sort, leb_bytes}

pub data Refusal : Type 0 where
  missing_hash bad_auth_date stale_auth_date bad_signature bad_user_id : Refusal

pub data Verdict : Type 0 where
  refused : Refusal → Verdict
  claimed : ℤ → Bytes → Bytes → Verdict

abbrev hex_digit : ℕ → ℕ
hex_digit n = if ltb n 10 then b'0' + n else b'a' + (n - 10)

-- `hex.EncodeToString`
unfoldable pub hex_encode : Bytes → Bytes
hex_encode [] = []
hex_encode (c ∷ s) = hex_digit (c / 16) ∷ hex_digit (c % 16) ∷ hex_encode s

abbrev day : ℕ
day = 24 * 3600

-- `time.Now().Unix()-authDate > 24*3600` on int64, where a difference from 2 ^ 63 on wraps around to a
-- negative number
unfoldable pub is_stale : ℕ → ℤ → Bool
is_stale now (pos date) = ltb day (now - date)
is_stale now (negsuc date) = ltb (now + date + 1) (2 ^ 63) && ltb day (now + date + 1)

abbrev pub is_signed : (Bytes → Bytes) → Bytes → Bool
is_signed form k = not (eq_bytes k (codes "hash")) && not (is_empty (form k))

unfoldable pub signed_keys : (Bytes → Bytes) → List Bytes → List Bytes
signed_keys form keys = sort leb_bytes (keep (is_signed form) keys)

-- the lines `key=value`, a line feed between two of them
unfoldable pub check_string : (Bytes → Bytes) → List Bytes → Bytes
check_string form keys = join 10 (map (λ k. k ++ b'=' ∷ form k) (signed_keys form keys))

abbrev claim : (Bytes → Bytes) → Option ℤ → Verdict
claim form none = refused bad_user_id
claim form (some id) =
    if leb_ℤ id (pos 0)
    then refused bad_user_id
    else claimed id (form (codes "username")) (form (codes "first_name"))

-- `hmac.Equal` compares the texts.
abbrev check_signature : Bytes → (Bytes → Bytes) → Verdict
check_signature want form =
    if not (eq_bytes want (form (codes "hash")))
    then refused bad_signature
    else claim form (parse_int (form (codes "id")))

-- the checks in their order, by the signature that the last of them wants
abbrev pub verdict : Bytes → (Bytes → Bytes) → ℕ → Verdict
verdict want form now =
    if is_empty (form (codes "hash"))
    then refused missing_hash
    else elim (parse_int (form (codes "auth_date"))) [
      | none ↦ refused bad_auth_date
      | some date ↦ if is_stale now date then refused stale_auth_date else check_signature want form
    ]

module _ (sha256 : Bytes → Bytes) (hmac : Bytes → Bytes → Bytes) where
  unfoldable pub signature : Bytes → (Bytes → Bytes) → List Bytes → Bytes
  signature token form keys = hex_encode (hmac (sha256 token) (check_string form keys))

  unfoldable pub telegram_auth : Bytes → (Bytes → Bytes) → List Bytes → ℕ → Verdict
  telegram_auth token form keys now = verdict (signature token form keys) form now
