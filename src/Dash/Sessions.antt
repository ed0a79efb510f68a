-- ===== src/Dash/Sessions.antt =====
-- The session manager of go/internal/dash/auth.go: a map from tokens to entries, as an association
-- list without repeated keys. The token drawn and the time, in nanoseconds, are arguments.
pub mod Laws
use saveinator.Prelude.{
  ℕ, ◌+◌, ◌*◌, ◌^◌, ltb, Bool, true, false, not, List, [], ◌∷◌, Option, none, some, Bytes, eq_bytes,
  ℤ, keep, if◌then◌else◌,
}

pub record SessionEntry : Type 0 where
  pub user_id : ℤ
  pub username : Bytes
  pub first_name : Bytes
  pub expires : ℕ

abbrev pub SessionManager : Type 0
SessionManager = List (Bytes × SessionEntry)

-- 7 * 24 * time.Hour
abbrev pub session_ttl : ℕ
session_ttl = 7 * 24 * 3600 * 10 ^ 9

unfoldable pub find : Bytes → SessionManager → Option SessionEntry
find token [] = none
find token ((t, e) ∷ m) = let rest = find token m in if eq_bytes token t then some e else rest

abbrev pub expired : ℕ → SessionEntry → Bool
expired now e = ltb e.expires now

unfoldable pub revoke : Bytes → SessionManager → SessionManager
revoke token m = keep (λ (p : Bytes × SessionEntry). not (eq_bytes token p.0)) m

-- `cleanupLocked`
unfoldable pub cleanup : ℕ → SessionManager → SessionManager
cleanup now m = keep (λ (p : Bytes × SessionEntry). not (expired now p.1)) m

-- `none` is a failure of the random source.
unfoldable pub issue :
    ℤ → Bytes → Bytes → Option Bytes → ℕ → SessionManager → Option Bytes × SessionManager
issue user_id username first_name none now m = (none, m)
issue user_id username first_name (some token) now m = (
  some token,
  (
    token,
    record {
      user_id = user_id;
      username = username;
      first_name = first_name;
      expires = now + session_ttl;
    },
  )
      ∷ revoke token (cleanup now m),
)

unfoldable pub lookup : Bytes → ℕ → SessionManager → Option SessionEntry × SessionManager
lookup token now m = elim (find token m) [
  | none ↦ (none, m)
  | some e ↦ if expired now e then (none, revoke token m) else (some e, m)
]
