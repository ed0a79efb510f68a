-- ===== src/Youtube/Session.antt =====
-- The session behind a format card: go/internal/youtube/session.go, without the cache of probed
-- metadata. `encoding/json` is an argument.
pub mod Mutate
use saveinator.Prelude.{
  ℕ, ◌*◌, Bool, true, false, List, [], ◌∷◌, ◌++◌, Option, none, some, Bytes, codes, ℤ, eq_ℤ,
  if◌then◌else◌,
}
use saveinator.Text.Decimal.{format_int}
use saveinator.Float64.{Float64}
use saveinator.Youtube.Formats.{Offer}
use saveinator.Redis.{Redis}

pub record PendingSession : Type 0 where
  pub user_id : ℤ
  pub url : Bytes
  pub chat_id : ℤ
  pub message_id : ℤ
  pub lang : Bytes
  pub title : Bytes
  pub author : Bytes
  pub duration_sec : ℤ
  pub options : List Offer
  pub awaiting_trim : Bool
  pub trim_start : Float64
  pub trim_end : Float64

unfoldable pub find_option : ℤ → List Offer → Option Offer
find_option height [] = none
find_option height (o ∷ os) =
    let rest = find_option height os in if eq_ℤ o.height height then some o else rest

unfoldable pub option_for : PendingSession → ℤ → Option Offer
option_for s height = find_option height s.options

-- `sessionTTL` in seconds
abbrev pub session_ttl : ℕ
session_ttl = 15 * 60

unfoldable pub session_key : ℤ → Bytes
session_key user_id = codes "yt_pending:" ++ format_int user_id

-- `json.Marshal` and `json.Unmarshal` of a session; `none` is an error.
pub record Coding : Type 0 where
  pub marshal : PendingSession → Option Bytes
  pub unmarshal : Bytes → Option PendingSession

module _ (R : Redis) (J : Coding) where
  -- `false` is an error
  unfoldable pub save : PendingSession → R.State → Bool × R.State
  save session r = elim (J.marshal session) [
    | none ↦ (false, r)
    | some raw ↦ R.set (session_key session.user_id) raw session_ttl r
  ]

  -- `none` is an error of the server, `some none` no session; a text that is no session counts as none
  unfoldable pub get : ℤ → R.State → Option (Option PendingSession)
  get user_id r = elim (R.get (session_key user_id) r) [
    | none ↦ none
    | some none ↦ some none
    | some (some raw) ↦ some (J.unmarshal raw)
  ]

  -- the changed session; `none` is an error, `some none` no session
  unfoldable pub mutate :
      ℤ → (PendingSession → PendingSession) → R.State → Option (Option PendingSession) × R.State
  mutate user_id apply r = elim (get user_id r) [
    | none ↦ (none, r)
    | some none ↦ (some none, r)
    | some (some session) ↦
        let (ok, r') = save (apply session) r in
        ((if ok then some (some (apply session)) else none), r')
  ]

  unfoldable pub set_awaiting_trim : ℤ → Bool → R.State → Option (Option PendingSession) × R.State
  set_awaiting_trim user_id awaiting =
      mutate user_id (λ session. record session { awaiting_trim = awaiting })

  unfoldable pub set_trim :
      ℤ → Float64 → Float64 → R.State → Option (Option PendingSession) × R.State
  set_trim user_id start end =
      mutate user_id
        (λ session. record session { awaiting_trim = false; trim_start = start; trim_end = end })

  unfoldable pub clear : ℤ → R.State → Bool × R.State
  clear user_id r = R.del (session_key user_id) r
