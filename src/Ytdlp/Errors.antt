-- ===== src/Ytdlp/Errors.antt =====
-- What a download's error means: go/internal/ytdlp/errors.go, and the message made of it,
-- go/internal/worker/user_error.go. An error is its text, and none is nil.
pub mod Retry
use saveinator.Prelude.{
  ℕ, Bool, true, false, ◌&&◌, ◌||◌, not, List, [], ◌∷◌, ◌++◌, Option, none, some, Bytes, codes,
  eq_bytes, is_empty, length, take, ltb, ℤ, if◌then◌else◌,
}
use saveinator.Text.Search.{has_substring}
use saveinator.Text.Trim.{to_lower, trim_space}
use saveinator.Handler.Enqueue.{is_admin}

-- one of the texts stands in the message
unfoldable pub has_any : Bytes → List Bytes → Bool
has_any msg [] = false
has_any msg (p ∷ ps) = has_substring msg p || has_any msg ps

abbrev pub format_signs : List Bytes
format_signs =
    codes "requested format is not available"
    ∷ codes "only images are available"
    ∷ codes "po token"
    ∷ codes "drm protected"
    ∷ codes "captcha"
    ∷ []

abbrev pub webpage_signs : List Bytes
webpage_signs = codes "unexpected response from webpage request" ∷ []

abbrev pub timeout_signs : List Bytes
timeout_signs = codes "context deadline exceeded" ∷ codes "timed out" ∷ []

abbrev pub not_found_signs : List Bytes
not_found_signs =
    codes "no video formats found"
    ∷ codes "no video file found"
    ∷ codes "no media files found"
    ∷ codes "unsupported url"
    ∷ codes "video not available, status code"
    ∷ codes "permission to view this post"
    ∷ codes "video unavailable"
    ∷ codes "private video"
    ∷ codes "login required"
    ∷ codes "sign in to confirm"
    ∷ codes "content isn't available"
    ∷ codes "has been removed"
    ∷ []

abbrev pub rate_signs : List Bytes
rate_signs = codes "429" ∷ codes "too many requests" ∷ codes "rate limit" ∷ codes "rate-limit" ∷ []

abbrev pub network_signs : List Bytes
network_signs =
    codes "connection refused"
    ∷ codes "no such host"
    ∷ codes "network is unreachable"
    ∷ codes "i/o timeout"
    ∷ codes "tls handshake"
    ∷ codes "connection reset"
    ∷ []

unfoldable pub is_no_video_formats_error : Option Bytes → Bool
is_no_video_formats_error none = false
is_no_video_formats_error (some e) = has_substring (to_lower e) (codes "no video formats found")

unfoldable pub is_format_unavailable_error : Option Bytes → Bool
is_format_unavailable_error none = false
is_format_unavailable_error (some e) = has_any (to_lower e) format_signs

unfoldable pub is_unexpected_webpage_error : Option Bytes → Bool
is_unexpected_webpage_error none = false
is_unexpected_webpage_error (some e) = has_any (to_lower e) webpage_signs

abbrev pub timeout_key : Bytes
timeout_key = codes "download.timeout"

abbrev pub network_key : Bytes
network_key = codes "errors.network"

-- The platform is not read. An empty key is no class.
unfoldable pub user_facing_error_key : Bytes → Option Bytes → Bytes
user_facing_error_key platform none = []
user_facing_error_key platform (some e) =
    let msg = to_lower e in
    if has_any msg timeout_signs
    then timeout_key
    else if is_format_unavailable_error (some e) || is_unexpected_webpage_error (some e)
    then codes "errors.format_unavailable"
    else if has_any msg not_found_signs
    then codes "errors.not_found"
    else if has_any msg rate_signs
    then codes "errors.rate_limited"
    else if has_any msg network_signs
    then network_key
    else []

abbrev pub is_some {ℓ} : {A : Type ℓ} → Option A → Bool
is_some none = false
is_some (some a) = true

unfoldable pub is_network_error : Option Bytes → Bool
is_network_error e = is_some e && eq_bytes (user_facing_error_key [] e) network_key

unfoldable pub is_timeout_error : Option Bytes → Bool
is_timeout_error e = is_some e && eq_bytes (user_facing_error_key [] e) timeout_key

unfoldable pub is_retryable_error : Option Bytes → Bool
is_retryable_error e = is_network_error e || is_timeout_error e

abbrev pub max_admin_debug_len : ℕ
max_admin_debug_len = 3500

-- the three bytes of U+2026
abbrev pub ellipsis : Bytes
ellipsis = 226 ∷ 128 ∷ 166 ∷ []

unfoldable pub shortened : Bytes → Bytes
shortened detail =
    if ltb max_admin_debug_len (length detail)
    then take max_admin_debug_len detail ++ ellipsis
    else detail

-- The message's key in the locale, and the detail that an administrator gets behind it.
unfoldable pub user_facing_error : ℤ → ℤ → Option Bytes → Bytes × Option Bytes
user_facing_error admin_id user_id err =
    let key = user_facing_error_key [] err in
    let base = if is_empty key then codes "errors.generic" else key in
    elim err [
      | none ↦ (base, none)
      | some text ↦
          if not (is_admin admin_id user_id)
          then (base, none)
          else if is_empty (trim_space text)
          then (base, none)
          else (base, some (shortened (trim_space text)))
    ]
