-- ===== src/Tests/Errors.antt =====
-- The classes of errors at concrete texts.
use saveinator.Prelude.{◌≡◌, refl, true, [], some, Bytes, codes, eq_bytes}
use saveinator.Text.Search.{has_prefix, has_substring}
use saveinator.Text.Trim.{to_lower}
use saveinator.Ytdlp.Errors.{
  has_any, user_facing_error_key, is_format_unavailable_error, is_unexpected_webpage_error,
  is_timeout_error,
}

abbrev slow : Bytes
slow = codes "Read timed out"

slow_lem : is_timeout_error (some slow) ≡ true
unfolding is_timeout_error user_facing_error_key has_any has_substring has_prefix to_lower eq_bytes
slow_lem = refl

-- "429" in the number of a video hides the network's failure
hidden :
    user_facing_error_key [] (some (codes "14290: connection refused"))
    ≡ codes "errors.rate_limited"
unfolding user_facing_error_key has_any has_substring has_prefix to_lower
    is_format_unavailable_error is_unexpected_webpage_error
hidden = refl
