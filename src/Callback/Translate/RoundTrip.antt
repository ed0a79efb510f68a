-- ===== src/Callback/Translate/RoundTrip.antt =====
-- A pressed translate button is read back as what it was made of.
use saveinator.Prelude.{
  ◌≡◌, ◌≢◌, refl, [], ◌∷◌, none, some, arith, Bytes, codes, ℤ, pos, Lacks, IsInt64, eq_bytes, leb_ℤ,
  true,
}
use saveinator.Text.Split.{split, split_first, split_whole}
use saveinator.Text.Decimal.{format_int}
use saveinator.Text.Decimal.RoundTrip.{parse_int-format_int, format_int-Lacks}
use saveinator.Callback.Cancel.{colon}
use saveinator.Callback.Translate.{translate_callback_data, parse_translate}

split-translate_callback_data :
    (user_id : ℤ) (thread_id : Bytes)
    → Lacks colon thread_id
    → split colon (translate_callback_data user_id thread_id)
      ≡ codes "tg" ∷ codes "tr" ∷ format_int user_id ∷ thread_id ∷ []
unfolding translate_callback_data
split-translate_callback_data user_id thread_id h = rw (
  split_first colon (codes "tg") _ (ground arith),
  split_first colon (codes "tr") _ (ground arith),
  split_first colon (format_int user_id) _ (format_int-Lacks colon user_id refl (omega arith)),
  split_whole colon thread_id h,
)

-- A translate button with a positive user id and a thread id that is not empty and holds no colon
-- is read back to both; one with a user id of zero or less is refused.
pub parse_translate-translate_callback_data :
    (user_id : ℤ) (thread_id : Bytes)
    → IsInt64 user_id
    → Lacks colon thread_id
    → thread_id ≢ []
    → (leb_ℤ user_id (pos 0) ≡ true
        → parse_translate (translate_callback_data user_id thread_id) ≡ none)
      × (leb_ℤ (pos 1) user_id ≡ true
          → parse_translate (translate_callback_data user_id thread_id)
            ≡ some (record { user_id = user_id; thread_id = thread_id }))
unfolding parse_translate eq_bytes
parse_translate-translate_callback_data user_id [] hi hl ne = absurd (ne refl)
parse_translate-translate_callback_data user_id (c ∷ t) hi hl ne =
    rw (split-translate_callback_data user_id (c ∷ t) hl, parse_int-format_int user_id hi)
      (ground arith)
