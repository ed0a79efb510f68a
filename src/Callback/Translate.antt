-- ===== src/Callback/Translate.antt =====
-- The translate button of an article: go/internal/telegraph/callback.go. The keyboard's label is
-- text of the locale and is left out.
pub mod RoundTrip
use saveinator.Prelude.{
  ◌||◌, not, List, [], ◌∷◌, ◌++◌, Option, none, some, Bytes, codes, eq_bytes, is_empty, ℤ, pos,
  leb_ℤ, if◌then◌else◌, ◌>>=◌,
}
use saveinator.Text.Split.{split}
use saveinator.Text.Decimal.{format_int, parse_int}
use saveinator.Callback.Cancel.{colon}

pub record TranslateData : Type 0 where
  pub user_id : ℤ
  pub thread_id : Bytes

-- fmt.Sprintf("tg:tr:%d:%s", …)
unfoldable pub translate_callback_data : ℤ → Bytes → Bytes
translate_callback_data user_id thread_id =
    codes "tg" ++ colon ∷ (codes "tr" ++ colon ∷ (format_int user_id ++ colon ∷ thread_id))

-- `userID <= 0` is refused behind the reading of the number
abbrev positive_user : ℤ → Bytes → Option TranslateData
positive_user user_id thread_id =
    if leb_ℤ user_id (pos 0)
    then none
    else some (record { user_id = user_id; thread_id = thread_id })

unfoldable pub translate_of_parts : List Bytes → Option TranslateData
translate_of_parts (tag ∷ verb ∷ id ∷ thread_id ∷ []) =
    if not (eq_bytes tag (codes "tg")) || not (eq_bytes verb (codes "tr")) || is_empty thread_id
    then none
    else (do user_id ← parse_int id; positive_user user_id thread_id)
translate_of_parts _ = none

unfoldable pub parse_translate : Bytes → Option TranslateData
unfolding translate_of_parts
parse_translate text = translate_of_parts (split colon text)
