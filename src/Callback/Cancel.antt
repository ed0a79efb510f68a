-- ===== src/Callback/Cancel.antt =====
-- The cancel and queue buttons: go/internal/cancel/keyboard.go. The keyboards' labels are text of
-- the locale and are left out; whether a keyboard is shown, and its callback payload, is modelled.
pub mod RoundTrip
use saveinator.Prelude.{
  Bool, ◌&&◌, ◌||◌, not, List, [], ◌∷◌, ◌++◌, Option, none, some, Bytes, codes, eq_bytes, is_empty,
  ℤ, pos, eq_ℤ, if◌then◌else◌, ◌>>=◌, ℕ,
}
use saveinator.Text.Split.{split}
use saveinator.Text.Decimal.{format_int, parse_int}

pub record Data : Type 0 where
  pub scenario : Bytes
  pub user_id : ℤ
  pub token : Bytes

abbrev pub colon : ℕ
colon = b':'

-- fmt.Sprintf("dlc:%s:%d:%s", …)
unfoldable pub callback_data : Bytes → ℤ → Bytes → Bytes
callback_data scenario user_id token =
    codes "dlc" ++ (colon ∷ (scenario ++ (colon ∷ (format_int user_id ++ (colon ∷ token)))))

unfoldable pub queue_callback_data : ℤ → Bytes
queue_callback_data user_id = codes "dlq" ++ (colon ∷ format_int user_id)

-- the guard on the parts and the reading of the third
unfoldable pub cancel_of_parts : List Bytes → Option Data
cancel_of_parts (tag ∷ scenario ∷ id ∷ token ∷ []) =
    if not (eq_bytes tag (codes "dlc")) || is_empty token then none else (do
      user_id ← parse_int id
      some (record { scenario = scenario; user_id = user_id; token = token }))
cancel_of_parts _ = none

unfoldable pub parse_cancel : Bytes → Option Data
unfolding cancel_of_parts
parse_cancel text = cancel_of_parts (split colon text)

unfoldable pub queue_of_parts : List Bytes → Option ℤ
queue_of_parts (tag ∷ id ∷ []) = if eq_bytes tag (codes "dlq") then parse_int id else none
queue_of_parts _ = none

unfoldable pub parse_queue : Bytes → Option ℤ
unfolding queue_of_parts
parse_queue text = queue_of_parts (split colon text)

-- The callback payload of the button of `Keyboard`; `none` where no keyboard is shown.
unfoldable pub keyboard : Bytes → ℤ → Bytes → Option Bytes
keyboard scenario user_id token =
    if eq_ℤ user_id (pos 0) || is_empty token
    then none
    else some (callback_data scenario user_id token)

unfoldable pub queue_button : ℤ → Option Bytes
queue_button user_id = if eq_ℤ user_id (pos 0) then none else some (queue_callback_data user_id)

-- The name that the queue card shows for a scenario.
unfoldable pub scenario_label : Bytes → Bytes
scenario_label s =
    if eq_bytes s (codes "spotify")
    then codes "Spotify"
    else if eq_bytes s (codes "yandexmusic")
    then codes "Yandex Music"
    else if eq_bytes s (codes "soundcloud")
    then codes "SoundCloud"
    else if eq_bytes s (codes "pinterest")
    then codes "Pinterest"
    else if eq_bytes s (codes "tiktok")
    then codes "TikTok"
    else codes "video"
