-- ===== src/Tests/Callbacks.antt =====
-- The buttons' payloads at concrete inputs.
use saveinator.Prelude.{◌≡◌, refl, none, some, codes, eq_bytes, pos, negsuc}
use saveinator.Text.Split.{split}
use saveinator.Text.Decimal.{format_int, parse_int, magnitude, signed}
use saveinator.Callback.Cancel.{Data, callback_data, parse_cancel}

prints : format_int (negsuc 41) ≡ codes "-42"
unfolding format_int
prints = refl

reads : parse_int (codes "+9223372036854775807") ≡ some (pos 9223372036854775807)
unfolding parse_int magnitude signed
reads = refl

overflows : parse_int (codes "9223372036854775808") ≡ none
unfolding parse_int magnitude signed
overflows = refl

button : callback_data (codes "tiktok") (pos 7) (codes "ab-1") ≡ codes "dlc:tiktok:7:ab-1"
unfolding callback_data format_int
button = refl

abbrev pressed : Data
pressed = record { scenario = codes "tiktok"; user_id = pos 7; token = codes "ab-1" }

pressed_lem : parse_cancel (codes "dlc:tiktok:7:ab-1") ≡ some pressed
unfolding parse_cancel split parse_int magnitude signed eq_bytes
pressed_lem = refl
