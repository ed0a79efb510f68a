-- ===== src/Tests/Settings.antt =====
-- The runtime settings at concrete entries of the registry and a concrete server.
use saveinator.Prelude.{
  ◌≡◌, ◌≢◌, ◌⊎◌, refl, true, [], ◌∷◌, none, some, Bytes, codes, pos, negsuc, eq_bytes,
}
use saveinator.Text.Trim.{trim_space}
use saveinator.Text.Decimal.{parse_int, magnitude, signed}
use saveinator.Runtime.Setting.{ValueType, Setting, empty_setting, int_setting}
use saveinator.Runtime.Value.{Value}
use saveinator.Runtime.Lookup.{lookup, lookup_in}
use saveinator.Runtime.Check.{validate, parse, split_list}
use saveinator.Runtime.Store.{current_value, set_value, runtime_settings_key, runtime_set}
use saveinator.Runtime.Store.Valid.{AllAllowed, validate-negative, validate_list_sound}
use saveinator.Runtime.Store.Stored.{stored_field, current-set_value}
use saveinator.Tests.Server.{Memory, server}

abbrev limit : Setting
limit =
    int_setting (codes "youtube.max_duration_sec") (codes "YouTubeMaxDurationSec") (codes "youtube")
      "Max duration" "Макс. длительность" "sec" 0 86400 0

abbrev timeout : Setting
timeout =
    int_setting (codes "spotify.api_timeout_sec") (codes "SpotifyAPITimeoutSeconds")
      (codes "spotify") "API timeout" "Таймаут API" "sec" 5 60 15

abbrev ratios : Setting
ratios = record empty_setting {
  redis_key = codes "youtube.allowed_ratios";
  service = codes "youtube";
  value_type = ValueType.list;
  default_str = codes "16_9,21_9,9_16";
  allowed = codes "16_9" ∷ codes "21_9" ∷ codes "9_16" ∷ [];
  label_en = "Allowed ratios";
  label_ru = "Доступные соотношения";
}

twenty : parse_int (trim_space (codes " 20")) ≡ some (pos 20)
unfolding trim_space parse_int magnitude signed
twenty = refl

minus_seven : parse_int (trim_space (codes "-7")) ≡ some (negsuc 6)
unfolding trim_space parse_int magnitude signed
minus_seven = refl

timeout_lookup : lookup (codes "spotify.api_timeout_sec") ≡ some timeout
unfolding lookup lookup_in eq_bytes
timeout_lookup = refl

validate-negative_example :
    (validate limit (codes "-7") ≡ none) × (parse limit (codes "-7") ≡ Value.int (negsuc 6))
validate-negative_example = validate-negative limit (codes "-7") 6 refl refl minus_seven

validate_list_sound_example :
    (validate ratios (codes ",") ≡ none
      → AllAllowed ratios.allowed (split_list (trim_space (codes ",")))
        × (trim_space (codes ",") ≢ []))
    × (split_list (trim_space (codes ",")) ≡ []
        → trim_space (codes ",") ≢ []
        → (validate ratios (codes ",") ≡ none) × (parse ratios (codes ",") ≡ Value.str []))
validate_list_sound_example = validate_list_sound ratios (codes ",") refl

abbrev empty : Memory
empty = record { texts = λ k. none; sets = λ k. []; fields = λ k f. none }

abbrev after : Memory
after =
    (set_value server none (codes "spotify.api_timeout_sec") (parse timeout (codes " 20")) empty).1

set_answers :
    (set_value server none (codes "spotify.api_timeout_sec") (parse timeout (codes " 20")) empty).0
    ≡ true
unfolding set_value runtime_set lookup lookup_in eq_bytes
set_answers = refl

current-set_value_example :
    ((current_value server none timeout after ≡ parse timeout (codes " 20"))
      ⊎ (server.hget runtime_settings_key (codes "spotify.api_timeout_sec") after ≡ none))
    × ((j : Bytes)
        → j ≢ codes "spotify.api_timeout_sec"
        → stored_field server none j after ≡ stored_field server none j empty)
current-set_value_example =
    current-set_value server none (codes "spotify.api_timeout_sec") (codes " 20") timeout empty
      timeout_lookup set_answers
