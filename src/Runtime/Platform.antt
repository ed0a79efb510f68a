-- ===== src/Runtime/Platform.antt =====
-- The settings that the handlers and workers ask for: go/internal/runtime/helpers.go.
pub mod Readings
use saveinator.Prelude.{
  Bool, true, false, List, [], ◌∷◌, ◌++◌, Option, none, some, Bytes, codes, eq_bytes, is_empty, ℤ,
  if◌then◌else◌,
}
use saveinator.Redis.{Redis}
use saveinator.Runtime.Config.{Settings}
use saveinator.Runtime.Value.{Value}
use saveinator.Runtime.Lookup.{lookup}
use saveinator.Runtime.Check.{split_list}
use saveinator.Runtime.Store.{current_value, current_int}

abbrev is_platform : Bytes → Bytes → Bool
is_platform platform name = eq_bytes platform name

abbrev as_bool : Bool → Value → Bool
as_bool fallback (Value.bool b) = b
as_bool fallback (Value.int n) = fallback
as_bool fallback (Value.str s) = fallback

abbrev as_string : Bytes → Value → Bytes
as_string fallback (Value.str s) = if is_empty s then fallback else s
as_string fallback (Value.int n) = fallback
as_string fallback (Value.bool b) = fallback

abbrev as_list : List Bytes → Value → List Bytes
as_list fallback (Value.str s) = if is_empty s then fallback else split_list s
as_list fallback (Value.int n) = fallback
as_list fallback (Value.bool b) = fallback

module _ (R : Redis) (cfg : Settings) where
  unfoldable pub platform_max_file_mb : Bytes → R.State → ℤ
  platform_max_file_mb platform s =
      let key = platform ++ codes ".max_file_mb" in
      elim (lookup key) [
        | none ↦ cfg.send_video_limit_mb
        | some def ↦
            if is_platform platform (codes "youtube")
            then current_int R (some cfg) key cfg.youtube_max_file_size_mb s
            else if is_platform platform (codes "spotify")
            then current_int R (some cfg) key cfg.send_document_limit_mb s
            else if is_platform platform (codes "yandexmusic")
            then current_int R (some cfg) key cfg.send_document_limit_mb s
            else current_int R (some cfg) key cfg.send_video_limit_mb s
      ]

  unfoldable pub platform_timeout_sec : Bytes → R.State → ℤ
  platform_timeout_sec platform s =
      let key = platform ++ codes ".timeout_sec" in
      if is_platform platform (codes "youtube")
      then current_int R (some cfg) key cfg.youtube_download_timeout_seconds s
      else if is_platform platform (codes "spotify")
      then current_int R (some cfg) (codes "spotify.track_timeout_sec")
          cfg.spotify_track_timeout_seconds s
      else if is_platform platform (codes "yandexmusic")
      then current_int R (some cfg) (codes "yandexmusic.track_timeout_sec")
          cfg.yandex_music_track_timeout_seconds s
      else if is_platform platform (codes "soundcloud")
      then current_int R (some cfg) (codes "soundcloud.track_timeout_sec")
          cfg.soundcloud_track_timeout_seconds s
      else if is_platform platform (codes "pinterest")
      then current_int R (some cfg) (codes "pinterest.timeout_sec") cfg.pinterest_timeout_seconds s
      else current_int R (some cfg) key cfg.download_timeout_seconds s

  -- a value that is no Boolean counts as false
  unfoldable pub platform_enabled : Bytes → R.State → Bool
  platform_enabled platform s = elim (lookup (platform ++ codes ".enabled")) [
    | none ↦ true
    | some def ↦ as_bool false (current_value R (some cfg) def s)
  ]

  unfoldable pub current_bool : Bytes → Bool → R.State → Bool
  current_bool redis_key fallback s = elim (lookup redis_key) [
    | none ↦ fallback
    | some def ↦ as_bool fallback (current_value R (some cfg) def s)
  ]

  unfoldable pub current_string : Bytes → Bytes → R.State → Bytes
  current_string redis_key fallback s = elim (lookup redis_key) [
    | none ↦ fallback
    | some def ↦ as_string fallback (current_value R (some cfg) def s)
  ]

  -- No value is a `[]string`, whose case is left out.
  unfoldable pub current_string_list : Bytes → List Bytes → R.State → List Bytes
  current_string_list redis_key fallback s = elim (lookup redis_key) [
    | none ↦ fallback
    | some def ↦ as_list fallback (current_value R (some cfg) def s)
  ]
