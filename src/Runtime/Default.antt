-- ===== src/Runtime/Default.antt =====
-- The default of a setting, from the configuration or from the registry: `defaultFromConfig` of
-- go/internal/runtime/store.go.
use saveinator.Prelude.{
  Bool, true, false, ◌&&◌, not, Option, none, some, Bytes, codes, eq_bytes, is_empty, pos, eq_ℤ,
  if◌then◌else◌,
}
use saveinator.Runtime.Setting.{ValueType, Setting}
use saveinator.Runtime.Config.{Settings}
use saveinator.Runtime.Value.{Value}

-- the switch over `def.ConfigField`
unfoldable pub config_value : Settings → Bytes → Option Value
config_value cfg field =
    if eq_bytes field (codes "SendDocumentLimitMB")
    then some (Value.int cfg.send_document_limit_mb)
    else if eq_bytes field (codes "TelegramUploadLimitMB")
    then some (Value.int cfg.telegram_upload_limit_mb)
    else if eq_bytes field (codes "DownloadTimeoutSeconds")
    then some (Value.int cfg.download_timeout_seconds)
    else if eq_bytes field (codes "BroadcastDelayMS")
    then some (Value.int cfg.broadcast_delay_ms)
    else if eq_bytes field (codes "BroadcastBatchSize")
    then some (Value.int cfg.broadcast_batch_size)
    else if eq_bytes field (codes "YouTubeMaxFileSizeMB")
    then some (Value.int cfg.youtube_max_file_size_mb)
    else if eq_bytes field (codes "YouTubeDownloadTimeoutSeconds")
    then some (Value.int cfg.youtube_download_timeout_seconds)
    else if eq_bytes field (codes "YouTubeTranscodeEnabled")
    then some (Value.bool cfg.youtube_transcode_enabled)
    else if eq_bytes field (codes "SendVideoLimitMB")
    then some (Value.int cfg.send_video_limit_mb)
    else if eq_bytes field (codes "SpotifyEnabled")
    then some (Value.bool cfg.spotify_enabled)
    else if eq_bytes field (codes "SpotifyDownloadEnabled")
    then some (Value.bool cfg.spotify_download_enabled)
    else if eq_bytes field (codes "SpotifyTrackTimeoutSeconds")
    then some (Value.int cfg.spotify_track_timeout_seconds)
    else if eq_bytes field (codes "SpotifyAPITimeoutSeconds")
    then some (Value.int cfg.spotify_api_timeout_seconds)
    else if eq_bytes field (codes "SpotifyLockMaxTracks")
    then some (Value.int cfg.spotify_lock_max_tracks)
    else if eq_bytes field (codes "SpotifyDownloadConcurrency")
    then some (Value.int cfg.spotify_download_concurrency)
    else if eq_bytes field (codes "YandexMusicEnabled")
    then some (Value.bool cfg.yandex_music_enabled)
    else if eq_bytes field (codes "YandexMusicDownloadEnabled")
    then some (Value.bool cfg.yandex_music_download_enabled)
    else if eq_bytes field (codes "YandexMusicTrackTimeoutSeconds")
    then some (Value.int cfg.yandex_music_track_timeout_seconds)
    else if eq_bytes field (codes "YandexMusicAPITimeoutSeconds")
    then some (Value.int cfg.yandex_music_api_timeout_seconds)
    else if eq_bytes field (codes "YandexMusicLockMaxTracks")
    then some (Value.int cfg.yandex_music_lock_max_tracks)
    else if eq_bytes field (codes "YandexMusicDownloadConcurrency")
    then some (Value.int cfg.yandex_music_download_concurrency)
    else if eq_bytes field (codes "SoundCloudEnabled")
    then some (Value.bool cfg.soundcloud_enabled)
    else if eq_bytes field (codes "SoundCloudDownloadEnabled")
    then some (Value.bool cfg.soundcloud_download_enabled)
    else if eq_bytes field (codes "SoundCloudTrackTimeoutSeconds")
    then some (Value.int cfg.soundcloud_track_timeout_seconds)
    else if eq_bytes field (codes "SoundCloudMaxTracks")
    then some (Value.int cfg.soundcloud_max_tracks)
    else if eq_bytes field (codes "SoundCloudDownloadConcurrency")
    then some (Value.int cfg.soundcloud_download_concurrency)
    else if eq_bytes field (codes "PinterestEnabled")
    then some (Value.bool cfg.pinterest_enabled)
    else if eq_bytes field (codes "PinterestTimeoutSeconds")
    then some (Value.int cfg.pinterest_timeout_seconds)
    else if eq_bytes field (codes "PinterestMaxItems")
    then some (Value.int cfg.pinterest_max_items)
    else if eq_bytes field (codes "PinterestDownloadImages")
    then some (Value.bool cfg.pinterest_download_images)
    else if eq_bytes field (codes "PinterestDownloadVideos")
    then some (Value.bool cfg.pinterest_download_videos)
    else if eq_bytes field (codes "TikTokCarouselMaxItems")
    then some (Value.int cfg.tiktok_carousel_max_items)
    else if eq_bytes field (codes "TikTokCarouselAudioEnabled")
    then some (Value.bool cfg.tiktok_carousel_audio_enabled)
    else if eq_bytes field (codes "SoundCloudDLOutputFormat")
    then some (Value.str cfg.soundcloud_dl_output_format)
    else none

abbrev pub is_text_type : ValueType → Bool
is_text_type ValueType.enum = true
is_text_type ValueType.list = true
is_text_type ValueType.int = false
is_text_type ValueType.bool = false

abbrev pub is_bool_type : ValueType → Bool
is_bool_type ValueType.bool = true
is_bool_type ValueType.enum = false
is_bool_type ValueType.list = false
is_bool_type ValueType.int = false

-- behind the switch
unfoldable pub own_default : Setting → Value
own_default def =
    if is_text_type def.value_type && not (is_empty def.default_str)
    then Value.str def.default_str
    else if is_bool_type def.value_type
    then Value.bool def.default_bool
    else if not (eq_ℤ def.default_int (pos 0))
    then Value.int def.default_int
    else Value.int (pos 0)

unfoldable pub default_from_config : Option Settings → Setting → Value
unfolding config_value own_default
default_from_config none def = own_default def
default_from_config (some cfg) def = elim (config_value cfg def.config_field) [
  | none ↦ own_default def
  | some v ↦ v
]
