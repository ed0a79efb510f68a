-- ===== src/Runtime/Config.antt =====
-- The configuration: `Settings` of go/internal/config/config.go.
pub mod Load
use saveinator.Prelude.{Bool, Bytes, ℤ}

pub record Settings : Type 0 where
  pub bot_token : Bytes
  pub bot_username : Bytes
  pub database_url : Bytes
  pub redis_url : Bytes
  pub use_polling : Bool
  pub webhook_host : Bytes
  pub webhook_path : Bytes
  pub webhook_port : ℤ
  pub webhook_listen : Bytes
  pub webhook_secret_token : Bytes
  pub log_level : Bytes
  pub rate_limit_user_per_minute : ℤ
  pub rate_limit_chat_per_minute : ℤ
  pub spam_dedup_window_seconds : ℤ
  pub download_timeout_seconds : ℤ
  pub send_video_limit_mb : ℤ
  pub send_document_limit_mb : ℤ
  pub telegram_upload_limit_mb : ℤ
  pub youtube_max_file_size_mb : ℤ
  pub youtube_download_timeout_seconds : ℤ
  pub youtube_enabled : Bool
  pub youtube_transcode_enabled : Bool
  pub youtube_compress_long_enabled : Bool
  pub youtube_compress_min_duration_sec : ℤ
  pub broadcast_delay_ms : ℤ
  pub broadcast_batch_size : ℤ
  pub tiktok_cookies_path : Bytes
  pub tiktok_cookies_from_browser : Bytes
  pub tiktok_cookies_refresh_enabled : Bool
  pub tiktok_cookies_refresh_url : Bytes
  pub tiktok_referer : Bytes
  pub tiktok_max_duration_sec : ℤ
  pub pinterest_enabled : Bool
  pub pinterest_timeout_seconds : ℤ
  pub pinterest_max_items : ℤ
  pub pinterest_download_images : Bool
  pub pinterest_download_videos : Bool
  pub pinterest_cookies_path : Bytes
  pub instagram_enabled : Bool
  pub instagram_timeout_seconds : ℤ
  pub instagram_max_file_mb : ℤ
  pub instagram_cookies_path : Bytes
  pub instagram_cookies_from_browser : Bytes
  pub tiktok_carousel_max_items : ℤ
  pub tiktok_carousel_audio_enabled : Bool
  pub spotify_enabled : Bool
  pub spotify_client_id : Bytes
  pub spotify_client_secret : Bytes
  pub spotify_api_timeout_seconds : ℤ
  pub spotify_download_enabled : Bool
  pub spotify_track_timeout_seconds : ℤ
  pub spotify_dl_output_format : Bytes
  pub spotify_lock_max_tracks : ℤ
  pub spotify_download_concurrency : ℤ
  pub soundcloud_enabled : Bool
  pub soundcloud_download_enabled : Bool
  pub soundcloud_track_timeout_seconds : ℤ
  pub soundcloud_max_tracks : ℤ
  pub soundcloud_dl_output_format : Bytes
  pub soundcloud_download_concurrency : ℤ
  pub yandex_music_enabled : Bool
  pub yandex_music_access_token : Bytes
  pub yandex_music_api_timeout_seconds : ℤ
  pub yandex_music_download_enabled : Bool
  pub yandex_music_track_timeout_seconds : ℤ
  pub yandex_music_dl_output_format : Bytes
  pub yandex_music_lock_max_tracks : ℤ
  pub yandex_music_download_concurrency : ℤ
  pub telegraph_access_token : Bytes
  pub telegraph_author_name : Bytes
  pub reddit_cookies_path : Bytes
  pub reddit_cookies_from_browser : Bytes
  pub metrics_enabled : Bool
  pub metrics_host : Bytes
  pub metrics_port : ℤ
  pub worker_metrics_port : ℤ
  pub admin_telegram_id : ℤ
  pub download_api_enabled : Bool
  pub internal_api_token : Bytes
  pub internal_api_rate_per_minute : ℤ
  pub mode : Bytes
