-- ===== src/Tests/Media.antt =====
-- The format card of a concrete video, and the bans at a concrete server.
use saveinator.Prelude.{◌≡◌, ◌≢◌, refl, false, [], ◌∷◌, none, some, codes, ℤ, pos, All}
use saveinator.Text.Decimal.{parse_int, magnitude, signed}
use saveinator.Float64.{Float64}
use saveinator.Redisx.Bans.{parsed_ids, exchange, exchange_sort, list_banned_users}
use saveinator.Runtime.Config.{Settings}
use saveinator.Youtube.Formats.{Format, Offer, best_audio, options, default_heights}
use saveinator.Youtube.Formats.Offered.{Among, HasSide, Genuine, options_exact}
use saveinator.Tests.Server.{Memory, server}

abbrev track : Format
track = record {
  format_id = codes "140";
  vcodec = codes "none";
  acodec = codes "mp4a";
  width = pos 0;
  height = pos 0;
  filesize = pos 100;
  filesize_approx = pos 0;
  tbr = 0;
  abr = 0;
}

abbrev picture : Format
picture = record {
  format_id = codes "137";
  vcodec = codes "avc1";
  acodec = codes "none";
  width = pos 1920;
  height = pos 1080;
  filesize = pos 900;
  filesize_approx = pos 0;
  tbr = 0;
  abr = 0;
}

abbrev nothing : Float64 → Float64 → ℤ
nothing tbr duration = pos 0

options_exact_example :
    All
      (Genuine nothing 0 (track ∷ picture ∷ []) default_heights)
      (options nothing 0 (track ∷ picture ∷ []) default_heights)
    × ((a f : Format) (h : ℤ)
        → best_audio (track ∷ picture ∷ []) ≡ some a
        → HasSide (track ∷ picture ∷ []) h f
        → h ≢ pos 0
        → Among h default_heights
        → (o : Offer) × (o.height ≡ h)
          × Among o (options nothing 0 (track ∷ picture ∷ []) default_heights))
options_exact_example = options_exact nothing 0 (track ∷ picture ∷ []) default_heights

abbrev offer : Offer
offer = record { height = pos 720; size_bytes = pos 10; format_id = codes "22" }

abbrev banned : Memory
banned = record {
  texts = λ k. none;
  sets = λ k. codes "9" ∷ codes "x" ∷ codes "4" ∷ [];
  fields = λ k f. none;
}

listed_lem : list_banned_users server banned ≡ some (pos 4 ∷ pos 9 ∷ [])
unfolding list_banned_users parsed_ids exchange_sort exchange parse_int magnitude signed
listed_lem = refl

abbrev zero_settings : Settings
zero_settings = record {
  bot_token = [];
  bot_username = [];
  database_url = [];
  redis_url = [];
  use_polling = false;
  webhook_host = [];
  webhook_path = [];
  webhook_port = pos 0;
  webhook_listen = [];
  webhook_secret_token = [];
  log_level = [];
  rate_limit_user_per_minute = pos 0;
  rate_limit_chat_per_minute = pos 0;
  spam_dedup_window_seconds = pos 0;
  download_timeout_seconds = pos 0;
  send_video_limit_mb = pos 0;
  send_document_limit_mb = pos 0;
  telegram_upload_limit_mb = pos 0;
  youtube_max_file_size_mb = pos 0;
  youtube_download_timeout_seconds = pos 0;
  youtube_enabled = false;
  youtube_transcode_enabled = false;
  youtube_compress_long_enabled = false;
  youtube_compress_min_duration_sec = pos 0;
  broadcast_delay_ms = pos 0;
  broadcast_batch_size = pos 0;
  tiktok_cookies_path = [];
  tiktok_cookies_from_browser = [];
  tiktok_cookies_refresh_enabled = false;
  tiktok_cookies_refresh_url = [];
  tiktok_referer = [];
  tiktok_max_duration_sec = pos 0;
  pinterest_enabled = false;
  pinterest_timeout_seconds = pos 0;
  pinterest_max_items = pos 0;
  pinterest_download_images = false;
  pinterest_download_videos = false;
  pinterest_cookies_path = [];
  instagram_enabled = false;
  instagram_timeout_seconds = pos 0;
  instagram_max_file_mb = pos 0;
  instagram_cookies_path = [];
  instagram_cookies_from_browser = [];
  tiktok_carousel_max_items = pos 0;
  tiktok_carousel_audio_enabled = false;
  spotify_enabled = false;
  spotify_client_id = [];
  spotify_client_secret = [];
  spotify_api_timeout_seconds = pos 0;
  spotify_download_enabled = false;
  spotify_track_timeout_seconds = pos 0;
  spotify_dl_output_format = [];
  spotify_lock_max_tracks = pos 0;
  spotify_download_concurrency = pos 0;
  soundcloud_enabled = false;
  soundcloud_download_enabled = false;
  soundcloud_track_timeout_seconds = pos 0;
  soundcloud_max_tracks = pos 0;
  soundcloud_dl_output_format = [];
  soundcloud_download_concurrency = pos 0;
  yandex_music_enabled = false;
  yandex_music_access_token = [];
  yandex_music_api_timeout_seconds = pos 0;
  yandex_music_download_enabled = false;
  yandex_music_track_timeout_seconds = pos 0;
  yandex_music_dl_output_format = [];
  yandex_music_lock_max_tracks = pos 0;
  yandex_music_download_concurrency = pos 0;
  telegraph_access_token = [];
  telegraph_author_name = [];
  reddit_cookies_path = [];
  reddit_cookies_from_browser = [];
  metrics_enabled = false;
  metrics_host = [];
  metrics_port = pos 0;
  worker_metrics_port = pos 0;
  admin_telegram_id = pos 0;
  download_api_enabled = false;
  internal_api_token = [];
  internal_api_rate_per_minute = pos 0;
  mode = [];
}
