-- ===== src/Runtime/Registry.antt =====
-- The settings of go/internal/runtime/registry.go, in the order of the source.
use saveinator.Prelude.{true, false, List, [], ◌∷◌, ◌++◌, codes}
use saveinator.Runtime.Setting.{Setting, list, enum, empty_setting, int_setting, bool_setting}

abbrev pub global_settings : List Setting
global_settings =
    int_setting (codes "global.document_limit_mb") (codes "SendDocumentLimitMB") (codes "global")
      "Document limit" "Лимит документов" "MB" 1 1999 1999
    ∷ int_setting (codes "global.telegram_upload_limit_mb") (codes "TelegramUploadLimitMB")
        (codes "global") "Telegram upload limit" "Лимит загрузки Telegram" "MB" 1 1999 50
    ∷ int_setting (codes "global.default_timeout_sec") (codes "DownloadTimeoutSeconds")
        (codes "global") "Default timeout" "Таймаут по умолчанию" "sec" 10 3600 60
    ∷ int_setting (codes "global.broadcast_delay_ms") (codes "BroadcastDelayMS") (codes "global")
        "Broadcast delay" "Задержка рассылки" "ms" 20 5000 50
    ∷ int_setting (codes "global.broadcast_batch_size") (codes "BroadcastBatchSize")
        (codes "global") "Broadcast batch size" "Размер пачки рассылки" "" 1 100 20
    ∷ []

abbrev pub youtube_settings : List Setting
youtube_settings =
    int_setting (codes "youtube.max_file_mb") (codes "YouTubeMaxFileSizeMB") (codes "youtube")
      "Max file" "Лимит файла" "MB" 1 1999 1999
    ∷ int_setting (codes "youtube.timeout_sec") (codes "YouTubeDownloadTimeoutSeconds")
        (codes "youtube") "Timeout" "Таймаут" "sec" 30 3600 600
    ∷ bool_setting (codes "youtube.transcode_enabled") (codes "YouTubeTranscodeEnabled")
        (codes "youtube") "Transcode enabled" "Транскодинг" true
    ∷ int_setting (codes "youtube.max_duration_sec") (codes "YouTubeMaxDurationSec")
        (codes "youtube") "Max duration" "Макс. длительность" "sec" 0 86400 0
    ∷ bool_setting (codes "youtube.compress_long_enabled") (codes "YouTubeCompressLongEnabled")
        (codes "youtube") "Compress long videos" "Сжатие длинных видео" true
    ∷ int_setting (codes "youtube.compress_min_duration_sec")
        (codes "YouTubeCompressMinDurationSec") (codes "youtube") "Compress min duration"
        "Мин. длительность сжатия" "sec" 60 86400 600
    ∷ bool_setting (codes "youtube.mp3_enabled") (codes "") (codes "youtube") "Mp3 button"
        "Кнопка Mp3" true
    ∷ bool_setting (codes "youtube.trim_enabled") (codes "") (codes "youtube") "Trim button"
        "Кнопка обрезки" true
    ∷ (record empty_setting {
      redis_key = codes "youtube.allowed_qualities";
      config_field = codes "";
      service = codes "youtube";
      value_type = list;
      default_str = codes "144,240,360,480,720,1080";
      allowed =
          codes "144" ∷ codes "240" ∷ codes "360" ∷ codes "480" ∷ codes "720" ∷ codes "1080" ∷ [];
      label_en = "Allowed qualities";
      label_ru = "Доступные качества";
    })
    ∷ (record empty_setting {
      redis_key = codes "youtube.allowed_ratios";
      config_field = codes "";
      service = codes "youtube";
      value_type = list;
      default_str = codes "16_9,21_9,9_16";
      allowed = codes "16_9" ∷ codes "21_9" ∷ codes "9_16" ∷ [];
      label_en = "Allowed ratios";
      label_ru = "Доступные соотношения";
    })
    ∷ []

abbrev pub tiktok_settings : List Setting
tiktok_settings =
    int_setting (codes "tiktok.max_file_mb") (codes "SendVideoLimitMB") (codes "tiktok") "Max file"
      "Лимит файла" "MB" 1 500 50
    ∷ int_setting (codes "tiktok.timeout_sec") (codes "DownloadTimeoutSeconds") (codes "tiktok")
        "Timeout" "Таймаут" "sec" 10 300 60
    ∷ int_setting (codes "tiktok.max_duration_sec") (codes "TikTokMaxDurationSec") (codes "tiktok")
        "Max duration" "Макс. длительность" "sec" 0 600 0
    ∷ bool_setting (codes "tiktok.allow_photo_slideshows") (codes "TikTokAllowPhotoSlideshows")
        (codes "tiktok") "Allow photo slideshows" "Фото-слайдшоу" true
    ∷ bool_setting (codes "tiktok.fallback_to_document") (codes "TikTokFallbackToDocument")
        (codes "tiktok") "Fallback to document" "Документ как fallback" true
    ∷ int_setting (codes "tiktok.carousel_max_items") (codes "TikTokCarouselMaxItems")
        (codes "tiktok") "Max carousel images" "Макс. фото в карусели" "" 1 50 20
    ∷ bool_setting (codes "tiktok.carousel_audio_enabled") (codes "TikTokCarouselAudioEnabled")
        (codes "tiktok") "Carousel audio" "Аудио карусели" true
    ∷ []

abbrev pub x_settings : List Setting
x_settings =
    int_setting (codes "x.max_file_mb") (codes "SendVideoLimitMB") (codes "x") "Max file"
      "Лимит файла" "MB" 1 500 50
    ∷ int_setting (codes "x.timeout_sec") (codes "DownloadTimeoutSeconds") (codes "x") "Timeout"
        "Таймаут" "sec" 10 300 60
    ∷ int_setting (codes "x.max_items_per_post") (codes "XMaxItemsPerPost") (codes "x")
        "Max items per post" "Элементов на пост" "" 1 10 4
    ∷ bool_setting (codes "x.allow_gif") (codes "XAllowGIF") (codes "x") "Allow GIF" "GIF" true
    ∷ bool_setting (codes "x.allow_video") (codes "XAllowVideo") (codes "x") "Allow video" "Видео"
        true
    ∷ bool_setting (codes "x.fallback_to_document") (codes "XFallbackToDocument") (codes "x")
        "Fallback to document" "Документ как fallback" true
    ∷ bool_setting (codes "x.auto_translate") (codes "XAutoTranslate") (codes "x")
        "Auto-translate post text" "Автоперевод текста поста" true
    ∷ []

abbrev pub spotify_settings : List Setting
spotify_settings =
    bool_setting (codes "spotify.enabled") (codes "SpotifyEnabled") (codes "spotify") "Enabled"
      "Включено" false
    ∷ bool_setting (codes "spotify.download_enabled") (codes "SpotifyDownloadEnabled")
        (codes "spotify") "Download enabled" "Скачивание" true
    ∷ int_setting (codes "spotify.max_file_mb") (codes "SendDocumentLimitMB") (codes "spotify")
        "Max file" "Лимит файла" "MB" 1 1999 1999
    ∷ int_setting (codes "spotify.track_timeout_sec") (codes "SpotifyTrackTimeoutSeconds")
        (codes "spotify") "Track timeout" "Таймаут трека" "sec" 10 300 60
    ∷ int_setting (codes "spotify.api_timeout_sec") (codes "SpotifyAPITimeoutSeconds")
        (codes "spotify") "API timeout" "Таймаут API" "sec" 5 60 15
    ∷ int_setting (codes "spotify.max_tracks_per_album") (codes "SpotifyLockMaxTracks")
        (codes "spotify") "Max tracks per album" "Треков на альбом" "" 1 100 50
    ∷ int_setting (codes "spotify.download_concurrency") (codes "SpotifyDownloadConcurrency")
        (codes "spotify") "Download concurrency" "Одновременных загрузок" "" 1 5 2
    ∷ []

abbrev pub yandexmusic_settings : List Setting
yandexmusic_settings =
    bool_setting (codes "yandexmusic.enabled") (codes "YandexMusicEnabled") (codes "yandexmusic")
      "Enabled" "Включено" false
    ∷ bool_setting (codes "yandexmusic.download_enabled") (codes "YandexMusicDownloadEnabled")
        (codes "yandexmusic") "Download enabled" "Скачивание" true
    ∷ int_setting (codes "yandexmusic.max_file_mb") (codes "SendDocumentLimitMB")
        (codes "yandexmusic") "Max file" "Лимит файла" "MB" 1 1999 1999
    ∷ int_setting (codes "yandexmusic.track_timeout_sec") (codes "YandexMusicTrackTimeoutSeconds")
        (codes "yandexmusic") "Track timeout" "Таймаут трека" "sec" 10 300 60
    ∷ int_setting (codes "yandexmusic.api_timeout_sec") (codes "YandexMusicAPITimeoutSeconds")
        (codes "yandexmusic") "API timeout" "Таймаут API" "sec" 5 60 15
    ∷ int_setting (codes "yandexmusic.max_tracks_per_album") (codes "YandexMusicLockMaxTracks")
        (codes "yandexmusic") "Max tracks per album" "Треков на альбом" "" 1 100 50
    ∷ int_setting (codes "yandexmusic.download_concurrency")
        (codes "YandexMusicDownloadConcurrency") (codes "yandexmusic") "Download concurrency"
        "Одновременных загрузок" "" 1 5 2
    ∷ []

abbrev pub soundcloud_settings : List Setting
soundcloud_settings =
    bool_setting (codes "soundcloud.enabled") (codes "SoundCloudEnabled") (codes "soundcloud")
      "Enabled" "Включено" true
    ∷ bool_setting (codes "soundcloud.download_enabled") (codes "SoundCloudDownloadEnabled")
        (codes "soundcloud") "Download enabled" "Скачивание" false
    ∷ int_setting (codes "soundcloud.max_file_mb") (codes "SendVideoLimitMB") (codes "soundcloud")
        "Max file" "Лимит файла" "MB" 1 500 50
    ∷ int_setting (codes "soundcloud.track_timeout_sec") (codes "SoundCloudTrackTimeoutSeconds")
        (codes "soundcloud") "Track timeout" "Таймаут трека" "sec" 10 300 30
    ∷ int_setting (codes "soundcloud.max_tracks_per_playlist") (codes "SoundCloudMaxTracks")
        (codes "soundcloud") "Max playlist tracks" "Макс. треков в плейлисте" "" 1 500 100
    ∷ (record empty_setting {
      redis_key = codes "soundcloud.audio_format";
      config_field = codes "SoundCloudDLOutputFormat";
      service = codes "soundcloud";
      value_type = enum;
      default_str = codes "mp3";
      allowed = codes "mp3" ∷ codes "opus" ∷ codes "aac" ∷ codes "flac" ∷ codes "wav" ∷ [];
      label_en = "Audio format";
      label_ru = "Формат аудио";
    })
    ∷ int_setting (codes "soundcloud.download_concurrency") (codes "SoundCloudDownloadConcurrency")
        (codes "soundcloud") "Download concurrency" "Одновременных загрузок" "" 1 5 1
    ∷ []

abbrev pub pinterest_settings : List Setting
pinterest_settings =
    bool_setting (codes "pinterest.enabled") (codes "PinterestEnabled") (codes "pinterest")
      "Enabled" "Включено" true
    ∷ int_setting (codes "pinterest.timeout_sec") (codes "PinterestTimeoutSeconds")
        (codes "pinterest") "Timeout" "Таймаут" "sec" 5 300 30
    ∷ int_setting (codes "pinterest.max_file_mb") (codes "SendVideoLimitMB") (codes "pinterest")
        "Max file" "Лимит файла" "MB" 1 500 50
    ∷ int_setting (codes "pinterest.max_items_per_board") (codes "PinterestMaxItems")
        (codes "pinterest") "Max items per board" "Элементов на доску" "" 1 50 10
    ∷ bool_setting (codes "pinterest.download_images") (codes "PinterestDownloadImages")
        (codes "pinterest") "Download images" "Скачивать изображения" true
    ∷ bool_setting (codes "pinterest.download_videos") (codes "PinterestDownloadVideos")
        (codes "pinterest") "Download videos" "Скачивать видео" true
    ∷ []

abbrev pub instagram_settings : List Setting
instagram_settings =
    bool_setting (codes "instagram.enabled") (codes "InstagramEnabled") (codes "instagram")
      "Enabled" "Включено" true
    ∷ int_setting (codes "instagram.timeout_sec") (codes "InstagramTimeoutSeconds")
        (codes "instagram") "Timeout" "Таймаут" "sec" 10 600 60
    ∷ int_setting (codes "instagram.max_file_mb") (codes "InstagramMaxFileMB") (codes "instagram")
        "Max file" "Лимит файла" "MB" 1 500 50
    ∷ int_setting (codes "instagram.carousel_max_items") (codes "InstagramCarouselMaxItems")
        (codes "instagram") "Max carousel images" "Макс. фото в карусели" "" 1 50 20
    ∷ []

abbrev pub reddit_settings : List Setting
reddit_settings =
    bool_setting (codes "reddit.enabled") (codes "RedditEnabled") (codes "reddit") "Enabled"
      "Включено" true
    ∷ int_setting (codes "reddit.timeout_sec") (codes "DownloadTimeoutSeconds") (codes "reddit")
        "Timeout" "Таймаут" "sec" 10 300 30
    ∷ int_setting (codes "reddit.max_file_mb") (codes "SendVideoLimitMB") (codes "reddit")
        "Max file" "Лимит файла" "MB" 1 500 50
    ∷ int_setting (codes "reddit.max_comments") (codes "RedditMaxComments") (codes "reddit")
        "Max comments in article" "Комментариев в статье" "" 0 100 10
    ∷ int_setting (codes "reddit.max_media_items") (codes "RedditMaxMediaItems") (codes "reddit")
        "Max media items" "Макс. медиа на пост" "" 1 50 10
    ∷ bool_setting (codes "reddit.telegraph_enabled") (codes "RedditTelegraphEnabled")
        (codes "reddit") "Telegraph articles" "Telegraph-статьи" true
    ∷ bool_setting (codes "reddit.telegraph_translate") (codes "RedditTelegraphTranslate")
        (codes "reddit") "Translate button" "Кнопка перевода" true
    ∷ []

abbrev pub settings : List Setting
settings =
    (global_settings
      ++ (youtube_settings
          ++ (tiktok_settings
              ++ (x_settings
                  ++ (spotify_settings
                      ++ (yandexmusic_settings
                          ++ (soundcloud_settings
                              ++ (pinterest_settings
                                  ++ (instagram_settings ++ reddit_settings)))))))))
