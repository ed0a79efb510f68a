-- ===== src/Handler/Music/Links.antt =====
-- go/internal/handler/music.go: the handlers of a link to Spotify, Yandex Music and SoundCloud, and of
-- the button that downloads a track's album.
use saveinator.Prelude.{
  Bool, true, false, ◌&&◌, ◌||◌, not, List, [], ◌∷◌, Option, none, some, Bytes, codes, leb,
  is_empty, ℤ, pos, eq_ℤ, if◌then◌else◌,
}
use saveinator.Text.Search.{has_prefix, trim_prefix}
use saveinator.Queue.Payload.{MusicPayload, zero_music}
use saveinator.Queue.Asynq.{Asynq}
use saveinator.Queue.Client.{enqueue_spotify, enqueue_yandex_music, enqueue_soundcloud}
use saveinator.Redis.{Redis}
use saveinator.Redisx.Client.{Client}
use saveinator.Handler.Reply.{Reply, send, answer}
use saveinator.Handler.Music.{
  Release, FetchError, not_found, auth, geo, too_large, found, refused, Around, Timeouts,
  music_lock_ttl, Result, leave, behind_lock, queue_release,
}

abbrev pub spotify : Bytes
spotify = codes "spotify"

abbrev pub yandex_music : Bytes
yandex_music = codes "yandexmusic"

abbrev pub soundcloud : Bytes
soundcloud = codes "soundcloud"

abbrev pub say : Bytes → List Reply
say key = send key none ∷ []

unfoldable pub spotify_error : FetchError → Bytes
spotify_error not_found = codes "spotify.not_found"
spotify_error auth = codes "spotify.not_configured"
spotify_error _ = codes "spotify.api_error"

unfoldable pub reply_yandex_fetch_error : FetchError → Bytes
reply_yandex_fetch_error not_found = codes "yandexmusic.not_found"
reply_yandex_fetch_error auth = codes "yandexmusic.not_configured"
reply_yandex_fetch_error geo = codes "yandexmusic.geoblocked"
reply_yandex_fetch_error _ = codes "yandexmusic.api_error"

unfoldable pub soundcloud_error : FetchError → Bytes
soundcloud_error not_found = codes "soundcloud.not_found"
soundcloud_error too_large = codes "soundcloud.playlist_too_large"
soundcloud_error _ = codes "soundcloud.download_failed"

-- a byte of a longer rune is no digit either
unfoldable pub all_digits : Bytes → Bool
all_digits [] = true
all_digits (b ∷ s) = leb b'0' b && leb b b'9' && all_digits s

unfoldable pub is_numeric_id : Bytes → Bool
is_numeric_id s = not (is_empty s) && all_digits s

abbrev pub album_callback_prefix : Bytes
album_callback_prefix = codes "ym:alb:"

-- A message's sender and chat.
pub record From : Type 0 where
  pub user : ℤ
  pub chat : ℤ
  pub lang : Bytes

unfoldable pub spotify_payload : From → Bytes → Bytes → Bytes → ℤ → Bytes → MusicPayload
spotify_payload m token kind id message_id json = record zero_music {
  platform = spotify;
  chat_id = m.chat;
  user_id = m.user;
  message_id = message_id;
  lang = m.lang;
  lock_token = token;
  lock_scene = spotify;
  link_type = kind;
  resource_id = id;
  release_json = json;
}

-- A release of one track is downloaded as that track.
unfoldable pub yandex_payload : From → Bytes → Release → ℤ → Bytes → MusicPayload
yandex_payload m token release message_id json =
    let made : Bytes → Bytes → Bytes → MusicPayload = λ kind id url. record zero_music {
      platform = yandex_music;
      chat_id = m.chat;
      user_id = m.user;
      message_id = message_id;
      lang = m.lang;
      lock_token = token;
      lock_scene = yandex_music;
      link_type = kind;
      resource_id = id;
      source_url = url;
      release_json = json;
    } in
    elim release.tracks [
      | track ∷ [] ↦ made (codes "track") track.source_id track.url
      | _ ↦ made (codes "album") release.album_id release.url
    ]

unfoldable pub soundcloud_payload : From → Bytes → Bytes → ℤ → Bytes → MusicPayload
soundcloud_payload m token url message_id json = record zero_music {
  platform = soundcloud;
  chat_id = m.chat;
  user_id = m.user;
  message_id = message_id;
  lang = m.lang;
  lock_token = token;
  lock_scene = soundcloud;
  source_url = url;
  release_json = json;
}

module _ (R : Redis) (A : Asynq) (c : Client) (admin_id : ℤ) (t : Timeouts) where
  unfoldable pub spotify_locked :
      From → Bytes → Bytes → Around → Bytes → R.State → A.State → Result R A
  spotify_locked m kind id w token r a =
      let out : Bytes → Result R A =
        λ key. leave R A c admin_id m.user spotify token (say key) r a in
      if not w.config_enabled
      then out (codes "spotify.disabled")
      else if not w.client_enabled
      then out (codes "spotify.not_configured")
      else elim w.fetched [
        | refused e ↦ out (spotify_error e)
        | found release ↦
            queue_release R A c admin_id m.user spotify token (codes "spotify.download_starting")
              (codes "spotify.download_failed")
              (λ message_id json. enqueue_spotify (spotify_payload m token kind id message_id json))
              w release r a
      ]

  unfoldable pub spotify_link : From → Bytes → Bytes → ℤ → Around → R.State → A.State → Result R A
  spotify_link m kind id max_tracks w r a =
      if is_empty id || is_empty kind
      then (false, say (codes "errors.unsupported"), r, a)
      else behind_lock R A c admin_id m.user spotify (music_lock_ttl t spotify max_tracks) w.drawn
          (spotify_locked m kind id w) r a

  unfoldable pub send_yandex_card_and_enqueue :
      From → Bytes → Around → Release → R.State → A.State → Result R A
  send_yandex_card_and_enqueue m token w release =
      queue_release R A c admin_id m.user yandex_music token (codes "yandexmusic.download_starting")
        (codes "yandexmusic.download_failed")
        (λ message_id json. enqueue_yandex_music (yandex_payload m token release message_id json)) w
        release

  unfoldable pub yandex_locked : From → Around → Bytes → R.State → A.State → Result R A
  yandex_locked m w token r a =
      let out : Bytes → Result R A =
        λ key. leave R A c admin_id m.user yandex_music token (say key) r a in
      if not w.client_enabled then out (codes "yandexmusic.not_configured") else elim w.fetched [
        | refused e ↦ out (reply_yandex_fetch_error e)
        | found release ↦ send_yandex_card_and_enqueue m token w release r a
      ]

  unfoldable pub yandex_link : From → Bytes → Bytes → ℤ → Around → R.State → A.State → Result R A
  yandex_link m album track max_tracks w r a =
      if is_empty album && is_empty track
      then (false, say (codes "errors.unsupported"), r, a)
      else behind_lock R A c admin_id m.user yandex_music (music_lock_ttl t yandex_music max_tracks)
          w.drawn (yandex_locked m w) r a

  -- The button's answer carries no text. `chat` is none where the query has no message, `enabled`
  -- is `PlatformEnabled` of the service.
  unfoldable pub on_yandex_album_download :
      ℤ → Option ℤ → Bytes → Bytes → Bool → ℤ → Around → R.State → A.State → Result R A
  on_yandex_album_download user chat lang payload enabled max_tracks w r a =
      let heard = answer none false in
      if eq_ℤ user (pos 0) || not (has_prefix payload album_callback_prefix)
      then (false, heard ∷ [], r, a)
      else elim chat [
        | none ↦ (false, heard ∷ [], r, a)
        | some id ↦
            let m : From = record { user = user; chat = id; lang = lang } in
            let (queued, replies, r', a') : Result R A =
              behind_lock R A c admin_id user yandex_music
                (music_lock_ttl t yandex_music max_tracks) w.drawn (yandex_locked m w) r a in
            if not (is_numeric_id (trim_prefix payload album_callback_prefix))
            then (false, heard ∷ [], r, a)
            else if not enabled
            then (false, heard ∷ say (codes "yandexmusic.disabled"), r, a)
            else (queued, heard ∷ replies, r', a')
      ]

  unfoldable pub soundcloud_locked : From → Bytes → Around → Bytes → R.State → A.State → Result R A
  soundcloud_locked m url w token r a =
      let out : Bytes → Result R A =
        λ key. leave R A c admin_id m.user soundcloud token (say key) r a in
      if not w.config_enabled then out (codes "soundcloud.disabled") else elim w.fetched [
        | refused e ↦ out (soundcloud_error e)
        | found release ↦
            queue_release R A c admin_id m.user soundcloud token
              (codes "soundcloud.download_starting") (codes "soundcloud.download_failed")
              (λ message_id json.
                enqueue_soundcloud (soundcloud_payload m token url message_id json))
              w release r a
      ]

  -- `link` is the address that `soundcloud.ParseLink` reads, if it reads one.
  unfoldable pub soundcloud_link : From → Option Bytes → ℤ → Around → R.State → A.State → Result R A
  soundcloud_link m link max_tracks w r a = elim link [
    | none ↦ (false, say (codes "errors.unsupported"), r, a)
    | some url ↦
        behind_lock R A c admin_id m.user soundcloud (music_lock_ttl t soundcloud max_tracks)
          w.drawn (soundcloud_locked m url w) r a
  ]
