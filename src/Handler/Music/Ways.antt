-- ===== src/Handler/Music/Ways.antt =====
-- The four ways into a download of music: go/internal/handler/music.go.
use saveinator.Prelude.{
  Bool, true, false, ◌&&◌, ◌||◌, not, List, [], ◌∷◌, Option, none, some, Bytes, ℕ, ℤ, pos, eq_ℤ,
}
use saveinator.Text.Search.{has_prefix, trim_prefix}
use saveinator.Handler.Reply.{Reply}
use saveinator.Queue.Asynq.{Asynq}
use saveinator.Redis.{Redis}
use saveinator.Redisx.Client.{Client}
use saveinator.Handler.Music.{Around, Timeouts, music_lock_ttl, Result}
use saveinator.Handler.Music.Links.{
  From, spotify, yandex_music, soundcloud, spotify_link, yandex_link, on_yandex_album_download,
  album_callback_prefix, is_numeric_id, soundcloud_link,
}

pub data Way : Type 0 where
  spotify_way : From → Bytes → Bytes → Way
  yandex_way : From → Bytes → Bytes → Way
  album_way : ℤ → Option ℤ → Bytes → Bytes → Bool → Way
  soundcloud_way : From → Option Bytes → Way

abbrev pub user_of : Way → ℤ
user_of (spotify_way m kind id) = m.user
user_of (yandex_way m album track) = m.user
user_of (album_way user chat lang payload enabled) = user
user_of (soundcloud_way m link) = m.user

abbrev pub scene_of : Way → Bytes
scene_of (spotify_way m kind id) = spotify
scene_of (yandex_way m album track) = yandex_music
scene_of (album_way user chat lang payload enabled) = yandex_music
scene_of (soundcloud_way m link) = soundcloud

abbrev pub ttl_of : Timeouts → Way → ℤ → ℕ
ttl_of t way = music_lock_ttl t (scene_of way)

-- a link, or a press of the album button that names a user, a chat and an album
abbrev pub usable : Way → Bool
usable (album_way user none lang payload enabled) = false
usable (album_way user (some chat) lang payload enabled) =
    not (eq_ℤ user (pos 0) || not (has_prefix payload album_callback_prefix))
    && is_numeric_id (trim_prefix payload album_callback_prefix)
usable (spotify_way m kind id) = true
usable (yandex_way m album track) = true
usable (soundcloud_way m link) = true

-- the replies without the empty answer with which the album button begins
abbrev pub said : Way → List Reply → List Reply
said (album_way user chat lang payload enabled) [] = []
said (album_way user chat lang payload enabled) (heard ∷ replies) = replies
said (spotify_way m kind id) replies = replies
said (yandex_way m album track) replies = replies
said (soundcloud_way m link) replies = replies

module _ (R : Redis) (A : Asynq) (c : Client) (admin_id : ℤ) (t : Timeouts) where
  unfoldable pub handle : Way → ℤ → Around → R.State → A.State → Result R A
  handle (spotify_way m kind id) = spotify_link R A c admin_id t m kind id
  handle (yandex_way m album track) = yandex_link R A c admin_id t m album track
  handle (album_way user chat lang payload enabled) =
      on_yandex_album_download R A c admin_id t user chat lang payload enabled
  handle (soundcloud_way m link) = soundcloud_link R A c admin_id t m link
