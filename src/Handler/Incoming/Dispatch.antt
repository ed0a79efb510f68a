-- ===== src/Handler/Incoming/Dispatch.antt =====
-- Which handler a link goes to: `dispatchLink` of go/internal/handler/bot.go.
use saveinator.Prelude.{
  Bool, true, false, List, [], ◌∷◌, Option, none, Bytes, codes, eq_bytes, ℤ, if◌then◌else◌,
}
use saveinator.Float64.{Float64}
use saveinator.Linkparser.{ParsedLink}
use saveinator.Queue.Asynq.{Asynq}
use saveinator.Queue.Client.{
  type_pinterest, type_tiktok, type_instagram, type_reddit, type_download,
}
use saveinator.Redis.{Redis}
use saveinator.Redisx.Client.{Client}
use saveinator.Youtube.Session.{Coding}
use saveinator.Handler.Reply.{send}
use saveinator.Handler.Enqueue.{Job, Outcome, queued, take_lock, enqueue_link, replies}
use saveinator.Handler.Music.{Around, Timeouts, Result}
use saveinator.Handler.Music.Links.{From}
use saveinator.Handler.Music.Ways.{spotify_way, yandex_way, soundcloud_way, handle}
use saveinator.Handler.Youtube.{Probed}
use saveinator.Handler.Youtube.Flow.{handle_youtube_link}

-- What a link is answered: a message, a handler of music, the queue under a scene and with a task's
-- type, or the handler of YouTube.
pub data Route : Type 0 where
  say : Bytes → Route
  spotify_route yandex_route soundcloud_route youtube_route : Route
  queue_route : Bytes → Bytes → Route

abbrev pub if_enabled : Bool → Bytes → Route → Route
if_enabled enabled disabled route = if enabled then route else say disabled

-- `enabled` is `PlatformEnabled`, read at run time, and `youtube_enabled` the configuration's.
unfoldable pub route_of : (Bytes → Bool) → Bool → ParsedLink → Route
route_of enabled youtube_enabled link =
    let p = link.platform in
    if eq_bytes p (codes "spotify")
    then if_enabled (enabled p) (codes "spotify.disabled") spotify_route
    else if eq_bytes p (codes "yandexmusic")
    then if_enabled (enabled p) (codes "yandexmusic.disabled") yandex_route
    else if eq_bytes p (codes "soundcloud")
    then if_enabled (enabled p) (codes "soundcloud.disabled") soundcloud_route
    else if eq_bytes p (codes "pinterest")
    then if_enabled (enabled p) (codes "pinterest.disabled") (queue_route p type_pinterest)
    else if eq_bytes p (codes "tiktok")
    then queue_route p type_tiktok
    else if eq_bytes p (codes "instagram")
    then if_enabled (enabled p) (codes "instagram.disabled") (queue_route p type_instagram)
    else if eq_bytes p (codes "reddit")
    then if_enabled (enabled p) (codes "reddit.disabled") (queue_route p type_reddit)
    else if eq_bytes p (codes "unknown")
    then say (codes "errors.unsupported")
    else if eq_bytes p (codes "youtube")
    then if_enabled youtube_enabled (codes "errors.unsupported") youtube_route
    else queue_route p type_download

-- What the handlers read around a link: the settings, the lock's token, Telegram's and the services'
-- answers. `around` serves the music services, `soundcloud` is what `soundcloud.ParseLink` reads;
-- the last ones serve YouTube.
pub record World : Type 0 where
  pub admin_id : ℤ
  pub timeout_sec : ℤ
  pub timeouts : Timeouts
  pub spotify_max_tracks : ℤ
  pub yandex_max_tracks : ℤ
  pub soundcloud_max_tracks : ℤ
  pub enabled : Bytes → Bool
  pub youtube_enabled : Bool
  pub around : Around
  pub soundcloud : Option Bytes
  pub no_watermark : Bool
  pub estimate : Float64 → Float64 → ℤ
  pub shorts : Bool
  pub meta : Option Probed
  pub qualities : List Bytes
  pub quality : ℤ

unfoldable pub job_of : From → ParsedLink → Bytes → Bytes → Bool → Job
job_of m link scene task_type batch = record {
  user = m.user;
  chat = m.chat;
  lang = m.lang;
  url = link.url;
  platform = link.platform;
  x_status_id = link.x_status_id;
  scene = scene;
  task_type = task_type;
  batch = batch;
}

abbrev pub is_queued : Outcome → Bool
is_queued queued = true
is_queued _ = false

module _ (R : Redis) (A : Asynq) (c : Client) (J : Coding) (w : World) where
  -- `enqueueOrReplyError`
  unfoldable pub enqueue_or_reply_error : Job → R.State → A.State → Result R A
  enqueue_or_reply_error j r a =
      let reply = (take_lock R A c w.admin_id w.timeout_sec j w.around.drawn r).0 in
      let (out, r', a') =
        enqueue_link R A c w.admin_id w.timeout_sec j w.around.drawn w.around.status w.no_watermark
          r a in
      (is_queued out, replies R A c w.admin_id w.timeout_sec j reply out, r', a')

  unfoldable pub run_route : From → ParsedLink → Bool → Route → R.State → A.State → Result R A
  run_route m link batch (say key) r a = (false, send key none ∷ [], r, a)
  run_route m link batch spotify_route r a =
      handle R A c w.admin_id w.timeouts (spotify_way m link.spotify_typ link.spotify_id)
        w.spotify_max_tracks w.around r a
  run_route m link batch yandex_route r a =
      handle R A c w.admin_id w.timeouts (yandex_way m link.yandex_album_id link.yandex_track_id)
        w.yandex_max_tracks w.around r a
  run_route m link batch soundcloud_route r a =
      handle R A c w.admin_id w.timeouts (soundcloud_way m w.soundcloud) w.soundcloud_max_tracks
        w.around r a
  run_route m link batch youtube_route r a =
      handle_youtube_link R A J w.estimate m link.url w.shorts w.around.status w.meta w.qualities
        w.quality w.no_watermark r a
  run_route m link batch (queue_route scene task_type) r a =
      enqueue_or_reply_error (job_of m link scene task_type batch) r a

  unfoldable pub dispatch_link : From → ParsedLink → Bool → R.State → A.State → Result R A
  dispatch_link m link batch = run_route m link batch (route_of w.enabled w.youtube_enabled link)
