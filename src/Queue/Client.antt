-- ===== src/Queue/Client.antt =====
-- go/internal/queue/client.go: the names of tasks and queues, the routing of downloads, and what
-- each `Enqueue…` hands to the broker. A connection's opening and closing is not modelled.
pub mod Read
use saveinator.Prelude.{
  ℕ, ◌*◌, Bool, false, ◌&&◌, not, Option, none, some, Bytes, codes, eq_bytes, is_empty, pos, ltb_ℤ,
  if◌then◌else◌, ◌>>=◌,
}
use saveinator.Queue.Payload.{
  DownloadPayload, MusicPayload, BroadcastPayload, TelegraphTranslatePayload, marshal_download,
  marshal_music, marshal_broadcast, marshal_translate,
}
use saveinator.Queue.Payload.Values.{Body}
use saveinator.Queue.Asynq.{Asynq, Request}

abbrev pub type_download : Bytes
type_download = codes "download:send"

abbrev pub type_tiktok : Bytes
type_tiktok = codes "download:tiktok"

abbrev pub type_pinterest : Bytes
type_pinterest = codes "download:pinterest"

abbrev pub type_pinterest_kz : Bytes
type_pinterest_kz = codes "download:pinterest_kz"

abbrev pub type_spotify : Bytes
type_spotify = codes "download:spotify"

abbrev pub type_soundcloud : Bytes
type_soundcloud = codes "download:soundcloud"

abbrev pub type_yandex_music : Bytes
type_yandex_music = codes "download:yandexmusic"

abbrev pub type_broadcast : Bytes
type_broadcast = codes "broadcast:execute"

abbrev pub type_tiktok_carousel : Bytes
type_tiktok_carousel = codes "download:tiktok_carousel"

abbrev pub type_instagram : Bytes
type_instagram = codes "download:instagram"

abbrev pub type_reddit : Bytes
type_reddit = codes "download:reddit"

abbrev pub type_telegraph_translate : Bytes
type_telegraph_translate = codes "telegraph:translate"

abbrev pub queue_download : Bytes
queue_download = codes "download"

abbrev pub queue_transcode : Bytes
queue_transcode = codes "transcode"

unfoldable pub queue_for : DownloadPayload → Bytes
queue_for p =
    if eq_bytes p.platform (codes "youtube")
      && not p.audio_only
      && ltb_ℤ (pos 0) p.quality
      && not (is_empty p.aspect_ratio)
    then queue_transcode
    else queue_download

abbrev pub minutes : ℕ → ℕ
minutes n = n * 60

abbrev pub hours : ℕ → ℕ
hours n = n * 3600

-- A marshalled body under the options of a download and of a music task; no request is made of a
-- payload that cannot be marshalled.
abbrev pub download_request : Bytes → Bytes → Body → Request
download_request kind queue body = record {
  kind = kind;
  payload = body;
  max_retry = 1;
  timeout = minutes 30;
  queue = some queue;
}

abbrev pub music_request : Bytes → Bytes → Body → Request
music_request kind queue body = record {
  kind = kind;
  payload = body;
  max_retry = 0;
  timeout = hours 2;
  queue = some queue;
}

unfoldable pub enqueue_download_to : Bytes → Bytes → DownloadPayload → Option Request
enqueue_download_to kind queue p = do
  body ← marshal_download p
  some (download_request kind queue body)

unfoldable pub enqueue_music_to : Bytes → Bytes → MusicPayload → Option Request
enqueue_music_to kind queue p = do body ← marshal_music p; some (music_request kind queue body)

unfoldable pub enqueue_download : DownloadPayload → Option Request
enqueue_download p = do
  body ← marshal_download p
  some (download_request type_download (queue_for p) body)

unfoldable pub enqueue_pinterest_default : DownloadPayload → Option Request
enqueue_pinterest_default p = do
  body ← marshal_download p
  some (download_request type_pinterest queue_download body)

unfoldable pub enqueue_tiktok : DownloadPayload → Option Request
enqueue_tiktok p = do
  body ← marshal_download p
  some (download_request type_tiktok queue_download body)

unfoldable pub enqueue_spotify : MusicPayload → Option Request
enqueue_spotify p = do body ← marshal_music p; some (music_request type_spotify queue_download body)

unfoldable pub enqueue_soundcloud : MusicPayload → Option Request
enqueue_soundcloud p = do
  body ← marshal_music p
  some (music_request type_soundcloud queue_download body)

unfoldable pub enqueue_yandex_music : MusicPayload → Option Request
enqueue_yandex_music p = do
  body ← marshal_music p
  some (music_request type_yandex_music queue_download body)

unfoldable pub enqueue_tiktok_carousel : DownloadPayload → Option Request
enqueue_tiktok_carousel p = do
  body ← marshal_download p
  some (download_request type_tiktok_carousel queue_download body)

unfoldable pub enqueue_instagram : DownloadPayload → Option Request
enqueue_instagram p = do
  body ← marshal_download p
  some (download_request type_instagram queue_download body)

unfoldable pub enqueue_reddit : DownloadPayload → Option Request
enqueue_reddit p = do
  body ← marshal_download p
  some (download_request type_reddit queue_download body)

unfoldable pub enqueue_telegraph_translate : TelegraphTranslatePayload → Option Request
enqueue_telegraph_translate p = do
  body ← marshal_translate p
  some (record {
    kind = type_telegraph_translate;
    payload = body;
    max_retry = 1;
    timeout = minutes 10;
    queue = some queue_download;
  })

-- The one request that names no queue.
unfoldable pub enqueue_broadcast : BroadcastPayload → Option Request
enqueue_broadcast p = do
  body ← marshal_broadcast p
  some (record {
    kind = type_broadcast;
    payload = body;
    max_retry = 1;
    timeout = hours 24;
    queue = none;
  })

-- `c.client.Enqueue`: `false` is an error, of the marshalling or of the broker.
unfoldable pub enqueue : (A : Asynq) → Option Request → A.State → Bool × A.State
enqueue A none s = (false, s)
enqueue A (some r) s = A.submit r s
