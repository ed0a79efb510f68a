-- ===== src/Queue/Payload.antt =====
-- The payloads of tasks (go/internal/queue/client.go) and their form under `encoding/json`: an
-- object's fields in order, each with the value that is written for it. The text of the object is
-- not modelled, and a text that is no object is `malformed`. `int` and `int64` are both 64 bits.
pub mod RoundTrip
pub mod Values
use saveinator.Prelude.{
  ℕ, Bool, true, false, ◌&&◌, ◌||◌, not, ltb, List, [], ◌∷◌, Option, none, some, Bytes, codes,
  eq_bytes, is_empty, ℤ, pos, eq_ℤ, ltb_ℤ, if◌then◌else◌, ◌>>=◌,
}
use saveinator.Float64.{Float64, is_zero, is_unsupported, float_lt}
use saveinator.Queue.Payload.Values.{
  Json, text, int, float, bool, ints, Fields, omit_str, omit_int, omit_bool, omit_float, Body,
  object, malformed, as_str, as_int, as_bool, as_float,
}

pub record DownloadPayload : Type 0 where
  pub url : Bytes
  pub platform : Bytes
  pub chat_id : ℤ
  pub user_id : ℤ
  pub message_id : ℤ
  pub lang : Bytes
  pub lock_token : Bytes
  pub lock_scene : Bytes
  pub x_status_id : Bytes
  pub format_id : Bytes
  pub quality : ℤ
  pub aspect_ratio : Bytes
  pub session_token : Bytes
  pub title : Bytes
  pub author : Bytes
  pub audio_only : Bool
  pub no_watermark : Bool
  pub trim_start : Float64
  pub trim_end : Float64

pub record MusicPayload : Type 0 where
  pub platform : Bytes
  pub chat_id : ℤ
  pub user_id : ℤ
  pub message_id : ℤ
  pub lang : Bytes
  pub lock_token : Bytes
  pub lock_scene : Bytes
  pub link_type : Bytes
  pub resource_id : Bytes
  pub source_url : Bytes
  pub release_json : Bytes

pub record BroadcastPayload : Type 0 where
  pub broadcast_id : ℤ
  pub audience : Bytes
  pub user_ids : List ℤ

pub record TelegraphTranslatePayload : Type 0 where
  pub thread_id : Bytes
  pub url : Bytes
  pub chat_id : ℤ
  pub user_id : ℤ
  pub message_id : ℤ
  pub lang : Bytes

-- `IsTrimmed`
unfoldable pub is_trimmed : DownloadPayload → Bool
is_trimmed p = float_lt p.trim_start p.trim_end

abbrev pub zero_download : DownloadPayload
zero_download = record {
  url = [];
  platform = [];
  chat_id = pos 0;
  user_id = pos 0;
  message_id = pos 0;
  lang = [];
  lock_token = [];
  lock_scene = [];
  x_status_id = [];
  format_id = [];
  quality = pos 0;
  aspect_ratio = [];
  session_token = [];
  title = [];
  author = [];
  audio_only = false;
  no_watermark = false;
  trim_start = 0;
  trim_end = 0;
}

abbrev pub zero_music : MusicPayload
zero_music = record {
  platform = [];
  chat_id = pos 0;
  user_id = pos 0;
  message_id = pos 0;
  lang = [];
  lock_token = [];
  lock_scene = [];
  link_type = [];
  resource_id = [];
  source_url = [];
  release_json = [];
}

-- The fields tagged `omitempty`, in order, each left out at its zero value.
abbrev pub optional_fields : DownloadPayload → Fields
optional_fields p = omit_str (codes "x_status_id") p.x_status_id (
    omit_str (codes "format_id") p.format_id (
      omit_int (codes "quality") p.quality (
        omit_str (codes "aspect_ratio") p.aspect_ratio (
          omit_str (codes "session_token") p.session_token (
            omit_str (codes "title") p.title (
              omit_str (codes "author") p.author (
                omit_bool (codes "audio_only") p.audio_only (
                  omit_bool (codes "no_watermark") p.no_watermark (
                    omit_float (codes "trim_start") p.trim_start
                      (omit_float (codes "trim_end") p.trim_end []))))))))))

abbrev pub download_fields : DownloadPayload → Fields
download_fields p =
    (codes "url", text p.url)
    ∷ (codes "platform", text p.platform)
    ∷ (codes "chat_id", int p.chat_id)
    ∷ (codes "user_id", int p.user_id)
    ∷ (codes "message_id", int p.message_id)
    ∷ (codes "lang", text p.lang)
    ∷ (codes "lock_token", text p.lock_token)
    ∷ (codes "lock_scene", text p.lock_scene)
    ∷ optional_fields p

-- `json.Marshal` fails on a float that is infinite or not a number; a zero one is left out.
unfoldable pub marshal_download : DownloadPayload → Option Body
marshal_download p =
    if is_unsupported p.trim_start || is_unsupported p.trim_end
    then none
    else some (object (download_fields p))

abbrev pub music_fields : MusicPayload → Fields
music_fields p =
    (codes "platform", text p.platform)
    ∷ (codes "chat_id", int p.chat_id)
    ∷ (codes "user_id", int p.user_id)
    ∷ (codes "message_id", int p.message_id)
    ∷ (codes "lang", text p.lang)
    ∷ (codes "lock_token", text p.lock_token)
    ∷ (codes "lock_scene", text p.lock_scene)
    ∷ omit_str (codes "link_type") p.link_type (
        omit_str (codes "resource_id") p.resource_id (
          omit_str (codes "source_url") p.source_url
            ((codes "release_json", text p.release_json) ∷ [])))

unfoldable pub marshal_music : MusicPayload → Option Body
marshal_music p = some (object (music_fields p))

unfoldable pub marshal_broadcast : BroadcastPayload → Option Body
marshal_broadcast p = some (
    object (
      (codes "broadcast_id", int p.broadcast_id)
      ∷ (codes "audience", text p.audience)
      ∷ (codes "user_ids", ints p.user_ids)
      ∷ []))

unfoldable pub marshal_translate : TelegraphTranslatePayload → Option Body
marshal_translate p = some (
    object (
      (codes "thread_id", text p.thread_id)
      ∷ (codes "url", text p.url)
      ∷ (codes "chat_id", int p.chat_id)
      ∷ (codes "user_id", int p.user_id)
      ∷ (codes "message_id", int p.message_id)
      ∷ (codes "lang", text p.lang)
      ∷ []))

-- One field of the object into the struct: a field that the struct lacks is skipped, and a value of
-- another kind is an error.
unfoldable pub set_download : Bytes → Json → DownloadPayload → Option DownloadPayload
set_download k v p =
    if eq_bytes k (codes "url")
    then (do x ← as_str v; some (record p { url = x }))
    else if eq_bytes k (codes "platform")
    then (do x ← as_str v; some (record p { platform = x }))
    else if eq_bytes k (codes "chat_id")
    then (do x ← as_int v; some (record p { chat_id = x }))
    else if eq_bytes k (codes "user_id")
    then (do x ← as_int v; some (record p { user_id = x }))
    else if eq_bytes k (codes "message_id")
    then (do x ← as_int v; some (record p { message_id = x }))
    else if eq_bytes k (codes "lang")
    then (do x ← as_str v; some (record p { lang = x }))
    else if eq_bytes k (codes "lock_token")
    then (do x ← as_str v; some (record p { lock_token = x }))
    else if eq_bytes k (codes "lock_scene")
    then (do x ← as_str v; some (record p { lock_scene = x }))
    else if eq_bytes k (codes "x_status_id")
    then (do x ← as_str v; some (record p { x_status_id = x }))
    else if eq_bytes k (codes "format_id")
    then (do x ← as_str v; some (record p { format_id = x }))
    else if eq_bytes k (codes "quality")
    then (do x ← as_int v; some (record p { quality = x }))
    else if eq_bytes k (codes "aspect_ratio")
    then (do x ← as_str v; some (record p { aspect_ratio = x }))
    else if eq_bytes k (codes "session_token")
    then (do x ← as_str v; some (record p { session_token = x }))
    else if eq_bytes k (codes "title")
    then (do x ← as_str v; some (record p { title = x }))
    else if eq_bytes k (codes "author")
    then (do x ← as_str v; some (record p { author = x }))
    else if eq_bytes k (codes "audio_only")
    then (do x ← as_bool v; some (record p { audio_only = x }))
    else if eq_bytes k (codes "no_watermark")
    then (do x ← as_bool v; some (record p { no_watermark = x }))
    else if eq_bytes k (codes "trim_start")
    then (do x ← as_float v; some (record p { trim_start = x }))
    else if eq_bytes k (codes "trim_end")
    then (do x ← as_float v; some (record p { trim_end = x }))
    else some p

unfoldable pub read_download : Fields → DownloadPayload → Option DownloadPayload
unfolding set_download
read_download [] p = some p
read_download ((k, v) ∷ fs) p = set_download k v p >>= read_download fs

-- `json.Unmarshal` into a `DownloadPayload`
unfoldable pub unmarshal_download : Body → Option DownloadPayload
unfolding read_download
unmarshal_download malformed = none
unmarshal_download (object fs) = read_download fs zero_download

unfoldable pub set_music : Bytes → Json → MusicPayload → Option MusicPayload
set_music k v p =
    if eq_bytes k (codes "platform")
    then (do x ← as_str v; some (record p { platform = x }))
    else if eq_bytes k (codes "chat_id")
    then (do x ← as_int v; some (record p { chat_id = x }))
    else if eq_bytes k (codes "user_id")
    then (do x ← as_int v; some (record p { user_id = x }))
    else if eq_bytes k (codes "message_id")
    then (do x ← as_int v; some (record p { message_id = x }))
    else if eq_bytes k (codes "lang")
    then (do x ← as_str v; some (record p { lang = x }))
    else if eq_bytes k (codes "lock_token")
    then (do x ← as_str v; some (record p { lock_token = x }))
    else if eq_bytes k (codes "lock_scene")
    then (do x ← as_str v; some (record p { lock_scene = x }))
    else if eq_bytes k (codes "link_type")
    then (do x ← as_str v; some (record p { link_type = x }))
    else if eq_bytes k (codes "resource_id")
    then (do x ← as_str v; some (record p { resource_id = x }))
    else if eq_bytes k (codes "source_url")
    then (do x ← as_str v; some (record p { source_url = x }))
    else if eq_bytes k (codes "release_json")
    then (do x ← as_str v; some (record p { release_json = x }))
    else some p

unfoldable pub read_music : Fields → MusicPayload → Option MusicPayload
unfolding set_music
read_music [] p = some p
read_music ((k, v) ∷ fs) p = set_music k v p >>= read_music fs

-- `json.Unmarshal` into a `MusicPayload`
unfoldable pub unmarshal_music : Body → Option MusicPayload
unfolding read_music
unmarshal_music malformed = none
unmarshal_music (object fs) = read_music fs zero_music
