-- ===== src/Worker/Tiktok.antt =====
-- Tasks for TikTok: go/internal/worker/tiktok.go. The answers of the system, of the downloader and of
-- Telegram are arguments; an error is its text, and none is nil.
use saveinator.Prelude.{
  Bool, ◌&&◌, ◌==◌, List, [], ◌∷◌, ◌++◌, Option, none, some, Bytes, codes, is_empty, length, ℤ, pos,
  ltb_ℤ, if◌then◌else◌,
}
use saveinator.Linkparser.{tiktok}
use saveinator.Queue.Payload.{DownloadPayload}
use saveinator.Redis.{Redis}
use saveinator.Redisx.Client.{Client}
use saveinator.Tiktok.Carousel.{Coding, delete}
use saveinator.Ytdlp.Errors.{is_retryable_error}
use saveinator.Worker.Task.{
  Event, edited, erased, posted, album, file, audio, recorded, Outcome, report, framed,
  release_task_lock,
}

pub data PostType : Type 0 where
  video carousel audio_only unknown : PostType

-- the downloader's result
pub record Result : Type 0 where
  pub post_type : PostType
  pub title : Bytes
  pub author : Bytes
  pub images : List Bytes
  pub video_path : Bytes
  pub audio_path : Bytes
  pub carousel_images_available : Bool
  pub carousel_image_count : ℤ

-- what the downloader answers
pub data Fetched : Type 0 where
  broken : Bytes → Fetched
  fetched : Result → Fetched

unfoldable pub strings_join : List Bytes → Bytes → Bytes
strings_join [] sep = []
strings_join (p ∷ []) sep = p
strings_join (p ∷ q ∷ ps) sep = p ++ (sep ++ strings_join (q ∷ ps) sep)

unfoldable pub build_tiktok_caption : Bytes → Bytes → Bytes → Bool → Bytes
build_tiktok_caption title author via no_footer =
    let named = if is_empty title then [] else title ∷ [] in
    let parts = named ++ (if is_empty author then [] else (b'@' ∷ author) ∷ []) in
    let content = strings_join parts (b'\n' ∷ []) in
    if no_footer
    then content
    else if is_empty content
    then via
    else content ++ b'\n' ∷ (b'\n' ∷ via)

-- the post has pictures that were not got
unfoldable pub falls_short : Result → Bool
falls_short d =
    ltb_ℤ (pos 0) d.carousel_image_count && ltb_ℤ (pos (length d.images)) d.carousel_image_count

abbrev pub partial_notice : Bool → List Event
partial_notice short = if short then posted (codes "tiktok.carousel_partial") ∷ [] else []

module _ (admin_id : ℤ) (p : DownloadPayload) (via : Bytes) where
  abbrev pub completed : List Event
  completed = recorded tiktok (codes "completed") [] ∷ []

  -- the pictures, and the sound behind them, whose error is only logged
  unfoldable pub send_carousel : Result → Option Bytes → List Event
  send_carousel d sent =
      let shown = album d.images (build_tiktok_caption d.title d.author via p.no_watermark) in
      if (length d.images == 0) && is_empty d.audio_path
      then edited (codes "tiktok.carousel_empty") none
        ∷ recorded tiktok (codes "failed") (codes "carousel empty")
        ∷ []
      else elim sent [
        | some e ↦ shown ∷ report admin_id p tiktok e
        | none ↦
            shown
            ∷ (partial_notice (d.carousel_images_available && falls_short d)
                ++ ((if is_empty d.audio_path then [] else audio d.audio_path ∷ [])
                    ++ erased ∷ completed))
      ]

  unfoldable pub send_video : Result → Option Bytes → List Event
  send_video d sent =
      if is_empty d.video_path
      then report admin_id p tiktok (codes "no video file found")
      else elim sent [
        | some e ↦ file d.video_path d.title ∷ report admin_id p tiktok e
        | none ↦ file d.video_path d.title ∷ erased ∷ completed
      ]

  abbrev pub send_post : PostType → Result → Option Bytes → List Event
  send_post video d sent = send_video d sent
  send_post carousel d sent = send_carousel d sent
  send_post audio_only d sent = send_carousel d sent
  send_post unknown d sent = report admin_id p tiktok (codes "unsupported tiktok post type")

  -- The answers of os.MkdirTemp, of the downloader and of Telegram to the file or the album.
  unfoldable pub run_tiktok : Option Bytes → Fetched → Option Bytes → Outcome
  run_tiktok made answer sent =
      let downloading = edited (codes "download.downloading") none in
      elim made [
        | some e ↦ (downloading ∷ [], some e)
        | none ↦ elim answer [
          | broken e ↦
              if is_retryable_error (some e)
              then (downloading ∷ [], some e)
              else (downloading ∷ report admin_id p tiktok e, none)
          | fetched d ↦ (downloading ∷ send_post d.post_type d sent, none)
        ]
      ]

  abbrev pub no_pictures : Bytes → List Event
  no_pictures text =
      posted (codes "tiktok.carousel_empty") ∷ recorded tiktok (codes "failed") text ∷ []

  -- Telegram's answer to the album is dropped.
  unfoldable pub run_tiktok_carousel_images : Option Bytes → Fetched → Outcome
  run_tiktok_carousel_images (some e) answer = ([], some e)
  run_tiktok_carousel_images none (broken e) = (no_pictures e, none)
  run_tiktok_carousel_images none (fetched d) = (
    (if length d.images == 0
        then no_pictures (codes "carousel empty")
        else partial_notice (falls_short d)
          ++ album d.images (build_tiktok_caption d.title d.author via p.no_watermark) ∷ completed),
    none,
  )

module _ (R : Redis) (c : Client) (admin_id : ℤ) (via decoding : Bytes) where
  -- A payload that is malformed is an error of the decoder, with the text `decoding`.
  unfoldable pub handle_tiktok :
      Option Bytes → Fetched → Option Bytes → Option DownloadPayload → R.State → Outcome × R.State
  handle_tiktok made answer sent none r = (([], some decoding), r)
  handle_tiktok made answer sent (some p) r =
      let p' : DownloadPayload = record p { platform = tiktok } in
      framed R c p' (run_tiktok admin_id p' via made answer sent) r

module _ (R : Redis) (c : Client) (J : Coding) (admin_id : ℤ) (via decoding : Bytes) where
  -- the session is deleted behind the run, before the lock is released
  unfoldable pub handle_tiktok_carousel :
      Option Bytes → Fetched → Option DownloadPayload → R.State → Outcome × R.State
  handle_tiktok_carousel made answer none r = (([], some decoding), r)
  handle_tiktok_carousel made answer (some p) r =
      let r' = if is_empty p.session_token then r else (delete R J p.session_token r).1 in
      (run_tiktok_carousel_images admin_id p via made answer, release_task_lock R c p r')
