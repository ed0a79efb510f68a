-- ===== src/Worker/Instagram.antt =====
-- A task for Instagram: go/internal/worker/instagram.go. The answers of the system, of yt-dlp and of
-- Telegram are arguments; an error is its text, and none is nil.
pub mod Handed
use saveinator.Prelude.{
  ℕ, ◌-◌, List, [], ◌∷◌, ◌++◌, map, Option, none, some, Bytes, codes, length, take, ℤ,
  if◌then◌else◌,
}
use saveinator.Linkparser.{instagram}
use saveinator.Queue.Payload.{DownloadPayload}
use saveinator.Redis.{Redis}
use saveinator.Redisx.Client.{Client}
use saveinator.Ytdlp.Errors.{is_retryable_error}
use saveinator.Ytdlp.Media.{Entry, ext, find_media_files, largest_video, image_files}
use saveinator.Worker.Task.{
  Event, edited, erased, album, file, recorded, Outcome, report, framed, build_media_caption,
}

-- the answer of os.ReadDir
pub data Listing : Type 0 where
  unread : Bytes → Listing
  entries : List Entry → Listing

-- The answers of os.MkdirTemp, ytdlp.Download, os.ReadDir and of Telegram to the file or the album.
pub record Answers : Type 0 where
  pub made : Option Bytes
  pub fetched : Option Bytes
  pub listed : Listing
  pub sent : Option Bytes

-- the name without its extension
unfoldable pub instagram_title : Bytes → Bytes
instagram_title name = take (length name - length (ext name)) name

module _ (admin_id : ℤ) (p : DownloadPayload) where
  abbrev pub delivered : Option Bytes → List Event
  delivered none = recorded instagram (codes "completed") [] ∷ []
  delivered (some e) = report admin_id p instagram e

  unfoldable pub send_instagram_video : Entry → Option Bytes → List Event
  send_instagram_video video sent = file video.name (instagram_title video.name) ∷ delivered sent

  -- The setting `instagram.carousel_max_items` is at least 1. `via` is the footer's text.
  unfoldable pub send_instagram_photos : ℕ → Bytes → List Entry → Option Bytes → List Event
  send_instagram_photos max_items via images sent =
      album (map (λ f. f.name) (take max_items images)) (build_media_caption [] via p.no_watermark)
      ∷ delivered sent

  abbrev pub send_media : ℕ → Bytes → Option Entry → List Entry → Option Bytes → List Event
  send_media max_items via (some video) images sent = send_instagram_video video sent ++ erased ∷ []
  send_media max_items via none [] sent =
      edited (codes "instagram.no_media") none
      ∷ recorded instagram (codes "failed") (codes "no media found")
      ∷ []
  send_media max_items via none (image ∷ images) sent =
      send_instagram_photos max_items via (image ∷ images) sent ++ erased ∷ []

  abbrev pub found : ℕ → Bytes → Listing → Option Bytes → List Event
  found max_items via (unread e) sent = report admin_id p instagram e
  found max_items via (entries listed) sent =
      let files = find_media_files listed in
      send_media max_items via (largest_video files) (image_files files) sent

  unfoldable pub run_instagram : ℕ → Bytes → Answers → Outcome
  run_instagram max_items via a =
      let downloading = edited (codes "download.downloading") none in
      elim a.made [
        | some e ↦ (downloading ∷ [], some e)
        | none ↦ elim a.fetched [
          | some e ↦
              if is_retryable_error (some e)
              then (downloading ∷ [], some e)
              else (downloading ∷ report admin_id p instagram e, none)
          | none ↦ (downloading ∷ found max_items via a.listed a.sent, none)
        ]
      ]

module _ (R : Redis) (c : Client) (admin_id : ℤ) where
  -- A payload that is malformed is an error of the decoder, with the given text.
  unfoldable pub handle_instagram :
      ℕ → Bytes → Bytes → Answers → Option DownloadPayload → R.State → Outcome × R.State
  handle_instagram max_items via decoding a none r = (([], some decoding), r)
  handle_instagram max_items via decoding a (some p) r =
      let p' : DownloadPayload = record p { platform = instagram } in
      framed R c p' (run_instagram admin_id p' max_items via a) r
