-- ===== src/Worker/Download.antt =====
-- The generic download task: go/internal/worker/download.go. The answers of the system, of yt-dlp, of
-- the client of go/internal/xphotos and of Telegram are arguments, and so are the titles and captions
-- of YouTube and X. An error is its text, and none is nil. The limits are settings in megabytes, which
-- are not negative; the comparison of sizes is exact for those that a float holds exactly.
pub mod Refused
use saveinator.Prelude.{
  ℕ, ◌*◌, Bool, true, false, ◌&&◌, List, [], ◌∷◌, ◌++◌, map, Option, none, some, Bytes, codes,
  is_empty, eq_bytes, ltb, ℤ, if◌then◌else◌,
}
use saveinator.Linkparser.{x_platform, youtube}
use saveinator.Queue.Payload.{DownloadPayload}
use saveinator.Ytdlp.Errors.{is_retryable_error}
use saveinator.Ytdlp.Media.{Entry, find_media_files, largest_video, image_files}
use saveinator.Worker.Task.{
  Event, edited, erased, album, file, recorded, Outcome, report, build_media_caption,
}
use saveinator.Worker.Instagram.{Listing, unread, entries}
use saveinator.Worker.Pinterest.{megabyte}

-- the answer of xphotos.DownloadPhotos: its error, with whether it is ErrNotFound, or the paths
pub data XPhotos : Type 0 where
  no_photos : Bool → Bytes → XPhotos
  photos : List Bytes → XPhotos

-- The answers of os.MkdirTemp, ytdlp.Download, os.ReadDir, xphotos, and of Telegram to what is sent.
pub record Answers : Type 0 where
  pub made : Option Bytes
  pub fetched : Option Bytes
  pub listed : Listing
  pub x : XPhotos
  pub sent : Option Bytes

-- The titles of a video of YouTube and of X, and the caption of X's photos.
pub record Titles : Type 0 where
  pub display_title : Bytes → Bytes
  pub x_title : Bytes → Bytes
  pub x_caption : Bytes

-- the platform's limit and the one of uploads
unfoldable pub max_file_mb : ℕ → ℕ → ℕ
max_file_mb limit upload = if ltb 0 upload && ltb upload limit then upload else limit

unfoldable pub file_size : Entry → ℕ
file_size f = elim f.size [ none ↦ 0 | some n ↦ n ]

module _ (admin_id : ℤ) (p : DownloadPayload) (t : Titles) (via : Bytes) (limit upload : ℕ) where
  unfoldable pub result_title : Bytes → Bytes
  result_title path =
      if eq_bytes p.platform youtube
      then t.display_title path
      else if eq_bytes p.platform x_platform
      then t.x_title path
      else path

  unfoldable pub send_video_result : Entry → Option Bytes → List Event
  send_video_result video sent =
      if ltb (max_file_mb limit upload * megabyte) (file_size video)
      then edited (codes "download.too_large") none
        ∷ recorded p.platform (codes "failed") (codes "too large")
        ∷ []
      else file video.name (result_title video.name) ∷ elim sent [
        | some e ↦ report admin_id p p.platform e
        | none ↦ erased ∷ recorded p.platform (codes "completed") [] ∷ []
      ]

  unfoldable pub run_x_photos : XPhotos → Option Bytes → List Event
  run_x_photos (no_photos not_found e) sent =
      if not_found
      then edited (codes "x.text_only") none ∷ recorded x_platform (codes "failed") e ∷ []
      else report admin_id p x_platform e
  run_x_photos (photos paths) none =
      album paths t.x_caption ∷ erased ∷ recorded x_platform (codes "completed") [] ∷ []
  run_x_photos (photos paths) (some e) = album paths t.x_caption ∷ report admin_id p x_platform e

  -- X falls back on its photos, the others report.
  unfoldable pub fall_back : Bytes → XPhotos → Option Bytes → List Event
  fall_back e x sent =
      if eq_bytes p.platform x_platform then run_x_photos x sent else report admin_id p p.platform e

  -- the album of a download without a video
  unfoldable pub send_images : List Entry → Option Bytes → List Event
  send_images images sent =
      album (map (λ f. f.name) images) (build_media_caption [] via p.no_watermark) ∷ elim sent [
        | some e ↦ recorded p.platform (codes "failed") e ∷ erased ∷ []
        | none ↦ recorded p.platform (codes "completed") [] ∷ erased ∷ []
      ]

  abbrev pub send_found : Option Entry → List Entry → XPhotos → Option Bytes → List Event
  send_found (some video) images x sent = send_video_result video sent
  send_found none [] x sent = fall_back (codes "no video file found") x sent
  send_found none (image ∷ images) x sent = send_images (image ∷ images) sent

  abbrev pub send_files : List Entry → XPhotos → Option Bytes → List Event
  send_files [] x sent = fall_back (codes "no media files found") x sent
  send_files (f ∷ files) x sent =
      send_found (largest_video (f ∷ files)) (image_files (f ∷ files)) x sent

  abbrev pub send_listed : Listing → XPhotos → Option Bytes → List Event
  send_listed (unread e) x sent = fall_back e x sent
  send_listed (entries listed) x sent = send_files (find_media_files listed) x sent

  unfoldable pub run_download : Answers → Outcome
  run_download a =
      let downloading = edited (codes "download.downloading") none in
      elim a.made [
        | some e ↦ (downloading ∷ [], some e)
        | none ↦ elim a.fetched [
          | some e ↦
              if eq_bytes p.platform x_platform
              then (downloading ∷ run_x_photos a.x a.sent, none)
              else if is_retryable_error (some e)
              then (downloading ∷ [], some e)
              else (downloading ∷ report admin_id p p.platform e, none)
          | none ↦ (downloading ∷ send_listed a.listed a.x a.sent, none)
        ]
      ]
