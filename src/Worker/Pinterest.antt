-- ===== src/Worker/Pinterest.antt =====
-- A task for Pinterest: go/internal/worker/download.go. The answers of the system, of the client of
-- go/internal/pinterest, and of Telegram are arguments, and so is pinterest.DisplayTitle. Sizes are in
-- bytes: the comparison in megabytes is exact for the sizes that a float holds exactly. The limits are
-- settings, which are not negative.
pub mod Fits
pub mod Settles
use saveinator.Prelude.{
  ℕ, ◌*◌, Bool, true, false, ◌||◌, not, List, [], ◌∷◌, ◌++◌, Option, none, some, Bytes, codes,
  is_empty, eq_bytes, length, ltb, ◌==◌, ℤ, if◌then◌else◌,
}
use saveinator.Linkparser.{pinterest}
use saveinator.Queue.Payload.{DownloadPayload}
use saveinator.Redis.{Redis}
use saveinator.Redisx.Client.{Client}
use saveinator.Worker.Task.{
  Event, edited, erased, album, file, recorded, Outcome, report, framed, build_media_caption,
}

-- An item with what os.Stat answers for its file: an error's text or none.
pub record MediaItem : Type 0 where
  pub title : Bytes
  pub media_type : Bytes
  pub file_path : Bytes
  pub file_size : ℕ
  pub missing : Option Bytes

pub data Downloaded : Type 0 where
  no_media : Downloaded
  broken : Bytes → Downloaded
  items_of : List MediaItem → Downloaded

abbrev pub megabyte : ℕ
megabyte = 1048576

unfoldable pub too_large : ℕ → MediaItem → Bool
too_large limit item = ltb (limit * megabyte) item.file_size

unfoldable pub is_video : MediaItem → Bool
is_video item = eq_bytes item.media_type (codes "video")

abbrev no_item : MediaItem
no_item = record { title = []; media_type = []; file_path = []; file_size = 0; missing = none }

-- the first video, or the largest item, from the best one so far on; and whether it is a video
unfoldable pub pick_best : MediaItem → List MediaItem → MediaItem × Bool
pick_best best [] = (best, false)
pick_best best (item ∷ items) =
    let rest = pick_best (if ltb best.file_size item.file_size then item else best) items in
    if is_video item then (item, true) else rest

unfoldable pub pick_pinterest_item : MediaItem → List MediaItem → MediaItem
pick_pinterest_item first items =
    let (best, found) = pick_best no_item (first ∷ items) in
    if found || not (is_empty best.file_path) then best else first

abbrev pub failure : Bytes → Bytes → List Event
failure key text = edited key none ∷ recorded pinterest (codes "failed") text ∷ []

module _ (display_title : Bytes → Bytes) where
  unfoldable pub title_of : MediaItem → Bytes
  title_of item = if is_empty item.title then display_title item.file_path else item.title

  -- `refused` is Telegram's answer to the file at a path.
  module _ (refused : Bytes → Option Bytes) (image_limit video_limit : ℕ) where
    -- the items one by one: the videos sent, the pictures for the album, whether something was sent
    unfoldable pub send_each : List MediaItem → List Event × List Bytes × Bool
    send_each [] = ([], [], false)
    send_each (item ∷ items) =
        let (events, images, sent) = send_each items in
        elim item.missing [
          | some e ↦ (events, images, sent)
          | none ↦
              if is_video item
              then (if too_large video_limit item then (events, images, sent) else (
                file item.file_path (title_of item) ∷ events,
                images,
                elim (refused item.file_path) [ some e ↦ sent | none ↦ true ],
              ))
              else if too_large image_limit item
              then (events, images, sent)
              else (events, item.file_path ∷ images, sent)
        ]

    module _ (admin_id : ℤ) (p : DownloadPayload) (via : Bytes) (album_refused : Option Bytes) where
      -- `completed`, or the notice, behind what was sent
      abbrev pub settle : Bool → List Event
      settle true = erased ∷ recorded pinterest (codes "completed") [] ∷ []
      settle false =
          failure (codes "pinterest.all_too_large") (codes "all items too large or missing")

      abbrev pub send_album : List Bytes → Bool → List Event
      send_album [] sent = settle sent
      send_album (image ∷ images) sent =
          album (image ∷ images) (build_media_caption [] via p.no_watermark)
          ∷ settle (elim album_refused [ some e ↦ sent | none ↦ true ])

      unfoldable pub send_pinterest_items : List MediaItem → List Event
      send_pinterest_items items =
          let (events, images, sent) = send_each items in events ++ send_album images sent

      abbrev pub limit_of : MediaItem → ℕ
      limit_of item = if eq_bytes item.media_type (codes "image") then image_limit else video_limit

      unfoldable pub send_one : MediaItem → List Event
      send_one item =
          if too_large (limit_of item) item
          then failure (codes "pinterest.all_too_large") (codes "too large")
          else elim item.missing [
            | some e ↦ report admin_id p pinterest e
            | none ↦ elim (refused item.file_path) [
              | some e ↦ file item.file_path (title_of item) ∷ report admin_id p pinterest e
              | none ↦
                  file item.file_path (title_of item)
                  ∷ erased
                  ∷ recorded pinterest (codes "completed") []
                  ∷ []
            ]
          ]

      abbrev pub send_all : Downloaded → List Event
      send_all no_media = failure (codes "pinterest.no_media") (codes "no media")
      send_all (broken e) = report admin_id p pinterest e
      send_all (items_of []) = failure (codes "pinterest.no_media") (codes "no media")
      send_all (items_of (item ∷ [])) = send_one (pick_pinterest_item item [])
      send_all (items_of (item ∷ next ∷ items)) = send_pinterest_items (item ∷ next ∷ items)

      unfoldable pub run_pinterest : Option Bytes → Downloaded → Outcome
      run_pinterest (some e) answer = (edited (codes "download.downloading") none ∷ [], some e)
      run_pinterest none answer =
          (edited (codes "download.downloading") none ∷ send_all answer, none)

module _ (R : Redis) (c : Client) (display_title : Bytes → Bytes) (refused : Bytes → Option Bytes)
    (image_limit video_limit : ℕ) (admin_id : ℤ) (via decoding : Bytes) where
  -- A payload that is malformed is an error of the decoder, with the text `decoding`.
  unfoldable pub handle_pinterest :
      Option Bytes
      → Option Bytes
      → Downloaded
      → Option DownloadPayload
      → R.State
      → Outcome × R.State
  handle_pinterest album_refused made answer none r = (([], some decoding), r)
  handle_pinterest album_refused made answer (some p) r =
      let p' : DownloadPayload = record p { platform = pinterest } in
      framed R c p'
        (run_pinterest display_title refused image_limit video_limit admin_id p' via album_refused
          made answer)
        r
