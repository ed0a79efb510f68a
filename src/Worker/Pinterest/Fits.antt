-- ===== src/Worker/Pinterest/Fits.antt =====
-- What a board of Pinterest sends to Telegram.
use saveinator.Prelude.{
  ℕ, ◌≡◌, refl, ap, ◌∙◌, Bool, true, false, ◌&&◌, not, List, [], ◌∷◌, ◌++◌, map, Option, none, some,
  Bytes, ℤ, keep, if◌then◌else◌, append-nil, Bool-cases, Option-cases, inl, inr,
}
use saveinator.Queue.Payload.{DownloadPayload}
use saveinator.Worker.Task.{Event, edited, erased, posted, album, file, audio, recorded}
use saveinator.Worker.Pinterest.{
  MediaItem, too_large, is_video, send_each, settle, send_album, send_pinterest_items,
}

-- the files and the albums that are sent, in order
unfoldable pub files_of : List Event → List Bytes
files_of [] = []
files_of (file path title ∷ es) = path ∷ files_of es
files_of (album images caption ∷ es) = files_of es
files_of (recorded platform status text ∷ es) = files_of es
files_of (edited key detail ∷ es) = files_of es
files_of (erased ∷ es) = files_of es
files_of (posted key ∷ es) = files_of es
files_of (audio path ∷ es) = files_of es

unfoldable pub albums_of : List Event → List (List Bytes)
albums_of [] = []
albums_of (album images caption ∷ es) = images ∷ albums_of es
albums_of (file path title ∷ es) = albums_of es
albums_of (recorded platform status text ∷ es) = albums_of es
albums_of (edited key detail ∷ es) = albums_of es
albums_of (erased ∷ es) = albums_of es
albums_of (posted key ∷ es) = albums_of es
albums_of (audio path ∷ es) = albums_of es

-- the file is there
unfoldable pub present : MediaItem → Bool
present item = elim item.missing [ none ↦ true | some e ↦ false ]

-- the paths of the videos, or of the others, whose file is there and within the limit
abbrev pub within : Bool → ℕ → List MediaItem → List Bytes
within video limit items =
    map (λ i. i.file_path)
      (keep
        (λ i. present i && ((if is_video i then video else not video) && not (too_large limit i)))
        items)

-- no album of nothing
abbrev pub albums : List Bytes → List (List Bytes)
albums [] = []
albums (image ∷ images) = (image ∷ images) ∷ []

module _ (display_title : Bytes → Bytes) (refused : Bytes → Option Bytes)
    (image_limit video_limit : ℕ) where
  send_each-within :
      (items : List MediaItem) (tail : List Event)
      → (files_of ((send_each display_title refused image_limit video_limit items).0 ++ tail)
          ≡ within true video_limit items ++ files_of tail)
        × (albums_of ((send_each display_title refused image_limit video_limit items).0 ++ tail)
            ≡ albums_of tail)
        × ((send_each display_title refused image_limit video_limit items).1
            ≡ within false image_limit items)
  unfolding send_each files_of albums_of present
  send_each-within [] tail = (refl, refl, refl)
  send_each-within (item ∷ items) tail =
      let (files, albums, images) = send_each-within items tail in
      let more = λ (l m : List Bytes) (e : l ≡ m). ap (λ (l : List Bytes). item.file_path ∷ l) e in
      elim (Option-cases item.missing) [
        | inr (e, gone) ↦
            let absent : present item ≡ false = rw gone refl in
            simp (gone, absent) (files, albums, images)
        | inl here ↦
            let there : present item ≡ true = rw here refl in
            elim (Bool-cases (is_video item)) [
              | inl v ↦ elim (Bool-cases (too_large video_limit item)) [
                | inl large ↦ simp (here, there, v, large) (files, albums, images)
                | inr fits ↦ simp (here, there, v, fits) (more _ _ files, albums, images)
              ]
              | inr v ↦ elim (Bool-cases (too_large image_limit item)) [
                | inl large ↦ simp (here, there, v, large) (files, albums, images)
                | inr fits ↦ simp (here, there, v, fits) (files, albums, more _ _ images)
              ]
            ]
      ]

  module _ (admin_id : ℤ) (p : DownloadPayload) (via : Bytes) (album_refused : Option Bytes) where
    settle-sends :
        (sent : Bool)
        → (files_of (
              settle display_title refused image_limit video_limit admin_id p via album_refused
                sent)
            ≡ [])
          × (albums_of (
                settle display_title refused image_limit video_limit admin_id p via album_refused
                  sent)
              ≡ [])
    unfolding files_of albums_of
    settle-sends true = (refl, refl)
    settle-sends false = (refl, refl)

    send_album-sends :
        (images : List Bytes) (sent : Bool)
        → (files_of (
              send_album display_title refused image_limit video_limit admin_id p via album_refused
                images sent)
            ≡ [])
          × (albums_of (
                send_album display_title refused image_limit video_limit admin_id p via
                  album_refused images sent)
              ≡ albums images)
    unfolding files_of albums_of
    send_album-sends [] sent = settle-sends sent
    send_album-sends (image ∷ images) sent =
        let rest = settle-sends (elim album_refused [ some e ↦ sent | none ↦ true ]) in
        (rest.0, ap (λ (l : List (List Bytes)). (image ∷ images) ∷ l) rest.1)

    -- A board sends, in order and whatever Telegram answers, every video whose file is there and no
    -- larger than the limit for videos, and no other file; and in one album every other item whose
    -- file is there and no larger than the limit for pictures, if there is one.
    pub send_pinterest_items-within :
        (items : List MediaItem)
        → (files_of (
              send_pinterest_items display_title refused image_limit video_limit admin_id p via
                album_refused items)
            ≡ within true video_limit items)
          × (albums_of (
                send_pinterest_items display_title refused image_limit video_limit admin_id p via
                  album_refused items)
              ≡ albums (within false image_limit items))
    unfolding send_pinterest_items
    send_pinterest_items-within items =
        let (events, images, sent) =
          send_each display_title refused image_limit video_limit items in
        let tail =
          send_album display_title refused image_limit video_limit admin_id p via album_refused
            images sent in
        let (files, pictures, same) = send_each-within items tail in
        let last = send_album-sends images sent in
        (
          files
              ∙ (ap (λ (l : List Bytes). within true video_limit items ++ l) last.0 ∙ append-nil _),
          pictures ∙ (last.1 ∙ ap albums same),
        )
