-- ===== src/Worker/Pinterest/Settles.antt =====
-- What a run of a task for Pinterest leaves behind.
use saveinator.Prelude.{
  ℕ, ◌≡◌, refl, Bool, true, false, List, [], ◌∷◌, ◌++◌, Option, none, some, Bytes, ℤ, Bool-cases,
  Option-cases, inl, inr,
}
use saveinator.Queue.Payload.{DownloadPayload}
use saveinator.Worker.Task.{Event, report}
use saveinator.Worker.Reports.{statuses, erases, Settled, Told, report-Settled}
use saveinator.Worker.Pinterest.{
  MediaItem, Downloaded, no_media, broken, items_of, too_large, is_video, send_each, settle,
  send_album, limit_of, send_pinterest_items, send_one, send_all, run_pinterest,
  pick_pinterest_item,
}

module _ (display_title : Bytes → Bytes) (refused : Bytes → Option Bytes)
    (image_limit video_limit : ℕ) where
  -- the sending of the items neither records nor deletes
  send_each-quiet :
      (items : List MediaItem) (tail : List Event)
      → (statuses ((send_each display_title refused image_limit video_limit items).0 ++ tail)
          ≡ statuses tail)
        × (erases ((send_each display_title refused image_limit video_limit items).0 ++ tail)
            ≡ erases tail)
  unfolding send_each statuses erases
  send_each-quiet [] tail = (refl, refl)
  send_each-quiet (item ∷ items) tail =
      let ih = send_each-quiet items tail in
      elim (Option-cases item.missing) [
        | inr (e, missing) ↦ simp missing ih
        | inl present ↦ elim (Bool-cases (is_video item)) [
          | inl v ↦ elim (Bool-cases (too_large video_limit item)) [
            | inl large ↦ simp (present, v, large) ih
            | inr fits ↦ simp (present, v, fits) ih
          ]
          | inr v ↦ elim (Bool-cases (too_large image_limit item)) [
            | inl large ↦ simp (present, v, large) ih
            | inr fits ↦ simp (present, v, fits) ih
          ]
        ]
      ]

  module _ (admin_id : ℤ) (p : DownloadPayload) (via : Bytes) (album_refused : Option Bytes) where
    settle-Settled :
        (sent : Bool)
        → Settled
            (settle display_title refused image_limit video_limit admin_id p via album_refused sent)
    unfolding statuses erases
    settle-Settled true = refl
    settle-Settled false = refl

    send_album-Settled :
        (images : List Bytes) (sent : Bool)
        → Settled (
            send_album display_title refused image_limit video_limit admin_id p via album_refused
              images sent)
    unfolding statuses erases
    send_album-Settled [] sent = settle-Settled sent
    send_album-Settled (image ∷ images) sent =
        settle-Settled (elim album_refused [ some e ↦ sent | none ↦ true ])

    send_pinterest_items-Settled :
        (items : List MediaItem)
        → Settled (
            send_pinterest_items display_title refused image_limit video_limit admin_id p via
              album_refused items)
    unfolding send_pinterest_items
    send_pinterest_items-Settled items =
        let (events, images, sent) =
          send_each display_title refused image_limit video_limit items in
        let quiet = send_each-quiet items (
          send_album display_title refused image_limit video_limit admin_id p via album_refused
            images sent) in
        rw (quiet.0, quiet.1) (send_album-Settled images sent)

    send_one-Settled :
        (item : MediaItem)
        → Settled (
            send_one display_title refused image_limit video_limit admin_id p via album_refused
              item)
    unfolding send_one statuses erases report
    send_one-Settled item =
        elim (Bool-cases (
          too_large
            (limit_of display_title refused image_limit video_limit admin_id p via album_refused
              item)
            item)) [
              | inl large ↦ rw large refl
              | inr fits ↦ elim (Option-cases item.missing) [
                | inr (e, missing) ↦ simp (fits, missing) refl
                | inl present ↦ elim (Option-cases (refused item.file_path)) [
                  | inl ok ↦ simp (fits, present, ok) refl
                  | inr (e, no_ok) ↦ simp (fits, present, no_ok) refl
                ]
              ]
            ]

    send_all-Settled :
        (answer : Downloaded)
        → Settled (
            send_all display_title refused image_limit video_limit admin_id p via album_refused
              answer)
    unfolding statuses erases
    send_all-Settled no_media = refl
    send_all-Settled (broken e) = report-Settled admin_id p _ e
    send_all-Settled (items_of []) = refl
    send_all-Settled (items_of (item ∷ [])) = send_one-Settled (pick_pinterest_item item [])
    send_all-Settled (items_of (item ∷ next ∷ items)) =
        send_pinterest_items-Settled (item ∷ next ∷ items)

    -- A run of a task for Pinterest for which no directory is made gives the queue an error, records
    -- nothing and keeps the status message. Any other run records one status, whatever the client
    -- and Telegram answer: completed, with the status message deleted, or failed, with it kept.
    pub run_pinterest-Told :
        (made : Option Bytes) (answer : Downloaded)
        → Told (
            run_pinterest display_title refused image_limit video_limit admin_id p via album_refused
              made answer)
    unfolding run_pinterest statuses erases
    run_pinterest-Told (some e) answer = (refl, refl)
    run_pinterest-Told none answer = send_all-Settled answer
