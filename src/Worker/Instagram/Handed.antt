-- ===== src/Worker/Instagram/Handed.antt =====
-- What a run of a task for Instagram leaves in the database and in the status message.
use saveinator.Prelude.{
  ℕ, suc, ap, ◌≡◌, refl, false, List, [], ◌∷◌, Option, none, some, Bytes, codes, ℤ, if◌then◌else◌,
  Bool-cases, Option-cases, inl, inr, ◌&&◌,
}
use saveinator.Queue.Payload.{DownloadPayload}
use saveinator.Ytdlp.Errors.{is_retryable_error}
use saveinator.Ytdlp.Media.{Entry, largest_video, image_files, find_media_files}
use saveinator.Worker.Task.{Event, edited, Outcome, report}
use saveinator.Worker.Instagram.{
  Answers, Listing, unread, entries, found, send_media, send_instagram_video, send_instagram_photos,
  run_instagram,
}
use saveinator.Worker.Reports.{statuses, erases, sends, edits, accepted, status_of}

-- the end of a run for Instagram, behind the first text of its status message
abbrev Handed : Option Bytes → List Event → Type 0
Handed sent es =
    (statuses es ≡ status_of (sends es && accepted sent) ∷ [])
    × (erases es ≡ sends es)
    × (edits es ≡ (if sends es && accepted sent then 0 else 1))

-- The outcome of a run for Instagram, by Telegram's answer to what was sent.
abbrev pub HandedOver : Option Bytes → Outcome → Type 0
HandedOver sent (es, some e) = (statuses es ≡ []) × (erases es ≡ false)
HandedOver sent (es, none) =
    (statuses es ≡ status_of (sends es && accepted sent) ∷ [])
    × (erases es ≡ sends es)
    × (edits es ≡ suc (if sends es && accepted sent then 0 else 1))

handed :
    (sent : Option Bytes) (es : List Event) (key : Bytes)
    → Handed sent es
    → HandedOver sent (edited key none ∷ es, none)
unfolding statuses erases sends edits
handed sent es key (status, erasing, edit) = (status, erasing, ap suc edit)

module _ (admin_id : ℤ) (p : DownloadPayload) (via : Bytes) where
  media-Handed :
      (max_items : ℕ) (best : Option Entry) (images : List Entry) (sent : Option Bytes)
      → Handed sent (send_media admin_id p max_items via best images sent)
  unfolding statuses erases sends edits report send_instagram_video send_instagram_photos
  media-Handed max_items (some best) images none = (refl, refl, refl)
  media-Handed max_items (some best) images (some e) = (refl, refl, refl)
  media-Handed max_items none [] sent = (refl, refl, refl)
  media-Handed max_items none (image ∷ images) none = (refl, refl, refl)
  media-Handed max_items none (image ∷ images) (some e) = (refl, refl, refl)

  found-Handed :
      (max_items : ℕ) (l : Listing) (sent : Option Bytes)
      → Handed sent (found admin_id p max_items via l sent)
  unfolding statuses erases sends edits report
  found-Handed max_items (unread e) sent = (refl, refl, refl)
  found-Handed max_items (entries listed) sent =
      media-Handed max_items (largest_video (find_media_files listed))
        (image_files (find_media_files listed)) sent

  -- A run of a task for Instagram that gives the queue an error records nothing and keeps the
  -- status message. Any other run records one status: completed where media was sent and Telegram
  -- accepted it, and failed otherwise, in which case it writes a second text into the status
  -- message. But it deletes the status message exactly if media was sent, accepted or refused, so
  -- that the second text of a refused upload goes with it.
  pub run_instagram-Handed :
      (max_items : ℕ) (a : Answers) → HandedOver a.sent (run_instagram admin_id p max_items via a)
  unfolding run_instagram statuses erases sends edits report
  run_instagram-Handed max_items a = elim (Option-cases a.made) [
    | inr (e, m) ↦ rw m (refl, refl)
    | inl m ↦ elim (Option-cases a.fetched) [
      | inl g ↦
          rw (m, g)
            (handed a.sent (found admin_id p max_items via a.listed a.sent)
              (codes "download.downloading") (found-Handed max_items a.listed a.sent))
      | inr (e, g) ↦ elim (Bool-cases (is_retryable_error (some e))) [
        | inl t ↦ rw (m, g, t) (refl, refl)
        | inr t ↦ rw (m, g, t) (refl, refl, refl)
      ]
    ]
  ]
