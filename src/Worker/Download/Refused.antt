-- ===== src/Worker/Download/Refused.antt =====
-- What the generic download leaves behind.
use saveinator.Prelude.{
  ℕ, ◌*◌, ◌≡◌, refl, ap, suc, ◌||◌, ◌&&◌, if◌then◌else◌, true, false, List, [], ◌∷◌, Option, none,
  some, Bytes, codes, ℤ, ltb, eq_bytes, length, Bool-cases, Option-cases, inl, inr,
}
use saveinator.Linkparser.{x_platform}
use saveinator.Queue.Payload.{DownloadPayload}
use saveinator.Ytdlp.Errors.{is_retryable_error}
use saveinator.Ytdlp.Media.{Entry, find_media_files, largest_video, image_files}
use saveinator.Worker.Task.{Event, edited, report, Outcome}
use saveinator.Worker.Instagram.{Listing, unread, entries}
use saveinator.Worker.Reports.{
  statuses, RecordsOnce, erases, sends, albums, edits, accepted, status_of,
}
use saveinator.Worker.Pinterest.{megabyte}
use saveinator.Worker.Download.{
  XPhotos, no_photos, photos, Answers, Titles, max_file_mb, file_size, send_video_result,
  run_x_photos, fall_back, send_images, send_found, send_files, send_listed, run_download,
}

-- the end of a run, behind the first text of its status message
abbrev Ended : Option Bytes → List Event → Type 0
Ended sent es =
    (statuses es ≡ status_of (sends es && accepted sent) ∷ [])
    × (erases es ≡ ((sends es && accepted sent) || albums es))
    × (edits es ≡ (if erases es then 0 else 1))

-- The outcome of a run, by Telegram's answer to what was sent.
abbrev pub AlbumTold : Option Bytes → Outcome → Type 0
AlbumTold sent (es, some e) = (statuses es ≡ []) × (erases es ≡ false)
AlbumTold sent (es, none) =
    (statuses es ≡ status_of (sends es && accepted sent) ∷ [])
    × (erases es ≡ ((sends es && accepted sent) || albums es))
    × (edits es ≡ suc (if erases es then 0 else 1))

told :
    (sent : Option Bytes) (es : List Event) (key : Bytes)
    → Ended sent es
    → AlbumTold sent (edited key none ∷ es, none)
unfolding statuses erases sends albums edits
told sent es key (status, erasing, edit) = (status, erasing, ap suc edit)

module _ (admin_id : ℤ) (p : DownloadPayload) (t : Titles) (via : Bytes) (limit upload : ℕ) where
  send_video_result-once :
      (video : Entry) (sent : Option Bytes)
      → length (statuses (send_video_result admin_id p t via limit upload video sent)) ≡ 1
  unfolding send_video_result statuses report
  send_video_result-once video sent =
      elim (Bool-cases (ltb (max_file_mb limit upload * megabyte) (file_size video))) [
        | inl large ↦ rw large refl
        | inr fits ↦ elim (Option-cases sent) [
          | inl e ↦ rw (fits, e) refl
          | inr (e, h) ↦ rw (fits, h) refl
        ]
      ]

  run_x_photos-once :
      (x : XPhotos) (sent : Option Bytes)
      → length (statuses (run_x_photos admin_id p t via limit upload x sent)) ≡ 1
  unfolding run_x_photos statuses report
  run_x_photos-once (no_photos true e) sent = refl
  run_x_photos-once (no_photos false e) sent = refl
  run_x_photos-once (photos paths) none = refl
  run_x_photos-once (photos paths) (some e) = refl

  fall_back-once :
      (e : Bytes) (x : XPhotos) (sent : Option Bytes)
      → length (statuses (fall_back admin_id p t via limit upload e x sent)) ≡ 1
  unfolding fall_back statuses report
  fall_back-once e x sent = elim (Bool-cases (eq_bytes p.platform x_platform)) [
    | inl is_x ↦ rw is_x (run_x_photos-once x sent)
    | inr other ↦ rw other refl
  ]

  send_found-once :
      (best : Option Entry) (images : List Entry) (x : XPhotos) (sent : Option Bytes)
      → length (statuses (send_found admin_id p t via limit upload best images x sent)) ≡ 1
  unfolding send_images statuses
  send_found-once (some video) images x sent = send_video_result-once video sent
  send_found-once none [] x sent = fall_back-once _ x sent
  send_found-once none (image ∷ images) x none = refl
  send_found-once none (image ∷ images) x (some e) = refl

  send_files-once :
      (files : List Entry) (x : XPhotos) (sent : Option Bytes)
      → length (statuses (send_files admin_id p t via limit upload files x sent)) ≡ 1
  send_files-once [] x sent = fall_back-once _ x sent
  send_files-once (f ∷ files) x sent =
      send_found-once (largest_video (f ∷ files)) (image_files (f ∷ files)) x sent

  send_listed-once :
      (l : Listing) (x : XPhotos) (sent : Option Bytes)
      → length (statuses (send_listed admin_id p t via limit upload l x sent)) ≡ 1
  send_listed-once (unread e) x sent = fall_back-once e x sent
  send_listed-once (entries listed) x sent = send_files-once (find_media_files listed) x sent

  -- A run of the generic download that gives the queue an error records nothing, and any other run
  -- records one status, whatever yt-dlp, X and Telegram answer.
  pub run_download-RecordsOnce :
      (a : Answers) → RecordsOnce (run_download admin_id p t via limit upload a)
  unfolding run_download statuses report
  run_download-RecordsOnce a = elim (Option-cases a.made) [
    | inr (e, m) ↦ rw m refl
    | inl m ↦ elim (Option-cases a.fetched) [
      | inl g ↦ rw (m, g) (send_listed-once a.listed a.x a.sent)
      | inr (e, g) ↦ elim (Bool-cases (eq_bytes p.platform x_platform)) [
        | inl is_x ↦ rw (m, g, is_x) (run_x_photos-once a.x a.sent)
        | inr other ↦ elim (Bool-cases (is_retryable_error (some e))) [
          | inl again ↦ rw (m, g, other, again) refl
          | inr final ↦ rw (m, g, other, final) refl
        ]
      ]
    ]
  ]

  send_video_result-Ended :
      (video : Entry) (sent : Option Bytes)
      → Ended sent (send_video_result admin_id p t via limit upload video sent)
  unfolding send_video_result statuses erases sends albums edits report
  send_video_result-Ended video sent =
      elim (Bool-cases (ltb (max_file_mb limit upload * megabyte) (file_size video))) [
        | inl large ↦ rw large (refl, refl, refl)
        | inr fits ↦ elim (Option-cases sent) [
          | inl e ↦ rw (fits, e) (refl, refl, refl)
          | inr (e, h) ↦ rw (fits, h) (refl, refl, refl)
        ]
      ]

  report-Ended :
      (platform e : Bytes) (sent : Option Bytes) → Ended sent (report admin_id p platform e)
  unfolding statuses erases sends albums edits report
  report-Ended platform e sent = (refl, refl, refl)

  module _ (other : eq_bytes p.platform x_platform ≡ false) where
    fall_back-Ended :
        (e : Bytes) (x : XPhotos) (sent : Option Bytes)
        → Ended sent (fall_back admin_id p t via limit upload e x sent)
    unfolding fall_back
    fall_back-Ended e x sent = rw other (report-Ended p.platform e sent)

    send_found-Ended :
        (best : Option Entry) (images : List Entry) (x : XPhotos) (sent : Option Bytes)
        → Ended sent (send_found admin_id p t via limit upload best images x sent)
    unfolding send_images statuses erases sends albums edits
    send_found-Ended (some video) images x sent = send_video_result-Ended video sent
    send_found-Ended none [] x sent = fall_back-Ended _ x sent
    send_found-Ended none (image ∷ images) x none = (refl, refl, refl)
    send_found-Ended none (image ∷ images) x (some e) = (refl, refl, refl)

    send_files-Ended :
        (files : List Entry) (x : XPhotos) (sent : Option Bytes)
        → Ended sent (send_files admin_id p t via limit upload files x sent)
    send_files-Ended [] x sent = fall_back-Ended _ x sent
    send_files-Ended (f ∷ files) x sent =
        send_found-Ended (largest_video (f ∷ files)) (image_files (f ∷ files)) x sent

    send_listed-Ended :
        (l : Listing) (x : XPhotos) (sent : Option Bytes)
        → Ended sent (send_listed admin_id p t via limit upload l x sent)
    send_listed-Ended (unread e) x sent = fall_back-Ended e x sent
    send_listed-Ended (entries listed) x sent = send_files-Ended (find_media_files listed) x sent

    -- A run of the generic download for a platform other than X that gives the queue an error
    -- records nothing and keeps the status message. Any other run records one status: completed
    -- where something was sent and Telegram accepted it, and failed otherwise. It deletes the
    -- status message exactly if it completed or an album was sent, accepted or refused; and it
    -- writes a second text into the status message exactly if it keeps it, so that none is written
    -- behind a refused album.
    pub run_download-Told :
        (a : Answers) → AlbumTold a.sent (run_download admin_id p t via limit upload a)
    unfolding run_download statuses erases sends albums edits
    run_download-Told a = elim (Option-cases a.made) [
      | inr (e, m) ↦ rw m (refl, refl)
      | inl m ↦ elim (Option-cases a.fetched) [
        | inl g ↦
            rw (m, g)
              (told a.sent (send_listed admin_id p t via limit upload a.listed a.x a.sent)
                (codes "download.downloading") (send_listed-Ended a.listed a.x a.sent))
        | inr (e, g) ↦ elim (Bool-cases (is_retryable_error (some e))) [
          | inl again ↦ rw (m, g, other, again) (refl, refl)
          | inr final ↦
              rw (m, g, other, final)
                (told a.sent (report admin_id p p.platform e) (codes "download.downloading")
                  (report-Ended p.platform e a.sent))
        ]
      ]
    ]
