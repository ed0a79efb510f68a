-- ===== src/Worker/Reports.antt =====
-- What the runs of the download tasks leave in the database and in the status message.
use saveinator.Prelude.{
  ℕ, suc, ◌≡◌, refl, Bool, true, false, List, [], ◌∷◌, ◌++◌, Option, none, some, Bytes, codes,
  is_empty, ℤ, arith, if◌then◌else◌, length, Bool-cases, inl, inr, ◌&&◌, ◌==◌,
}
use saveinator.Queue.Payload.{DownloadPayload}
use saveinator.Ytdlp.Errors.{is_retryable_error}
use saveinator.Worker.Task.{
  Event, edited, erased, posted, album, file, audio, recorded, Outcome, report,
}
use saveinator.Worker.Tiktok.{
  PostType, video, carousel, audio_only, unknown, Result, Fetched, broken, fetched, falls_short,
  partial_notice, completed, send_carousel, send_video, send_post, run_tiktok,
  run_tiktok_carousel_images,
}

-- the statuses that go into the database, in order
unfoldable pub statuses : List Event → List Bytes
statuses [] = []
statuses (recorded platform status text ∷ es) = status ∷ statuses es
statuses (edited key detail ∷ es) = statuses es
statuses (erased ∷ es) = statuses es
statuses (posted key ∷ es) = statuses es
statuses (album images caption ∷ es) = statuses es
statuses (file path title ∷ es) = statuses es
statuses (audio path ∷ es) = statuses es

-- whether the status message is deleted
unfoldable pub erases : List Event → Bool
erases [] = false
erases (erased ∷ es) = true
erases (recorded platform status text ∷ es) = erases es
erases (edited key detail ∷ es) = erases es
erases (posted key ∷ es) = erases es
erases (album images caption ∷ es) = erases es
erases (file path title ∷ es) = erases es
erases (audio path ∷ es) = erases es

-- whether a file or an album is handed to Telegram, and whether an album is
unfoldable pub sends : List Event → Bool
sends [] = false
sends (file path title ∷ es) = true
sends (album images caption ∷ es) = true
sends (recorded platform status text ∷ es) = sends es
sends (edited key detail ∷ es) = sends es
sends (erased ∷ es) = sends es
sends (posted key ∷ es) = sends es
sends (audio path ∷ es) = sends es

unfoldable pub albums : List Event → Bool
albums [] = false
albums (album images caption ∷ es) = true
albums (file path title ∷ es) = albums es
albums (recorded platform status text ∷ es) = albums es
albums (edited key detail ∷ es) = albums es
albums (erased ∷ es) = albums es
albums (posted key ∷ es) = albums es
albums (audio path ∷ es) = albums es

-- how many texts are written into the status message
unfoldable pub edits : List Event → ℕ
edits [] = 0
edits (edited key detail ∷ es) = suc (edits es)
edits (file path title ∷ es) = edits es
edits (album images caption ∷ es) = edits es
edits (recorded platform status text ∷ es) = edits es
edits (erased ∷ es) = edits es
edits (posted key ∷ es) = edits es
edits (audio path ∷ es) = edits es

-- Telegram's answer is no error
abbrev pub accepted : Option Bytes → Bool
accepted none = true
accepted (some e) = false

abbrev pub status_of : Bool → Bytes
status_of completed = if completed then codes "completed" else codes "failed"

-- One status is recorded where the queue gets no error, and none where it gets one.
abbrev pub RecordsOnce : Outcome → Type 0
RecordsOnce (es, some e) = statuses es ≡ []
RecordsOnce (es, none) = length (statuses es) ≡ 1

-- The status message goes exactly where the download is recorded as completed.
abbrev pub Settled : List Event → Type 0
Settled es = statuses es ≡ (if erases es then codes "completed" else codes "failed") ∷ []

abbrev pub Told : Outcome → Type 0
Told (es, some e) = (statuses es ≡ []) × (erases es ≡ false)
Told (es, none) = Settled es

pub report-Settled :
    (admin_id : ℤ) (p : DownloadPayload) (platform text : Bytes)
    → Settled (report admin_id p platform text)
unfolding report statuses erases
report-Settled admin_id p platform text = refl

module _ (admin_id : ℤ) (p : DownloadPayload) (via : Bytes) where
  sent-Settled :
      (short silent : Bool) (path : Bytes)
      → Settled (
          partial_notice short
          ++ ((if silent then [] else audio path ∷ []) ++ erased ∷ completed admin_id p via))
  unfolding statuses erases
  sent-Settled true true path = refl
  sent-Settled true false path = refl
  sent-Settled false true path = refl
  sent-Settled false false path = refl

  send_carousel-Settled :
      (d : Result) (sent : Option Bytes) → Settled (send_carousel admin_id p via d sent)
  unfolding send_carousel statuses erases report
  send_carousel-Settled d none = elim (Bool-cases (length d.images == 0 && is_empty d.audio_path)) [
    | inl e ↦ rw e refl
    | inr e ↦ rw e (
        sent-Settled (d.carousel_images_available && falls_short d) (is_empty d.audio_path)
          d.audio_path)
  ]
  send_carousel-Settled d (some e) =
      elim (Bool-cases (length d.images == 0 && is_empty d.audio_path)) [
        | inl t ↦ rw t refl
        | inr t ↦ rw t refl
      ]

  send_video-Settled :
      (d : Result) (sent : Option Bytes) → Settled (send_video admin_id p via d sent)
  unfolding send_video statuses erases report
  send_video-Settled d none = ground arith
  send_video-Settled d (some e) = ground arith

  send_post-Settled :
      (t : PostType) (d : Result) (sent : Option Bytes)
      → Settled (send_post admin_id p via t d sent)
  send_post-Settled video d sent = send_video-Settled d sent
  send_post-Settled carousel d sent = send_carousel-Settled d sent
  send_post-Settled audio_only d sent = send_carousel-Settled d sent
  send_post-Settled unknown d sent = report-Settled admin_id p _ _

  -- A run of a task for TikTok that gives the queue an error records nothing and keeps the status
  -- message. Any other run records one status: completed, with the status message deleted, or failed,
  -- with the message kept.
  pub run_tiktok-Told :
      (made sent : Option Bytes) (answer : Fetched)
      → Told (run_tiktok admin_id p via made answer sent)
  unfolding run_tiktok statuses erases
  run_tiktok-Told (some e) sent answer = (refl, refl)
  run_tiktok-Told none sent (fetched d) = send_post-Settled d.post_type d sent
  run_tiktok-Told none sent (broken e) = elim (Bool-cases (is_retryable_error (some e))) [
    | inl t ↦ rw t (refl, refl)
    | inr t ↦ rw t (report-Settled admin_id p _ e)
  ]

  -- A run of a task for a carousel's pictures that gives the queue an error records nothing, and any
  -- other run records one status; no run touches the status message.
  pub run_tiktok_carousel_images-RecordsOnce :
      (made : Option Bytes) (answer : Fetched)
      → RecordsOnce (run_tiktok_carousel_images admin_id p via made answer)
        × (erases (run_tiktok_carousel_images admin_id p via made answer).0 ≡ false)
  unfolding run_tiktok_carousel_images erases statuses
  run_tiktok_carousel_images-RecordsOnce (some e) answer = (refl, refl)
  run_tiktok_carousel_images-RecordsOnce none (broken e) = (refl, refl)
  run_tiktok_carousel_images-RecordsOnce none (fetched d) =
      elim (Bool-cases (length d.images == 0)) [
        | inl t ↦ rw t (refl, refl)
        | inr t ↦ elim (Bool-cases (falls_short d)) [
          | inl u ↦ rw (t, u) (refl, refl)
          | inr u ↦ rw (t, u) (refl, refl)
        ]
      ]
