-- ===== src/Worker/Task.antt =====
-- The frame of the download tasks: go/internal/worker/download.go. What a run tells Telegram and the
-- database is listed in order; the answers that the run drops, logs and Prometheus counters are left
-- out. Texts of the locale are their keys. An outcome's error is what the queue gets back.
pub mod Freed
use saveinator.Prelude.{
  Bool, true, false, ◌||◌, List, [], ◌∷◌, ◌++◌, Option, none, some, Bytes, codes, is_empty, ℤ,
  if◌then◌else◌,
}
use saveinator.Text.Trim.{trim_space}
use saveinator.Queue.Payload.{DownloadPayload}
use saveinator.Redis.{Redis}
use saveinator.Redisx.Client.{Client, is_download_cancelled, release_user_lock}
use saveinator.Ytdlp.Errors.{user_facing_error}

pub data Event : Type 0 where
  -- the status message's text, with the detail for an administrator; and its deletion
  edited : Bytes → Option Bytes → Event
  erased : Event
  -- a new message, an album with its caption, a file with its title, an audio file
  posted : Bytes → Event
  album : List Bytes → Bytes → Event
  file : Bytes → Bytes → Event
  audio : Bytes → Event
  -- `RecordDownload`: the platform, the status and the error's text
  recorded : Bytes → Bytes → Bytes → Event

abbrev pub Outcome : Type 0
Outcome = List Event × Option Bytes

-- `userFacingError` into the status message, and the failure into the database
unfoldable pub report : ℤ → DownloadPayload → Bytes → Bytes → List Event
report admin_id p platform text =
    let (key, detail) = user_facing_error admin_id p.user_id (some text) in
    edited key detail ∷ recorded platform (codes "failed") text ∷ []

-- `via` is the footer's text. The line ends are of the source.
unfoldable pub build_media_caption : Bytes → Bytes → Bool → Bytes
build_media_caption title via no_footer =
    let text = trim_space title in
    if no_footer then text else if is_empty text then via else text ++ b'\n' ∷ (b'\n' ∷ via)

module _ (R : Redis) (c : Client) where
  unfoldable pub check_cancelled : DownloadPayload → R.State → Bool
  check_cancelled p r =
      if is_empty p.lock_token || is_empty p.lock_scene
      then false
      else elim (is_download_cancelled R c p.lock_scene p.user_id p.lock_token r) [
        | none ↦ false
        | some cancelled ↦ cancelled
      ]

  unfoldable pub release_task_lock : DownloadPayload → R.State → R.State
  release_task_lock p r =
      if is_empty p.lock_token || is_empty p.lock_scene
      then r
      else (release_user_lock R c p.user_id p.lock_scene p.lock_token r).1

  -- a task's handler around its run, which leaves the server alone
  unfoldable pub framed : DownloadPayload → Outcome → R.State → Outcome × R.State
  framed p run r = (
    (if check_cancelled p r then (edited (codes "download.cancelled") none ∷ [], none) else run),
    release_task_lock p r,
  )
