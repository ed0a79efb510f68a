-- ===== src/Handler/Cancel.antt =====
-- The cancel and queue buttons: go/internal/handler/cancel.go, and go/internal/botkit/cancel.go,
-- which has the same handlers.
pub mod Frees
use saveinator.Prelude.{
  ℕ, ◌*◌, Bool, true, false, not, List, [], ◌∷◌, ◌++◌, Option, none, some, Bytes, codes, ℤ, eq_ℤ,
  if◌then◌else◌,
}
use saveinator.Callback.Cancel.{Data, callback_data, parse_cancel, parse_queue}
use saveinator.Redis.{Redis}
use saveinator.Redisx.Client.{
  Client, ActiveDownload, set_download_cancelled, release_user_lock, get_active_download,
}
use saveinator.Handler.Reply.{Reply, answer, edit}

-- 2*time.Hour
abbrev pub cancel_ttl : ℕ
cancel_ttl = 2 * 3600

abbrev alert : Bytes → List Reply
alert key = answer (some key) true ∷ []

abbrev edit_if : Bool → Bytes → Option Bytes → List Reply
edit_if has_message key button = if has_message then edit key button ∷ [] else []

-- An error of the reading counts as no download.
abbrev pub active_or_none : Option (Option ActiveDownload) → Option ActiveDownload
active_or_none none = none
active_or_none (some found) = found

module _ (R : Redis) (c : Client) where
  -- the two writes behind the checks; their errors are dropped
  unfoldable pub cancel_download : Data → R.State → R.State
  cancel_download d s =
      let marked = (set_download_cancelled R c d.scenario d.user_id d.token cancel_ttl s).1 in
      (release_user_lock R c d.user_id d.scenario d.token marked).1

  unfoldable pub on_cancel_download : ℤ → Bytes → Bool → R.State → List Reply × R.State
  on_cancel_download from payload has_message s = elim (parse_cancel payload) [
    | none ↦ (alert (codes "download.cancel_unavailable"), s)
    | some d ↦
        if not (eq_ℤ from d.user_id) then (alert (codes "download.cancel_not_allowed"), s) else (
          edit_if has_message (codes "download.cancelled") none
              ++ answer (some (codes "download.cancel_done")) false ∷ [],
          cancel_download d s,
        )
  ]

  -- The state is only read. The button is that of `ActiveQueueKeyboard`.
  unfoldable pub on_download_queue : ℤ → Bytes → Bool → R.State → List Reply
  on_download_queue from payload has_message s = elim (parse_queue payload) [
    | none ↦ alert (codes "download.queue_unavailable")
    | some user_id ↦
        if not (eq_ℤ from user_id)
        then alert (codes "download.queue_not_allowed")
        else elim (active_or_none (get_active_download R c user_id s)) [
          | none ↦ edit_if has_message (codes "download.queue_empty") none ++ answer none false ∷ []
          | some active ↦
              edit_if has_message (codes "download.queue_title")
                (some (callback_data active.scenario active.user_id active.token))
              ++ answer none false ∷ []
        ]
  ]
