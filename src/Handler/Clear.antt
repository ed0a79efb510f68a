-- ===== src/Handler/Clear.antt =====
-- The command /clear: go/internal/handler/clear.go, and go/internal/botkit/clear.go, which does the
-- same and names the bot's queue. Whether an inspector of the broker is made is an argument.
pub mod Frees
use saveinator.Prelude.{
  Bool, true, false, ◌||◌, List, [], ◌∷◌, Option, none, some, Bytes, codes, ℤ, if◌then◌else◌,
}
use saveinator.Queue.Asynq.{Asynq}
use saveinator.Queue.Clear.{LockRef, Cleared, any, clear_user_tasks}
use saveinator.Redis.{Redis}
use saveinator.Redisx.Client.{
  Client, ActiveDownload, set_download_cancelled, force_release_user_lock, get_active_download,
}
use saveinator.Handler.Reply.{Reply, send}
use saveinator.Handler.Cancel.{active_or_none, cancel_ttl}

abbrev message : Bytes → List Reply
message key = send key none ∷ []

abbrev pub success_text : Bool → Bytes
success_text cleared = if cleared then codes "clear.success" else codes "clear.empty"

abbrev pub is_active : Option ActiveDownload → Bool
is_active none = false
is_active (some active) = true

module _ (R : Redis) (c : Client) where
  -- `err == nil && active != nil`; the error of the write is dropped.
  unfoldable pub mark_active : ℤ → R.State → R.State
  mark_active user r = elim (active_or_none (get_active_download R c user r)) [
    | none ↦ r
    | some active ↦ (set_download_cancelled R c active.scenario user active.token cancel_ttl r).1
  ]

  -- The first half: `cleared` and the state. A release without an error sets `cleared` only where there
  -- is an active download, so it is set already.
  unfoldable pub clear_lock : ℤ → R.State → Bool × R.State
  clear_lock user r = (
    is_active (active_or_none (get_active_download R c user r)),
    (force_release_user_lock R c user (mark_active user r)).1,
  )

  -- the loop over `lockRefs`
  unfoldable pub mark_refs : ℤ → List LockRef → R.State → R.State
  mark_refs user [] r = r
  mark_refs user (ref ∷ refs) r =
      mark_refs user refs (set_download_cancelled R c ref.scene user ref.token cancel_ttl r).1

module _ (R : Redis) (A : Asynq) (c : Client) where
  abbrev answer_cleared : ℤ → Bool → Cleared × A.State → R.State → List Reply × R.State × A.State
  answer_cleared user cleared (part, a) r = elim part.failed [
    | true ↦ (message (codes "errors.generic"), r, a)
    | false ↦ (
      message (success_text (cleared || any part.result)),
      mark_refs R c user part.lock_refs r,
      a,
    )
  ]

  -- the handlers' common body, by the queue names passed on
  abbrev pub clear_queues_of :
      List Bytes → ℤ → Bool → R.State → A.State → List Reply × R.State × A.State
  clear_queues_of queue_names user inspector r a =
      let (cleared, r') = clear_lock R c user r in
      if inspector
      then answer_cleared user cleared (clear_user_tasks A user queue_names a) r'
      else (message (codes "errors.generic"), r', a)

  unfoldable pub on_clear : ℤ → Bool → R.State → A.State → List Reply × R.State × A.State
  on_clear user inspector r a = clear_queues_of [] user inspector r a

  -- the handler of the bots of go/internal/botkit, with `b.bc.Queue`
  unfoldable pub on_clear_fleet :
      Bytes → ℤ → Bool → R.State → A.State → List Reply × R.State × A.State
  on_clear_fleet queue user inspector r a = clear_queues_of (queue ∷ []) user inspector r a
