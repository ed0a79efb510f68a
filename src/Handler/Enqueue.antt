-- ===== src/Handler/Enqueue.antt =====
-- From a link to a queued task, under the user's lock: `enqueue` of go/internal/handler/bot.go and the
-- decisions of handler/deps.go and handler/ban.go. The token that the lock draws, Telegram's answer to
-- the status message and the user's watermark setting are arguments. Durations are in seconds; up to
-- 9·10⁹ of them Go's nanoseconds do not overflow.
pub mod Releases
pub mod Queued
use saveinator.Prelude.{
  ℕ, ◌+◌, Bool, true, false, ◌&&◌, not, List, [], ◌∷◌, Option, none, some, Bytes, codes, eq_bytes,
  is_empty, ℤ, pos, negsuc, eq_ℤ, ltb, if◌then◌else◌,
}
use saveinator.Callback.Cancel.{keyboard, queue_button}
use saveinator.Queue.Payload.{DownloadPayload, zero_download}
use saveinator.Queue.Asynq.{Asynq, Request}
use saveinator.Queue.Client.{
  type_tiktok, type_pinterest, type_instagram, type_reddit, enqueue_tiktok,
  enqueue_pinterest_default, enqueue_instagram, enqueue_reddit, enqueue_download, enqueue,
}
use saveinator.Redis.{Redis}
use saveinator.Redisx.Client.{
  Client, Acquired, acquired, busy, failed, acquire_user_lock, release_user_lock,
}
use saveinator.Handler.Reply.{Reply, send}

-- What `enqueue` reads of the message, the link and its own arguments.
pub record Job : Type 0 where
  pub user : ℤ
  pub chat : ℤ
  pub lang : Bytes
  pub url : Bytes
  pub platform : Bytes
  pub x_status_id : Bytes
  pub scene : Bytes
  pub task_type : Bytes
  pub batch : Bool

-- How `enqueue` returns: `queued` and `rejected` without an error.
pub data Outcome : Type 0 where
  queued rejected lock_error send_error queue_error : Outcome

unfoldable pub should_acquire_user_lock : ℤ → Bool → ℤ → Bool
should_acquire_user_lock user_id batch admin_id =
    if batch
    then false
    else if not (eq_ℤ admin_id (pos 0)) && eq_ℤ user_id admin_id
    then false
    else true

unfoldable pub is_admin : ℤ → ℤ → Bool
is_admin admin_id user_id = not (eq_ℤ admin_id (pos 0)) && eq_ℤ user_id admin_id

-- The timeout, at least a minute, and half a minute more.
unfoldable pub lock_ttl : ℤ → ℕ
lock_ttl (pos n) = (if ltb n 60 then 60 else n) + 30
lock_ttl (negsuc n) = 60 + 30

unfoldable pub payload_of : Job → Bytes → ℤ → Bool → DownloadPayload
payload_of j token message_id no_watermark = record zero_download {
  url = j.url;
  platform = j.platform;
  chat_id = j.chat;
  user_id = j.user;
  message_id = message_id;
  lang = j.lang;
  lock_token = token;
  lock_scene = j.scene;
  x_status_id = j.x_status_id;
  format_id = codes "best";
  no_watermark = no_watermark;
}

-- the switch over the task's type
unfoldable pub request_of : Bytes → DownloadPayload → Option Request
request_of task_type p =
    if eq_bytes task_type type_tiktok
    then enqueue_tiktok p
    else if eq_bytes task_type type_pinterest
    then enqueue_pinterest_default p
    else if eq_bytes task_type type_instagram
    then enqueue_instagram p
    else if eq_bytes task_type type_reddit
    then enqueue_reddit p
    else enqueue_download p

module _ (R : Redis) (A : Asynq) (c : Client) (admin_id timeout_sec : ℤ) where
  -- `b.acquireUserLock`: an administrator takes no lock.
  unfoldable pub acquire_or_admin : Job → Bytes → R.State → Acquired × R.State
  acquire_or_admin j drawn r =
      if is_admin admin_id j.user
      then (acquired [], r)
      else acquire_user_lock R c j.user j.scene drawn (lock_ttl timeout_sec) r

  -- an empty token where no lock is wanted
  unfoldable pub take_lock : Job → Bytes → R.State → Acquired × R.State
  take_lock j drawn r =
      if should_acquire_user_lock j.user j.batch admin_id
      then acquire_or_admin j drawn r
      else (acquired [], r)

  -- its error is dropped
  unfoldable pub free_lock : Job → Bytes → R.State → R.State
  free_lock j token r =
      if is_empty token then r else (release_user_lock R c j.user j.scene token r).1

  -- the status message with its cancel button
  unfoldable pub status_message : Job → Bytes → Reply
  status_message j token =
      send (codes "download.downloading")
        (if is_empty token then none else keyboard j.scene j.user token)

  -- behind the lock
  unfoldable pub enqueue_locked :
      Job → Bytes → Option ℤ → Bool → R.State → A.State → Outcome × R.State × A.State
  enqueue_locked j token status no_watermark r a = elim status [
    | none ↦ (send_error, free_lock j token r, a)
    | some message_id ↦
        let request = request_of j.task_type (payload_of j token message_id no_watermark) in
        let (ok, a') = enqueue A request a in
        if ok then (queued, r, a') else (queue_error, free_lock j token r, a')
  ]

  unfoldable pub enqueue_link :
      Job → Bytes → Option ℤ → Bool → R.State → A.State → Outcome × R.State × A.State
  enqueue_link j drawn status no_watermark r a =
      let (reply, r') = take_lock j drawn r in
      elim reply [
        | failed ↦ (lock_error, r', a)
        | busy ↦ (rejected, r', a)
        | acquired token ↦ enqueue_locked j token status no_watermark r' a
      ]

  -- what `enqueue` and `enqueueOrReplyError` send
  unfoldable pub replies : Job → Acquired → Outcome → List Reply
  replies j failed out = send (codes "errors.generic") none ∷ []
  replies j busy out = send (codes "errors.busy") (queue_button j.user) ∷ []
  replies j (acquired token) queued = status_message j token ∷ []
  replies j (acquired token) _ = status_message j token ∷ send (codes "errors.generic") none ∷ []
