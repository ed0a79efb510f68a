-- ===== src/Handler/Music.antt =====
-- The links of music services: go/internal/handler/music.go. This module has what the handlers share,
-- and Music/Links the handlers. What the services' clients, Telegram and `encoding/json` answer is an
-- argument, and so are the readings of the settings. Durations are in seconds; up to 9·10⁹ of them
-- Go's nanoseconds do not overflow, and a negative timeout of a track is not modelled.
pub mod Links
pub mod Ways
pub mod Tidy
pub mod Behind
pub mod Locks
use saveinator.Prelude.{
  ℕ, zero, suc, ◌+◌, ◌*◌, Bool, true, false, List, [], ◌∷◌, ◌++◌, Option, none, some, Bytes, codes,
  eq_bytes, is_empty, ℤ, pos, negsuc, if◌then◌else◌,
}
use saveinator.Callback.Cancel.{keyboard, queue_button}
use saveinator.Queue.Payload.{MusicPayload}
use saveinator.Queue.Asynq.{Asynq, Request}
use saveinator.Queue.Client.{enqueue}
use saveinator.Redis.{Redis}
use saveinator.Redisx.Client.{
  Client, Acquired, acquired, busy, failed, acquire_user_lock, release_user_lock,
}
use saveinator.Handler.Reply.{Reply, send, edit, photo, card}
use saveinator.Handler.Enqueue.{is_admin, lock_ttl}

-- A track and a release, as far as the handlers read them.
pub record Track : Type 0 where
  pub source_id : Bytes
  pub url : Bytes

pub record Release : Type 0 where
  pub cover : Bytes
  pub album_id : Bytes
  pub url : Bytes
  pub tracks : List Track

-- The errors of the clients that a handler tells apart: `ErrNotFound`, `ErrAuth`, `ErrGeo`,
-- `ErrTooLarge`, and any other.
pub data FetchError : Type 0 where
  not_found auth geo too_large other : FetchError

pub data Fetched : Type 0 where
  found : Release → Fetched
  refused : FetchError → Fetched

-- What a handler reads of the code around it: the token that the lock draws, the settings
-- `….enabled` of the configuration and `….download_enabled`, the client's `Enabled` and answer, the
-- card's text, the release in JSON, and the status message's id.
pub record Around : Type 0 where
  pub drawn : Bytes
  pub config_enabled : Bool
  pub client_enabled : Bool
  pub fetched : Fetched
  pub download_enabled : Bool
  pub card_text : Release → Bool → Bytes
  pub marshal : Release → Option Bytes
  pub status : Option ℤ

-- The timeouts of a track, and that of a download.
pub record Timeouts : Type 0 where
  pub spotify : ℕ
  pub yandex_music : ℕ
  pub soundcloud : ℕ
  pub download : ℤ

-- at least one track
unfoldable pub tracks_locked : ℤ → ℕ
tracks_locked (pos zero) = 1
tracks_locked (pos (suc n)) = suc n
tracks_locked (negsuc n) = 1

unfoldable pub music_lock_ttl : Timeouts → Bytes → ℤ → ℕ
music_lock_ttl t scene track_count =
    if eq_bytes scene (codes "spotify")
    then t.spotify * tracks_locked track_count + 90
    else if eq_bytes scene (codes "yandexmusic")
    then t.yandex_music * tracks_locked track_count + 90
    else if eq_bytes scene (codes "soundcloud")
    then t.soundcloud * tracks_locked track_count + 90
    else lock_ttl t.download

unfoldable pub send_music_card : Bytes → Bytes → Reply
send_music_card cover text = if is_empty cover then card text else photo cover text

unfoldable pub reply_busy : ℤ → Reply
reply_busy user = send (codes "errors.busy") (queue_button user)

-- Whether a task was queued, what was sent, and the states behind.
abbrev pub Result : Redis → Asynq → Type 0
Result R A = Bool × List Reply × R.State × A.State

module _ (R : Redis) (A : Asynq) (c : Client) (admin_id : ℤ) where
  -- `b.acquireUserLock` of handler/bot.go: an administrator takes no lock
  unfoldable pub acquire : ℤ → Bytes → ℕ → Bytes → R.State → Acquired × R.State
  acquire user scene ttl drawn r =
      if is_admin admin_id user
      then (acquired [], r)
      else acquire_user_lock R c user scene drawn ttl r

  -- `releaseLock`
  unfoldable pub release_lock : ℤ → Bytes → Bytes → R.State → R.State
  release_lock user scene token r =
      if is_empty token then r else (release_user_lock R c user scene token r).1

  -- a message, and the lock given back
  unfoldable pub leave : ℤ → Bytes → Bytes → List Reply → R.State → A.State → Result R A
  leave user scene token replies r a = (false, replies, release_lock user scene token r, a)

  -- The handlers' common beginning: `body` runs behind the lock.
  unfoldable pub behind_lock :
      ℤ
      → Bytes
      → ℕ
      → Bytes
      → (Bytes → R.State → A.State → Result R A)
      → R.State
      → A.State
      → Result R A
  behind_lock user scene ttl drawn body r a =
      let (reply, r') = acquire user scene ttl drawn r in
      elim reply [
        | failed ↦ (false, [], r', a)
        | busy ↦ (false, reply_busy user ∷ [], r', a)
        | acquired token ↦ body token r' a
      ]

  -- Their common end, from the reading of `….download_enabled` on: the card, the status message
  -- and the task, with the messages `starting` and `broken` and what `make` asks of the broker.
  unfoldable pub queue_release :
      ℤ
      → Bytes
      → Bytes
      → Bytes
      → Bytes
      → (ℤ → Bytes → Option Request)
      → Around
      → Release
      → R.State
      → A.State
      → Result R A
  queue_release user scene token starting broken make w release r a =
      let shown = send_music_card release.cover (w.card_text release w.download_enabled) in
      let none_left : Result R A = leave user scene token (shown ∷ []) r a in
      let told =
        shown ∷ send starting (if is_empty token then none else keyboard scene user token) ∷ [] in
      if w.download_enabled
      then elim release.tracks [
        | [] ↦ none_left
        | track ∷ tracks ↦ elim (w.marshal release) [
          | none ↦ none_left
          | some json ↦ elim w.status [
            | none ↦ leave user scene token told r a
            | some message_id ↦
                let (ok, a') = enqueue A (make message_id json) a in
                if ok
                then (true, told, r, a')
                else leave user scene token (told ++ edit broken none ∷ []) r a'
          ]
        ]
      ]
      else none_left
