-- ===== src/Worker/Task/Freed.antt =====
-- The lock behind the handlers of the download tasks.
use saveinator.Prelude.{◌≡◌, ◌≢◌, true, false, ◌||◌, none, some, Bytes, is_empty}
use saveinator.Queue.Payload.{DownloadPayload}
use saveinator.Redis.{Redis}
use saveinator.Redisx.Client.{Client, lock_key, lock_value, release_user_lock}
use saveinator.Redisx.Lock.{text-release}
use saveinator.Worker.Task.{Outcome, release_task_lock, framed}

module _ (R : Redis) (c : Client) (p : DownloadPayload) where
  -- the frame's release, where the lock is held
  pub framed-freed :
      (run : Outcome) (held : Bytes) (r : R.State)
      → (is_empty p.lock_token || is_empty p.lock_scene) ≡ false
      → R.text (lock_key c p.user_id) r ≡ some held
      → (release_user_lock R c p.user_id p.lock_scene p.lock_token r).0 ≡ true
      → (held ≡ lock_value p.lock_scene p.lock_token
          → R.text (lock_key c p.user_id) (framed R c p run r).1 ≡ none)
        × (held ≢ lock_value p.lock_scene p.lock_token → (framed R c p run r).1 ≡ r)
  unfolding framed release_task_lock
  framed-freed run held r named h ok =
      rw named (text-release R c p.user_id p.lock_scene p.lock_token held r h ok)
