-- ===== src/Worker/Released.antt =====
-- The lock behind the handlers of TikTok's and Instagram's tasks.
use saveinator.Prelude.{ℕ, ◌≡◌, refl, true, false, ◌||◌, Option, none, some, Bytes, is_empty, ℤ}
use saveinator.Linkparser.{instagram, tiktok}
use saveinator.Queue.Payload.{DownloadPayload}
use saveinator.Redis.{Redis}
use saveinator.Redisx.Client.{Client, lock_key, lock_value, release_user_lock}
use saveinator.Worker.Task.Freed.{framed-freed}
use saveinator.Worker.Instagram.{Answers, run_instagram, handle_instagram}
use saveinator.Worker.Tiktok.{Fetched, run_tiktok, handle_tiktok}

module _ (R : Redis) (c : Client) (admin_id : ℤ) (via decoding : Bytes) (p : DownloadPayload) where
  -- Where the task names a lock, the user's lock holds its value and the server answers the release,
  -- no lock of the user is left behind the handlers of TikTok's and Instagram's tasks, whatever the
  -- downloader and Telegram answer, a cancelled task and an error for the queue included.
  pub handle-freed :
      (made sent : Option Bytes) (answer : Fetched) (max_items : ℕ) (a : Answers) (r : R.State)
      → (is_empty p.lock_token || is_empty p.lock_scene) ≡ false
      → R.text (lock_key c p.user_id) r ≡ some (lock_value p.lock_scene p.lock_token)
      → (release_user_lock R c p.user_id p.lock_scene p.lock_token r).0 ≡ true
      → (R.text
            (lock_key c p.user_id)
            (handle_tiktok R c admin_id via decoding made answer sent (some p) r).1
          ≡ none)
        × (R.text
              (lock_key c p.user_id)
              (handle_instagram R c admin_id max_items via decoding a (some p) r).1
            ≡ none)
  unfolding handle_tiktok handle_instagram
  handle-freed made sent answer max_items a r named held ok =
      let of_tiktok : DownloadPayload = record p { platform = tiktok } in
      let of_instagram : DownloadPayload = record p { platform = instagram } in
      (
        (framed-freed R c of_tiktok (run_tiktok admin_id of_tiktok via made answer sent) _ r named
              held ok).0
            refl,
        (framed-freed R c of_instagram (run_instagram admin_id of_instagram max_items via a) _ r
              named held ok).0
            refl,
      )
