-- ===== src/Handler/Carousel.antt =====
-- The button that downloads a carousel's pictures: go/internal/handler/tiktok_carousel.go. The user's
-- watermark setting and the token that the lock draws are arguments.
pub mod Asked
use saveinator.Prelude.{
  Bool, true, false, not, List, [], ◌∷◌, Option, none, some, Bytes, codes, ℤ, eq_ℤ, if◌then◌else◌,
}
use saveinator.Queue.Payload.{DownloadPayload, zero_download}
use saveinator.Queue.Asynq.{Asynq}
use saveinator.Queue.Client.{enqueue_tiktok_carousel, enqueue}
use saveinator.Redis.{Redis}
use saveinator.Redisx.Client.{Client, acquired, busy, failed}
use saveinator.Tiktok.Carousel.{CarouselSession, Coding, parse_carousel_callback, get}
use saveinator.Handler.Reply.{Reply, answer, unbutton}
use saveinator.Handler.Enqueue.{lock_ttl}
use saveinator.Handler.Music.{acquire}

abbrev pub scene : Bytes
scene = codes "tiktok"

unfoldable pub carousel_payload : CarouselSession → ℤ → Bytes → Bytes → Bool → DownloadPayload
carousel_payload session user_id lock_token token no_watermark = record zero_download {
  url = session.url;
  platform = scene;
  chat_id = session.chat_id;
  user_id = user_id;
  lang = session.lang;
  lock_token = lock_token;
  lock_scene = scene;
  session_token = token;
  no_watermark = no_watermark;
}

-- a session that is read and belongs to the user
abbrev pub session_for : ℤ → Option (Option CarouselSession) → Option CarouselSession
session_for user_id none = none
session_for user_id (some none) = none
session_for user_id (some (some session)) =
    if eq_ℤ session.user_id user_id then some session else none

abbrev pub alert : Bytes → List Reply
alert key = answer (some key) true ∷ []

module _ (R : Redis) (A : Asynq) (c : Client) (J : Coding) (admin_id timeout_sec : ℤ) where
  -- The error of the enqueuing is dropped. The last argument of the query is whether it has a message.
  unfoldable pub on_tiktok_carousel :
      ℤ → Bytes → Bool → Bytes → Bool → R.State → A.State → List Reply × R.State × A.State
  on_tiktok_carousel from payload has_message drawn no_watermark r a =
      elim (parse_carousel_callback payload) [
        | none ↦ (answer none false ∷ [], r, a)
        | some (user_id, token) ↦
            if not (eq_ℤ from user_id)
            then (alert (codes "download.cancel_not_allowed"), r, a)
            else elim (session_for user_id (get R J token r)) [
              | none ↦ (alert (codes "tiktok.carousel_images_unavailable"), r, a)
              | some session ↦
                  let (reply, r') =
                    acquire R A c admin_id user_id scene (lock_ttl timeout_sec) drawn r in
                  elim reply [
                    | failed ↦ (alert (codes "errors.busy"), r', a)
                    | busy ↦ (alert (codes "errors.busy"), r', a)
                    | acquired lock_token ↦ (
                      answer (some (codes "tiktok.carousel_images_downloading")) false
                          ∷ (if has_message then unbutton ∷ [] else []),
                      r',
                      (enqueue A
                          (enqueue_tiktok_carousel
                            (carousel_payload session user_id lock_token token no_watermark))
                          a).1,
                    )
                  ]
            ]
      ]
