-- ===== src/Handler/Incoming/Held.antt =====
-- A user's lock keeps every link but those of YouTube from being queued.
use saveinator.Prelude.{
  ◌≡◌, ◌≢◌, refl, Bool, true, false, some, arith, Bytes, codes, eq_bytes, ℤ, Bool-cases, inl, inr,
}
use saveinator.Linkparser.{ParsedLink}
use saveinator.Queue.Asynq.{Asynq}
use saveinator.Redis.{Redis}
use saveinator.Redisx.Client.{Client, lock_key}
use saveinator.Youtube.Session.{Coding}
use saveinator.Handler.Enqueue.{Job, is_admin, should_acquire_user_lock}
use saveinator.Handler.Enqueue.Releases.{enqueue_link-held}
use saveinator.Handler.Music.Links.{From}
use saveinator.Handler.Music.Locks.{handle-held}
use saveinator.Handler.Incoming.Dispatch.{
  Route, say, spotify_route, yandex_route, soundcloud_route, youtube_route, queue_route, if_enabled,
  route_of, World, job_of, enqueue_or_reply_error, run_route, dispatch_link,
}

if_enabled-apart :
    (b : Bool) (key : Bytes) (route : Route)
    → route ≢ youtube_route
    → if_enabled b key route ≢ youtube_route
if_enabled-apart true key route ne = ne
if_enabled-apart false key route ne = λ p. cc

route_of-apart :
    (enabled : Bytes → Bool) (youtube_enabled : Bool) (link : ParsedLink)
    → eq_bytes link.platform (codes "youtube") ≡ false
    → route_of enabled youtube_enabled link ≢ youtube_route
unfolding route_of
route_of-apart enabled youtube_enabled link other =
    elim (Bool-cases (eq_bytes link.platform (codes "spotify"))) [
      | inl h0 ↦ rw (h0, route_of) (if_enabled-apart (enabled link.platform) _ _ (λ p. cc))
      | inr h0 ↦ elim (Bool-cases (eq_bytes link.platform (codes "yandexmusic"))) [
        | inl h1 ↦ rw (h0, h1, route_of) (if_enabled-apart (enabled link.platform) _ _ (λ p. cc))
        | inr h1 ↦ elim (Bool-cases (eq_bytes link.platform (codes "soundcloud"))) [
          | inl h2 ↦
              rw (h0, h1, h2, route_of) (if_enabled-apart (enabled link.platform) _ _ (λ p. cc))
          | inr h2 ↦ elim (Bool-cases (eq_bytes link.platform (codes "pinterest"))) [
            | inl h3 ↦
                rw (h0, h1, h2, h3, route_of)
                  (if_enabled-apart (enabled link.platform) _ _ (λ p. cc))
            | inr h3 ↦ elim (Bool-cases (eq_bytes link.platform (codes "tiktok"))) [
              | inl h4 ↦ rw (h0, h1, h2, h3, h4, route_of) (λ p. cc)
              | inr h4 ↦ elim (Bool-cases (eq_bytes link.platform (codes "instagram"))) [
                | inl h5 ↦
                    rw (h0, h1, h2, h3, h4, h5, route_of)
                      (if_enabled-apart (enabled link.platform) _ _ (λ p. cc))
                | inr h5 ↦ elim (Bool-cases (eq_bytes link.platform (codes "reddit"))) [
                  | inl h6 ↦
                      rw (h0, h1, h2, h3, h4, h5, h6, route_of)
                        (if_enabled-apart (enabled link.platform) _ _ (λ p. cc))
                  | inr h6 ↦ elim (Bool-cases (eq_bytes link.platform (codes "unknown"))) [
                    | inl h7 ↦ rw (h0, h1, h2, h3, h4, h5, h6, h7, route_of) (λ p. cc)
                    | inr h7 ↦ rw (h0, h1, h2, h3, h4, h5, h6, h7, other, route_of) (λ p. cc)
                  ]
                ]
              ]
            ]
          ]
        ]
      ]
    ]

wanted :
    (admin_id user : ℤ)
    → is_admin admin_id user ≡ false
    → should_acquire_user_lock user false admin_id ≡ true
unfolding is_admin should_acquire_user_lock
wanted admin_id user h = ground (arith, h)

module _ (R : Redis) (A : Asynq) (c : Client) (J : Coding) (w : World) where
  enqueue_or_reply_error-held :
      (j : Job) (held : Bytes) (r : R.State) (a : A.State)
      → should_acquire_user_lock j.user j.batch w.admin_id ≡ true
      → R.text (lock_key c j.user) r ≡ some held
      → ((enqueue_or_reply_error R A c J w j r a).0 ≡ false)
        × ((enqueue_or_reply_error R A c J w j r a).3 ≡ a)
  unfolding enqueue_or_reply_error
  enqueue_or_reply_error-held j held r a wants h =
      elim (enqueue_link-held R A c w.admin_id w.timeout_sec j w.around.drawn held w.around.status
        w.no_watermark r a wants h) [
          | inl (e, same) ↦ rw (e, same, enqueue_or_reply_error) (refl, refl)
          | inr e ↦ rw (e, enqueue_or_reply_error) (refl, refl)
        ]

  run_route-held :
      (m : From) (link : ParsedLink) (route : Route) (held : Bytes) (r : R.State) (a : A.State)
      → route ≢ youtube_route
      → is_admin w.admin_id m.user ≡ false
      → R.text (lock_key c m.user) r ≡ some held
      → ((run_route R A c J w m link false route r a).0 ≡ false)
        × ((run_route R A c J w m link false route r a).3 ≡ a)
  unfolding run_route job_of
  run_route-held m link (say key) held r a ne plain h = (refl, refl)
  run_route-held m link spotify_route held r a ne plain h =
      handle-held R A c w.admin_id w.timeouts _ w.spotify_max_tracks w.around held r a plain h
  run_route-held m link yandex_route held r a ne plain h =
      handle-held R A c w.admin_id w.timeouts _ w.yandex_max_tracks w.around held r a plain h
  run_route-held m link soundcloud_route held r a ne plain h =
      handle-held R A c w.admin_id w.timeouts _ w.soundcloud_max_tracks w.around held r a plain h
  run_route-held m link youtube_route held r a ne plain h = absurd (ne refl)
  run_route-held m link (queue_route scene task_type) held r a ne plain h =
      enqueue_or_reply_error-held (job_of m link scene task_type false) held r a
        (wanted w.admin_id m.user plain) h

  -- While the lock of a user who is no administrator is held, the only link of a message, unless it is
  -- one to YouTube, queues no task, whatever its platform: the broker's state is as it was.
  pub dispatch_link-held :
      (m : From) (link : ParsedLink) (held : Bytes) (r : R.State) (a : A.State)
      → eq_bytes link.platform (codes "youtube") ≡ false
      → is_admin w.admin_id m.user ≡ false
      → R.text (lock_key c m.user) r ≡ some held
      → ((dispatch_link R A c J w m link false r a).0 ≡ false)
        × ((dispatch_link R A c J w m link false r a).3 ≡ a)
  unfolding dispatch_link
  dispatch_link-held m link held r a other plain h =
      run_route-held m link (route_of w.enabled w.youtube_enabled link) held r a
        (route_of-apart w.enabled w.youtube_enabled link other) plain h
