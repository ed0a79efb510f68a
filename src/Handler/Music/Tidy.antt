-- ===== src/Handler/Music/Tidy.antt =====
-- Behind the lock, a music handler either queues a task and keeps the lock, or gives the lock back.
use saveinator.Prelude.{
  ◌≡◌, ◌≢◌, ◌⊎◌, refl, true, false, [], Option, Bytes, ℤ, Bool-cases, Option-cases, List-cases, inl,
  inr,
}
use saveinator.Queue.Asynq.{Asynq, Request}
use saveinator.Queue.Client.{enqueue}
use saveinator.Redis.{Redis}
use saveinator.Redisx.Client.{Client}
use saveinator.Handler.Music.{
  Release, Fetched, Timeouts, FetchError, found, refused, Around, Result, release_lock, leave,
  queue_release,
}
use saveinator.Handler.Music.Links.{
  From, spotify, yandex_music, soundcloud, spotify_locked, yandex_locked,
  send_yandex_card_and_enqueue, soundcloud_locked,
}

Fetched-cases :
    (f : Fetched) → ((e : FetchError) × (f ≡ refused e)) ⊎ ((x : Release) × (f ≡ found x))
Fetched-cases (refused e) = inl (e, refl)
Fetched-cases (found x) = inr (x, refl)

module _ (R : Redis) (A : Asynq) (c : Client) (admin_id : ℤ) where
  -- A task is queued and the lock is as it was, or none is and the lock is given back; and something
  -- is told.
  abbrev pub Tidy : ℤ → Bytes → Bytes → R.State → Result R A → Type 0
  Tidy user scene token r out =
      (((out.0 ≡ true) × (out.2 ≡ r))
        ⊎ ((out.0 ≡ false) × (out.2 ≡ release_lock R A c admin_id user scene token r)))
      × (out.1 ≢ [])

  pub queue_release-Tidy :
      (user : ℤ) (scene token starting broken : Bytes) (make : ℤ → Bytes → Option Request)
      (w : Around) (release : Release) (r : R.State) (a : A.State)
      → Tidy user scene token r
          (queue_release R A c admin_id user scene token starting broken make w release r a)
  unfolding queue_release leave
  queue_release-Tidy user scene token starting broken make w release r a =
      elim (Bool-cases w.download_enabled) [
        | inr e ↦ rw (e, queue_release) (inr (refl, refl), λ p. cc)
        | inl e ↦ elim (List-cases release.tracks) [
          | inl e1 ↦ rw (e, e1, queue_release) (inr (refl, refl), λ p. cc)
          | inr (x, rest, e1) ↦ elim (Option-cases (w.marshal release)) [
            | inl e2 ↦ rw (e, e1, e2, queue_release) (inr (refl, refl), λ p. cc)
            | inr (json, e2) ↦ elim (Option-cases w.status) [
              | inl e3 ↦ rw (e, e1, e2, e3, queue_release) (inr (refl, refl), λ p. cc)
              | inr (m, e3) ↦ elim (Bool-cases (enqueue A (make m json) a).0) [
                | inl e4 ↦ rw (e, e1, e2, e3, e4, queue_release) (inl (refl, refl), λ p. cc)
                | inr e4 ↦ rw (e, e1, e2, e3, e4, queue_release) (inr (refl, refl), λ p. cc)
              ]
            ]
          ]
        ]
      ]

  pub spotify-Tidy :
      (t : Timeouts) (m : From) (kind id : Bytes) (w : Around) (token : Bytes) (r : R.State)
      (a : A.State)
      → Tidy m.user spotify token r (spotify_locked R A c admin_id t m kind id w token r a)
  unfolding spotify_locked leave
  spotify-Tidy t m kind id w token r a = elim (Bool-cases w.config_enabled) [
    | inr e ↦ rw (e, spotify_locked) (inr (refl, refl), λ p. cc)
    | inl e ↦ elim (Bool-cases w.client_enabled) [
      | inr e1 ↦ rw (e, e1, spotify_locked) (inr (refl, refl), λ p. cc)
      | inl e1 ↦ elim (Fetched-cases w.fetched) [
        | inl (x, e2) ↦ rw (e, e1, e2, spotify_locked) (inr (refl, refl), λ p. cc)
        | inr (release, e2) ↦
            rw (e, e1, e2, spotify_locked)
              (queue_release-Tidy m.user spotify token _ _ _ w release r a)
      ]
    ]
  ]

  pub yandex-Tidy :
      (t : Timeouts) (m : From) (w : Around) (token : Bytes) (r : R.State) (a : A.State)
      → Tidy m.user yandex_music token r (yandex_locked R A c admin_id t m w token r a)
  unfolding yandex_locked leave send_yandex_card_and_enqueue
  yandex-Tidy t m w token r a = elim (Bool-cases w.client_enabled) [
    | inr e1 ↦ rw (e1, yandex_locked) (inr (refl, refl), λ p. cc)
    | inl e1 ↦ elim (Fetched-cases w.fetched) [
      | inl (x, e2) ↦ rw (e1, e2, yandex_locked) (inr (refl, refl), λ p. cc)
      | inr (release, e2) ↦
          rw (e1, e2, yandex_locked)
            (queue_release-Tidy m.user yandex_music token _ _ _ w release r a)
    ]
  ]

  pub soundcloud-Tidy :
      (t : Timeouts) (m : From) (url : Bytes) (w : Around) (token : Bytes) (r : R.State)
      (a : A.State)
      → Tidy m.user soundcloud token r (soundcloud_locked R A c admin_id t m url w token r a)
  unfolding soundcloud_locked leave
  soundcloud-Tidy t m url w token r a = elim (Bool-cases w.config_enabled) [
    | inr e1 ↦ rw (e1, soundcloud_locked) (inr (refl, refl), λ p. cc)
    | inl e1 ↦ elim (Fetched-cases w.fetched) [
      | inl (x, e2) ↦ rw (e1, e2, soundcloud_locked) (inr (refl, refl), λ p. cc)
      | inr (release, e2) ↦
          rw (e1, e2, soundcloud_locked)
            (queue_release-Tidy m.user soundcloud token _ _ _ w release r a)
    ]
  ]
