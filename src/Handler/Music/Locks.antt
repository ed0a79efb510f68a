-- ===== src/Handler/Music/Locks.antt =====
-- Every way out of a music handler leaves the lock as it should be.
use saveinator.Prelude.{
  ◌≡◌, ◌≢◌, ◌⊎◌, refl, ◌∙◌, Bool, true, false, [], Option, none, some, Bytes, ℕ, ◌||◌, ◌&&◌, ℤ, pos,
  eq_ℤ, is_empty, Bool-cases, inl, inr, not, if◌then◌else◌,
}
use saveinator.Text.Search.{has_prefix, trim_prefix}
use saveinator.Queue.Asynq.{Asynq}
use saveinator.Redis.{Redis}
use saveinator.Redisx.Client.{Client, acquired, failed, lock_key, lock_value, release_user_lock}
use saveinator.Handler.Enqueue.{is_admin}
use saveinator.Handler.Music.{Around, Timeouts, Result, acquire, behind_lock}
use saveinator.Handler.Music.Links.{
  From, album_callback_prefix, is_numeric_id, spotify_link, spotify_locked, yandex_link,
  yandex_locked, on_yandex_album_download, soundcloud_link, soundcloud_locked, yandex_music,
}
use saveinator.Handler.Music.Ways.{
  Way, spotify_way, yandex_way, album_way, soundcloud_way, user_of, scene_of, ttl_of, handle,
  usable, said,
}
use saveinator.Handler.Music.Behind.{
  music_lock_ttl_positive, acquire-lock, behind_lock-lock, behind_lock_held, behind_lock-silent,
}
use saveinator.Handler.Music.Tidy.{Tidy, spotify-Tidy, yandex-Tidy, soundcloud-Tidy}

module _ (R : Redis) (A : Asynq) (c : Client) (admin_id : ℤ) where
  -- what a handler does to a lock it may take: nothing is queued and no state moves, or it runs
  -- a tidy body behind the lock
  abbrev pub HandlerPath : ℤ → Bytes → ℕ → Bytes → R.State → A.State → Result R A → Type 0
  HandlerPath user scene ttl drawn r a out =
      ((out.0 ≡ false) × (out.2 ≡ r) × (out.3 ≡ a) × (out.1 ≢ []))
      ⊎ ((body : Bytes → R.State → A.State → Result R A) × ((token : Bytes) (r' : R.State)
              (a' : A.State)
            → Tidy R A c admin_id user scene token r' (body token r' a'))
          × (out.0 ≡ (behind_lock R A c admin_id user scene ttl drawn body r a).0)
          × (out.2 ≡ (behind_lock R A c admin_id user scene ttl drawn body r a).2)
          × (out.3 ≡ (behind_lock R A c admin_id user scene ttl drawn body r a).3)
          × (out.1 ≡ [] → (behind_lock R A c admin_id user scene ttl drawn body r a).1 ≡ []))

  module _ (t : Timeouts) where
    handle-HandlerPath :
        (way : Way) (n : ℤ) (w : Around) (r : R.State) (a : A.State)
        → HandlerPath
            (user_of way)
            (scene_of way)
            (ttl_of t way n)
            w.drawn
            r
            a
            (handle R A c admin_id t way n w r a)
    unfolding handle spotify_link yandex_link on_yandex_album_download soundcloud_link
    handle-HandlerPath (spotify_way m kind id) n w r a =
        elim (Bool-cases (is_empty id || is_empty kind)) [
          | inl e ↦ rw (e, handle, spotify_link) (inl (refl, refl, refl, λ p. cc))
          | inr e ↦
              rw (e, handle, spotify_link)
                (inr (
                  spotify_locked R A c admin_id t m kind id w,
                  spotify-Tidy R A c admin_id t m kind id w,
                  refl,
                  refl,
                  refl,
                  λ p. p,
                ))
        ]
    handle-HandlerPath (yandex_way m album track) n w r a =
        elim (Bool-cases (is_empty album && is_empty track)) [
          | inl e ↦ rw (e, handle, yandex_link) (inl (refl, refl, refl, λ p. cc))
          | inr e ↦
              rw (e, handle, yandex_link)
                (inr (
                  yandex_locked R A c admin_id t m w,
                  yandex-Tidy R A c admin_id t m w,
                  refl,
                  refl,
                  refl,
                  λ p. p,
                ))
        ]
    handle-HandlerPath (album_way user none lang payload enabled) n w r a =
        elim (Bool-cases (eq_ℤ user (pos 0) || not (has_prefix payload album_callback_prefix))) [
          | inl e ↦ rw (e, handle, on_yandex_album_download) (inl (refl, refl, refl, λ p. cc))
          | inr e ↦ rw (e, handle, on_yandex_album_download) (inl (refl, refl, refl, λ p. cc))
        ]
    handle-HandlerPath (album_way user (some chat) lang payload enabled) n w r a =
        let m : From = record { user = user; chat = chat; lang = lang } in
        elim (Bool-cases (eq_ℤ user (pos 0) || not (has_prefix payload album_callback_prefix))) [
          | inl e ↦ rw (e, handle, on_yandex_album_download) (inl (refl, refl, refl, λ p. cc))
          | inr e ↦ elim (Bool-cases (is_numeric_id (trim_prefix payload album_callback_prefix))) [
            | inr e1 ↦
                rw (e, e1, handle, on_yandex_album_download) (inl (refl, refl, refl, λ p. cc))
            | inl e1 ↦ elim (Bool-cases enabled) [
              | inr e2 ↦
                  rw (e, e1, e2, handle, on_yandex_album_download) (inl (refl, refl, refl, λ p. cc))
              | inl e2 ↦
                  rw (e, e1, e2, handle, on_yandex_album_download)
                    (inr (
                      yandex_locked R A c admin_id t m w,
                      yandex-Tidy R A c admin_id t m w,
                      refl,
                      refl,
                      refl,
                      λ p. cc,
                    ))
            ]
          ]
        ]
    handle-HandlerPath (soundcloud_way m none) n w r a = inl (refl, refl, refl, λ p. cc)
    handle-HandlerPath (soundcloud_way m (some url)) n w r a = inr (
      soundcloud_locked R A c admin_id t m url w,
      soundcloud-Tidy R A c admin_id t m url w,
      refl,
      refl,
      refl,
      λ p. p,
    )

    -- Where the user is no administrator, the lock is taken with a token that is not empty and a
    -- release of it right away would be answered, the user's lock holds this token behind a
    -- handler that queued a task, and is free behind one that did not, whatever the way out.
    pub handle-lock :
        (way : Way) (n : ℤ) (w : Around) (r : R.State) (a : A.State)
        → is_admin admin_id (user_of way) ≡ false
        → w.drawn ≢ []
        → (acquire R A c admin_id (user_of way) (scene_of way) (ttl_of t way n) w.drawn r).0
          ≡ acquired w.drawn
        → (release_user_lock R c
            (user_of way)
            (scene_of way)
            w.drawn
            (acquire R A c admin_id (user_of way) (scene_of way) (ttl_of t way n) w.drawn r).1).0
          ≡ true
        → R.text (lock_key c (user_of way)) (handle R A c admin_id t way n w r a).2 ≡ (
            if (handle R A c admin_id t way n w r a).0
            then some (lock_value (scene_of way) w.drawn)
            else none)
    handle-lock way n w r a plain ne taken answered =
        let lock = lock_key c (user_of way) in
        let positive = music_lock_ttl_positive t (scene_of way) n in
        elim (handle-HandlerPath way n w r a) [
          | inl (not_queued, same, _, _) ↦
              rw (not_queued, same)
                (acquire-lock R A c admin_id (user_of way) (scene_of way) w.drawn (ttl_of t way n) r
                  positive plain taken).0
          | inr (body, tidy, e0, e2, _, _) ↦
              rw (e0, e2)
                (behind_lock-lock R A c admin_id (user_of way) (scene_of way) w.drawn
                  (ttl_of t way n) body r a tidy positive plain ne taken answered)
        ]

    -- While the lock of a user who is no administrator is held, no music handler queues a task for
    -- the user, and the broker's state is as it was.
    pub handle-held :
        (way : Way) (n : ℤ) (w : Around) (held : Bytes) (r : R.State) (a : A.State)
        → is_admin admin_id (user_of way) ≡ false
        → R.text (lock_key c (user_of way)) r ≡ some held
        → ((handle R A c admin_id t way n w r a).0 ≡ false)
          × ((handle R A c admin_id t way n w r a).3 ≡ a)
    handle-held way n w held r a plain h = elim (handle-HandlerPath way n w r a) [
      | inl (not_queued, _, same, _) ↦ (not_queued, same)
      | inr (body, _, e0, _, e3, _) ↦
          let (no_task, same) =
            behind_lock_held R A c admin_id (user_of way) (scene_of way) w.drawn held
              (ttl_of t way n) body r a plain h in
          (e0 ∙ no_task, e3 ∙ same)
    ]

    silent_link :
        (way : Way) (n : ℤ) (w : Around) (r : R.State) (a : A.State)
        → (handle R A c admin_id t way n w r a).1 ≡ []
        → (acquire R A c admin_id (user_of way) (scene_of way) (ttl_of t way n) w.drawn r).0
          ≡ failed
    silent_link way n w r a silent = elim (handle-HandlerPath way n w r a) [
      | inl (_, _, _, told) ↦ absurd (told silent)
      | inr (body, tidy, _, _, _, quiet) ↦
          behind_lock-silent R A c admin_id (user_of way) (scene_of way) w.drawn (ttl_of t way n)
            body r a tidy (quiet silent)
    ]

    silent_album :
        (user : ℤ) (chat : Option ℤ) (lang payload : Bytes) (enabled : Bool) (n : ℤ) (w : Around)
        (r : R.State) (a : A.State)
        → usable (album_way user chat lang payload enabled) ≡ true
        → said
            (album_way user chat lang payload enabled)
            (handle R A c admin_id t (album_way user chat lang payload enabled) n w r a).1
          ≡ []
        → (acquire R A c admin_id user yandex_music
            (ttl_of t (album_way user chat lang payload enabled) n)
            w.drawn
            r).0
          ≡ failed
    unfolding handle on_yandex_album_download
    silent_album user none lang payload enabled n w r a ok silent = cc
    silent_album user (some chat) lang payload enabled n w r a ok silent =
        let m : From = record { user = user; chat = chat; lang = lang } in
        elim (Bool-cases (eq_ℤ user (pos 0) || not (has_prefix payload album_callback_prefix))) [
          | inl e ↦ absurd (cc (rw e at ok))
          | inr e ↦ elim (Bool-cases (is_numeric_id (trim_prefix payload album_callback_prefix))) [
            | inr e1 ↦ absurd (cc (rw (e, e1) at ok))
            | inl e1 ↦ elim (Bool-cases enabled) [
              | inr e2 ↦ absurd (cc (rw (e, e1, e2, handle, on_yandex_album_download) at silent))
              | inl e2 ↦
                  behind_lock-silent R A c admin_id user yandex_music w.drawn
                    (ttl_of t (album_way user (some chat) lang payload enabled) n)
                    (yandex_locked R A c admin_id t m w) r a (yandex-Tidy R A c admin_id t m w)
                    (rw (e, e1, e2, handle, on_yandex_album_download) at silent)
            ]
          ]
        ]

    -- A link, or a press of the album button that names a user, a chat and an album by its number, is
    -- left without any message only if the lock met an error; the empty answer to the press, which
    -- only stops the button's spinner, counts for no message.
    pub handle-silent :
        (way : Way) (n : ℤ) (w : Around) (r : R.State) (a : A.State)
        → usable way ≡ true
        → said way (handle R A c admin_id t way n w r a).1 ≡ []
        → (acquire R A c admin_id (user_of way) (scene_of way) (ttl_of t way n) w.drawn r).0
          ≡ failed
    handle-silent (spotify_way m kind id) n w r a ok silent =
        silent_link (spotify_way m kind id) n w r a silent
    handle-silent (yandex_way m album track) n w r a ok silent =
        silent_link (yandex_way m album track) n w r a silent
    handle-silent (soundcloud_way m link) n w r a ok silent =
        silent_link (soundcloud_way m link) n w r a silent
    handle-silent (album_way user chat lang payload enabled) n w r a ok silent =
        silent_album user chat lang payload enabled n w r a ok silent
