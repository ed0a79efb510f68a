-- ===== src/Handler/Carousel/Asked.antt =====
-- What a press of the button of a carousel's pictures puts on the queue, and who can.
use saveinator.Prelude.{
  ◌≡◌, ◌≢◌, refl, sym, ap, ◌∙◌, Bool, Option, none, some, Bytes, ℤ, eq_ℤ, eq_ℤ_iff, Bool-cases,
  Option-cases, inl, inr,
}
use saveinator.Text.Utf8.{to_valid_utf8}
use saveinator.Queue.Asynq.{Asynq, Request}
use saveinator.Queue.Payload.{DownloadPayload, unmarshal_download}
use saveinator.Queue.Client.{enqueue_tiktok_carousel, enqueue}
use saveinator.Queue.Client.Read.{enqueue_tiktok_carousel-Carries}
use saveinator.Redis.{Redis}
use saveinator.Redisx.Client.{Client, acquired}
use saveinator.Tiktok.Carousel.{CarouselSession, Coding, parse_carousel_callback, get}
use saveinator.Handler.Enqueue.{lock_ttl}
use saveinator.Handler.Enqueue.Releases.{Acquired-cases}
use saveinator.Handler.Music.{acquire}
use saveinator.Handler.Carousel.{scene, session_for, carousel_payload, on_tiktok_carousel}

session_for-some :
    (user : ℤ) (o : Option (Option CarouselSession)) (s : CarouselSession)
    → session_for user o ≡ some s
    → (o ≡ some (some s)) × (s.user_id ≡ user)
session_for-some user none s h = cc
session_for-some user (some none) s h = cc
session_for-some user (some (some x)) s h = elim (Bool-cases (eq_ℤ x.user_id user)) [
  | inl e ↦
      let same : x ≡ s = cc (rw e at h) in
      (ap (λ y. some (some y)) same, ap (λ y. y.user_id) (sym same) ∙ (eq_ℤ_iff x.user_id user).0 e)
  | inr e ↦ absurd (cc (rw e at h))
]

-- What a worker reads of the body is the session's post, with the token of the lock and the session's.
abbrev pub Fetches : CarouselSession → Bytes → Bytes → Bool → DownloadPayload → Type 0
Fetches session lock_token token nw q =
    (q.url ≡ to_valid_utf8 session.url)
    × (q.platform ≡ to_valid_utf8 scene)
    × (q.chat_id ≡ session.chat_id)
    × (q.user_id ≡ session.user_id)
    × (q.lang ≡ to_valid_utf8 session.lang)
    × (q.lock_token ≡ to_valid_utf8 lock_token)
    × (q.lock_scene ≡ to_valid_utf8 scene)
    × (q.session_token ≡ to_valid_utf8 token)
    × (q.no_watermark ≡ nw)

module _ (R : Redis) (A : Asynq) (c : Client) (J : Coding) (admin_id timeout_sec : ℤ) where
  -- A press of the carousel's button changes the broker's state only if its payload names the user
  -- who pressed it and a token under which this user's own session was read, and the lock was
  -- taken or not wanted: then the change is the broker's own on being given one request, of whose
  -- body a worker reads the session's post, language, chat and user, the scene and the token of
  -- this lock, the session's token and the watermark setting; the texts are read but for invalid
  -- UTF-8.
  pub on_tiktok_carousel-asked :
      (from : ℤ) (payload drawn : Bytes) (has_message nw : Bool) (r : R.State) (a : A.State)
      → (on_tiktok_carousel R A c J admin_id timeout_sec from payload has_message drawn nw r a).2
        ≢ a
      → (token : Bytes) × (session : CarouselSession) × (lock_token : Bytes) × (request : Request)
        × (q : DownloadPayload) × (parse_carousel_callback payload ≡ some (from, token))
        × (get R J token r ≡ some (some session))
        × (session.user_id ≡ from)
        × ((acquire R A c admin_id from scene (lock_ttl timeout_sec) drawn r).0
            ≡ acquired lock_token)
        × (unmarshal_download request.payload ≡ some q)
        × Fetches session lock_token token nw q
        × ((on_tiktok_carousel R A c J admin_id timeout_sec from payload has_message drawn nw r a).2
            ≡ (A.submit request a).1)
  unfolding on_tiktok_carousel carousel_payload enqueue
  on_tiktok_carousel-asked from payload drawn has_message nw r a changed =
      elim (Option-cases (parse_carousel_callback payload)) [
        | inl e ↦ absurd (changed (rw (e, on_tiktok_carousel) refl))
        | inr ((user, token), e) ↦ elim (Bool-cases (eq_ℤ from user)) [
          | inr e1 ↦ absurd (changed (rw (e, e1, on_tiktok_carousel) refl))
          | inl e1 ↦
              let same : user ≡ from = sym ((eq_ℤ_iff from user).0 e1) in
              elim (Option-cases (session_for user (get R J token r))) [
                | inl e2 ↦ absurd (changed (rw (e, e1, e2, on_tiktok_carousel) refl))
                | inr (session, e2) ↦
                    let (read, own) = session_for-some user (get R J token r) session e2 in
                    elim (Acquired-cases
                      (acquire R A c admin_id user scene (lock_ttl timeout_sec) drawn r).0) [
                        | inr (inl e3) ↦
                            absurd (changed (rw (e, e1, e2, e3, on_tiktok_carousel) refl))
                        | inr (inr e3) ↦
                            absurd (changed (rw (e, e1, e2, e3, on_tiktok_carousel) refl))
                        | inl (lock_token, e3) ↦
                            let p = carousel_payload session user lock_token token nw in
                            elim (Option-cases (enqueue_tiktok_carousel p)) [
                              | inl e4 ↦
                                  absurd (changed (rw (e, e1, e2, e3, e4, on_tiktok_carousel) refl))
                              | inr (request, e4) ↦ (
                                token,
                                session,
                                lock_token,
                                request,
                                _,
                                e ∙ ap (λ u. some (u, token)) same,
                                read,
                                own ∙ same,
                                rw⁻¹ same e3,
                                enqueue_tiktok_carousel-Carries p request e4,
                                (refl, refl, refl, sym own, refl, refl, refl, refl, refl),
                                rw (e, e1, e2, e3, e4, on_tiktok_carousel) refl,
                              )
                            ]
                      ]
              ]
        ]
      ]
