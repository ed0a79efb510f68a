-- ===== src/Handler/Enqueue/Queued.antt =====
-- What an enqueuing puts on the queue.
use saveinator.Prelude.{
  ◌≡◌, refl, Bool, [], ◌∷◌, ◌++◌, Option, none, some, Bytes, ℤ, eq_bytes, Bool-cases, inl, inr,
}
use saveinator.Text.Utf8.{to_valid_utf8}
use saveinator.Queue.Asynq.{Asynq, Request, pending, queue_of}
use saveinator.Queue.Payload.{DownloadPayload, unmarshal_download}
use saveinator.Queue.Client.{type_tiktok, type_pinterest, type_instagram, type_reddit, enqueue}
use saveinator.Queue.Client.Read.{
  Carries, submit-queued, enqueue_download-Carries, enqueue_pinterest_default-Carries,
  enqueue_tiktok-Carries, enqueue_instagram-Carries, enqueue_reddit-Carries,
}
use saveinator.Redis.{Redis}
use saveinator.Redisx.Client.{Client, acquired}
use saveinator.Handler.Enqueue.{
  Job, queued, payload_of, request_of, take_lock, enqueue_locked, enqueue_link,
}
use saveinator.Handler.Enqueue.Releases.{Acquired-cases, link_acquired}

-- What a worker reads of the body is the job, with the token of its lock.
abbrev pub Delivers : Job → Bytes → ℤ → Bool → Request → Type 0
Delivers j token message_id nw request =
    (q : DownloadPayload) × (unmarshal_download request.payload ≡ some q)
    × (q.url ≡ to_valid_utf8 j.url)
    × (q.platform ≡ to_valid_utf8 j.platform)
    × (q.chat_id ≡ j.chat)
    × (q.user_id ≡ j.user)
    × (q.message_id ≡ message_id)
    × (q.lang ≡ to_valid_utf8 j.lang)
    × (q.lock_token ≡ to_valid_utf8 token)
    × (q.lock_scene ≡ to_valid_utf8 j.scene)
    × (q.x_status_id ≡ to_valid_utf8 j.x_status_id)
    × (q.no_watermark ≡ nw)

request_of-Carries :
    (kind : Bytes) (p : DownloadPayload) (request : Request)
    → request_of kind p ≡ some request
    → Carries request p
unfolding request_of
request_of-Carries kind p request h = elim (Bool-cases (eq_bytes kind type_tiktok)) [
  | inl e ↦ enqueue_tiktok-Carries p request (rw e at h)
  | inr e ↦ elim (Bool-cases (eq_bytes kind type_pinterest)) [
    | inl e1 ↦ enqueue_pinterest_default-Carries p request (rw (e, e1) at h)
    | inr e1 ↦ elim (Bool-cases (eq_bytes kind type_instagram)) [
      | inl e2 ↦ enqueue_instagram-Carries p request (rw (e, e1, e2) at h)
      | inr e2 ↦ elim (Bool-cases (eq_bytes kind type_reddit)) [
        | inl e3 ↦ enqueue_reddit-Carries p request (rw (e, e1, e2, e3) at h)
        | inr e3 ↦ enqueue_download-Carries p request (rw (e, e1, e2, e3) at h)
      ]
    ]
  ]
]

made-Delivers :
    (j : Job) (token : Bytes) (message_id : ℤ) (nw : Bool) (request : Request)
    → request_of j.task_type (payload_of j token message_id nw) ≡ some request
    → Delivers j token message_id nw request
unfolding payload_of
made-Delivers j token message_id nw request h = (
  _,
  request_of-Carries j.task_type (payload_of j token message_id nw) request h,
  refl,
  refl,
  refl,
  refl,
  refl,
  refl,
  refl,
  refl,
  refl,
  refl,
)

module _ (R : Redis) (A : Asynq) (c : Client) (admin_id timeout_sec : ℤ) where
  locked-queued :
      (j : Job) (token : Bytes) (status : Option ℤ) (nw : Bool) (r : R.State) (a : A.State)
      → (enqueue_locked R A c admin_id timeout_sec j token status nw r a).0 ≡ queued
      → (message_id : ℤ) × (request : Request) × (id : Bytes) × (status ≡ some message_id)
        × Delivers j token message_id nw request
        × (A.waiting pending
              (queue_of request)
              (enqueue_locked R A c admin_id timeout_sec j token status nw r a).2
            ≡ A.waiting pending (queue_of request) a
              ++ record { id = id; kind = request.kind; payload = request.payload } ∷ [])
  unfolding enqueue_locked
  locked-queued j token none nw r a h = cc
  locked-queued j token (some m) nw r a h =
      let made = request_of j.task_type (payload_of j token m nw) in
      elim (Bool-cases (enqueue A made a).0) [
        | inl e ↦
            let (request, id, same, last) = submit-queued A made a e in
            (
              m,
              request,
              id,
              refl,
              made-Delivers j token m nw request same,
              rw (e, enqueue_locked) last,
            )
        | inr e ↦ absurd (cc (rw (e, enqueue_locked) at h))
      ]

  -- Where an enqueuing reports a queued task, the lock was taken, or not wanted, with a token, the
  -- status message was sent, and a new task is the last of its queue's pending tasks, of whose
  -- body a worker reads the job's link, platform, status id of X, language, scene, chat and user,
  -- the status message, the watermark setting, and this token; the texts are read but for invalid
  -- UTF-8.
  pub enqueue_link-queued :
      (j : Job) (drawn : Bytes) (status : Option ℤ) (nw : Bool) (r : R.State) (a : A.State)
      → (enqueue_link R A c admin_id timeout_sec j drawn status nw r a).0 ≡ queued
      → (token : Bytes) × (message_id : ℤ) × (request : Request) × (id : Bytes) × ((take_lock R A c
            admin_id timeout_sec j drawn r).0
          ≡ acquired token)
        × (status ≡ some message_id)
        × Delivers j token message_id nw request
        × (A.waiting pending
              (queue_of request)
              (enqueue_link R A c admin_id timeout_sec j drawn status nw r a).2
            ≡ A.waiting pending (queue_of request) a
              ++ record { id = id; kind = request.kind; payload = request.payload } ∷ [])
  unfolding enqueue_link
  enqueue_link-queued j drawn status nw r a h =
      let r' = (take_lock R A c admin_id timeout_sec j drawn r).1 in
      elim (Acquired-cases (take_lock R A c admin_id timeout_sec j drawn r).0) [
        | inl (token, e) ↦
            let step = link_acquired R A c admin_id timeout_sec j drawn token status nw r a e in
            let (m, request, id, found, made, last) =
              locked-queued j token status nw r' a (rw step at h) in
            (token, m, request, id, e, found, made, rw step last)
        | inr (inl e) ↦ absurd (cc (rw (e, enqueue_link) at h))
        | inr (inr e) ↦ absurd (cc (rw (e, enqueue_link) at h))
      ]
