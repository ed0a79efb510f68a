-- ===== src/Queue/Client/Read.antt =====
-- What a worker reads of the requests that are made of a download payload.
use saveinator.Prelude.{
  ◌≡◌, refl, true, [], ◌∷◌, ◌++◌, ap, sym, ◌∙◌, Option, none, some, Bytes, ◌>>=◌, Option-cases, inl,
  inr,
}
use saveinator.Queue.Payload.{DownloadPayload, marshal_download, unmarshal_download}
use saveinator.Queue.Payload.RoundTrip.{as_read, marshal_download-read}
use saveinator.Queue.Payload.Values.{Body}
use saveinator.Queue.Asynq.{Asynq, Request, pending, queue_of}
use saveinator.Queue.Client.{
  download_request, enqueue_download, enqueue_pinterest_default, enqueue_tiktok, enqueue_instagram,
  enqueue_reddit, enqueue_tiktok_carousel, enqueue,
}

-- The worker that gets the request reads the payload it was made of.
abbrev pub Carries : Request → DownloadPayload → Type 0
Carries request p = unmarshal_download request.payload ≡ some (as_read p)

module _ (p : DownloadPayload) (request : Request) where
  request-Carries :
      (kind queue : Bytes)
      → (marshal_download p >>= λ (body : Body). some (download_request kind queue body))
        ≡ some request
      → Carries request p
  request-Carries kind queue h = elim (Option-cases (marshal_download p)) [
    | inl e ↦ absurd (cc (rw e at h))
    | inr (body, e) ↦
        let made : download_request kind queue body ≡ request = cc (rw e at h) in
        ap (λ (r : Request). unmarshal_download r.payload) (sym made)
        ∙ marshal_download-read p body e
  ]

  pub enqueue_download-Carries : enqueue_download p ≡ some request → Carries request p
  unfolding enqueue_download
  enqueue_download-Carries h = request-Carries _ _ h

  pub enqueue_pinterest_default-Carries :
      enqueue_pinterest_default p ≡ some request → Carries request p
  unfolding enqueue_pinterest_default
  enqueue_pinterest_default-Carries h = request-Carries _ _ h

  pub enqueue_tiktok-Carries : enqueue_tiktok p ≡ some request → Carries request p
  unfolding enqueue_tiktok
  enqueue_tiktok-Carries h = request-Carries _ _ h

  pub enqueue_instagram-Carries : enqueue_instagram p ≡ some request → Carries request p
  unfolding enqueue_instagram
  enqueue_instagram-Carries h = request-Carries _ _ h

  pub enqueue_reddit-Carries : enqueue_reddit p ≡ some request → Carries request p
  unfolding enqueue_reddit
  enqueue_reddit-Carries h = request-Carries _ _ h

  pub enqueue_tiktok_carousel-Carries : enqueue_tiktok_carousel p ≡ some request → Carries request p
  unfolding enqueue_tiktok_carousel
  enqueue_tiktok_carousel-Carries h = request-Carries _ _ h

module _ (A : Asynq) where
  -- what the broker holds behind an enqueuing that it answered
  pub submit-queued :
      (made : Option Request) (a : A.State)
      → (enqueue A made a).0 ≡ true
      → (request : Request) × (id : Bytes) × (made ≡ some request)
        × (A.waiting pending (queue_of request) (enqueue A made a).1
            ≡ A.waiting pending (queue_of request) a
              ++ record { id = id; kind = request.kind; payload = request.payload } ∷ [])
  unfolding enqueue
  submit-queued none a h = cc
  submit-queued (some request) a h =
      let (id, last) = A.submit_appends request a h in (request, id, refl, last)
