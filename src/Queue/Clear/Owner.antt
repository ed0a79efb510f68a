-- ===== src/Queue/Clear/Owner.antt =====
-- Whose task a request is, as clearing reads it back from the request's type and body.
use saveinator.Prelude.{
  ◌≡◌, ◌≢◌, none, some, arith, eq_bytes, contains, pos, eq_ℤ_iff, Option-cases, inl, inr,
}
use saveinator.Queue.Payload.{DownloadPayload, marshal_download}
use saveinator.Queue.Payload.RoundTrip.{marshal_download-read}
use saveinator.Queue.Asynq.{Request}
use saveinator.Queue.Client.{
  enqueue_download, enqueue_tiktok, enqueue_pinterest_default, enqueue_tiktok_carousel,
  enqueue_instagram, enqueue_reddit,
}
use saveinator.Queue.Clear.{task_user_id}

-- A user's downloads that wait under the general, the TikTok, the Pinterest or the carousel type are
-- recognised as that user's tasks, and those under the Instagram and the Reddit type are not.
pub task_user_id-enqueue :
    (p : DownloadPayload) (r : Request)
    → p.user_id ≢ pos 0
    → (enqueue_download p ≡ some r → task_user_id r.kind r.payload ≡ some p.user_id)
      × (enqueue_tiktok p ≡ some r → task_user_id r.kind r.payload ≡ some p.user_id)
      × (enqueue_pinterest_default p ≡ some r → task_user_id r.kind r.payload ≡ some p.user_id)
      × (enqueue_tiktok_carousel p ≡ some r → task_user_id r.kind r.payload ≡ some p.user_id)
      × (enqueue_instagram p ≡ some r → task_user_id r.kind r.payload ≡ none)
      × (enqueue_reddit p ≡ some r → task_user_id r.kind r.payload ≡ none)
unfolding enqueue_download enqueue_tiktok enqueue_pinterest_default enqueue_tiktok_carousel
    enqueue_instagram enqueue_reddit task_user_id contains eq_bytes
task_user_id-enqueue p r ne = elim (Option-cases (marshal_download p)) [
  | inl e ↦ rw e ((λ k. cc), (λ k. cc), (λ k. cc), (λ k. cc), (λ k. cc), (λ k. cc))
  | inr (body, e) ↦
      let back = marshal_download-read p body e in
      let same = eq_ℤ_iff p.user_id (pos 0) in
      rw e (
        (λ k. ground (arith, back, same)),
        (λ k. ground (arith, back, same)),
        (λ k. ground (arith, back, same)),
        (λ k. ground (arith, back, same)),
        (λ k. ground (arith, back, same)),
        (λ k. ground (arith, back, same)),
      )
]
