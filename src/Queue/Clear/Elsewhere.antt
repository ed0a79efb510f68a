-- ===== src/Queue/Clear/Elsewhere.antt =====
-- Clearing touches the queues that it is given, and no other.
use saveinator.Prelude.{
  ◌≡◌, ◌≢◌, refl, ◌∙◌, true, List, [], ◌∷◌, ◌++◌, some, arith, Bytes, ℤ, All, Bool-cases, inl, inr,
}
use saveinator.Queue.Payload.{DownloadPayload}
use saveinator.Queue.Asynq.{Asynq, TaskInfo, Request, Waiting, pending, default_queue, queue_of}
use saveinator.Queue.Client.{queue_for, enqueue_download, enqueue}
use saveinator.Queue.Clear.{
  Cleared, clear_user_tasks_in_queue, clear_queues, clear_user_tasks, or_default,
}
use saveinator.Queue.Clear.Rule.{clear_in_queue_inv}

everywhere : (ts : List TaskInfo) (P : TaskInfo → Type 0) → ((t : TaskInfo) → P t) → All P ts
everywhere [] P h = tt
everywhere (t ∷ ts) P h = (h t, everywhere ts P h)

module _ (A : Asynq) (user : ℤ) where
  waiting-clear_in_queue :
      (q q' : Bytes) (w : Waiting) (s : A.State)
      → q' ≢ q
      → A.waiting w q' (clear_user_tasks_in_queue A user q s).1 ≡ A.waiting w q' s
  waiting-clear_in_queue q q' w s ne =
      clear_in_queue_inv A user q (λ s'. A.waiting w q' s' ≡ A.waiting w q' s) (λ t. Unit)
        (λ w' s' h. everywhere (A.waiting w' q s') _ (λ t o. tt))
        (λ id s' h. A.cancel_waiting id w q' s' ∙ h)
        (λ t s' o h. A.delete_elsewhere q t.id q' w s' ne ∙ h) s refl

  waiting-clear_queues :
      (qs : List Bytes) (q' : Bytes) (w : Waiting) (so_far : Cleared) (s : A.State)
      → All (λ q. q' ≢ q) qs
      → A.waiting w q' (clear_queues A user qs so_far s).1 ≡ A.waiting w q' s
  unfolding clear_queues
  waiting-clear_queues [] q' w so_far s h = refl
  waiting-clear_queues (q ∷ qs) q' w so_far s h =
      let here = waiting-clear_in_queue q q' w s h.0 in
      let part = clear_user_tasks_in_queue A user q s in
      elim (Bool-cases part.0.failed) [
        | inl e ↦ rw (e, clear_queues) here
        | inr e ↦ rw (e, clear_queues) (waiting-clear_queues qs q' w _ part.1 h.1 ∙ here)
      ]

  -- A queue that is not among the queues to clear keeps its waiting tasks, whatever the replies; with
  -- no queue named, the one to clear is the broker's default queue.
  pub waiting-clear_user_tasks :
      (qs : List Bytes) (q' : Bytes) (w : Waiting) (s : A.State)
      → All (λ q. q' ≢ q) (or_default qs)
      → A.waiting w q' (clear_user_tasks A user qs s).1 ≡ A.waiting w q' s
  unfolding clear_user_tasks
  waiting-clear_user_tasks qs q' w s h = waiting-clear_queues (or_default qs) q' w _ s h

  queue_for-ne-default : (p : DownloadPayload) → queue_for p ≢ default_queue
  unfolding queue_for
  queue_for-ne-default p = ground arith

  -- A download that was enqueued is still pending in its queue behind a clearing that names no queue,
  -- as the main bot's /clear does: its queue is never the default one.
  pub clear-enqueue_download :
      (p : DownloadPayload) (r : Request) (s : A.State)
      → enqueue_download p ≡ some r
      → (A.submit r s).0 ≡ true
      → (id : Bytes) × (A.waiting pending
            (queue_for p)
            (clear_user_tasks A user [] (enqueue A (enqueue_download p) s).1).1
          ≡ A.waiting pending (queue_for p) s
            ++ record { id = id; kind = r.kind; payload = r.payload } ∷ [])
  unfolding enqueue
  clear-enqueue_download p r s e ok =
      let (id, appended) = A.submit_appends r s ok in
      let its_queue : queue_of r ≡ queue_for p = unfold enqueue_download in ground arith in
      (
        id,
        rw e (
            waiting-clear_user_tasks [] (queue_for p) pending (A.submit r s).1
              (queue_for-ne-default p, tt)
            ∙ (rw its_queue at appended)),
      )
