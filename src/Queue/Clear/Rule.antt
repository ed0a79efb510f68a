-- ===== src/Queue/Clear/Rule.antt =====
-- The invariant rule of clearing one queue: what cancelling keeps, and what deleting a listed task
-- of the user keeps, the whole run keeps.
use saveinator.Prelude.{
  ℕ, ◌≡◌, true, List, [], ◌∷◌, Bytes, ℤ, All, All-take, Bool-cases, inl, inr, Option-cases,
}
use saveinator.Queue.Asynq.{Asynq, TaskInfo, Waiting, page_size, pending, scheduled, retry}
use saveinator.Queue.Clear.{
  LockRef, owned, cancel_one, cancel_listed, delete_one, delete_listed, clear_waiting,
  clear_user_tasks_in_queue,
}

module _ (A : Asynq) (user : ℤ) (q : Bytes) where
  module _ (P : A.State → Type 0) (Q : TaskInfo → Type 0)
      (listed : (w : Waiting) (s : A.State)
        → P s
        → All (λ t. owned user t ≡ true → Q t) (A.waiting w q s))
      (cancels : (id : Bytes) (s : A.State) → P s → P (A.cancel id s).1)
      (deletes : (t : TaskInfo) (s : A.State) → Q t → P s → P (A.delete q t.id s).1) where
    cancel_one_inv :
        (t : TaskInfo) (refs : List LockRef) (n : ℕ) (s : A.State)
        → P s
        → P (cancel_one A user t refs n s).2
    unfolding cancel_one
    cancel_one_inv t refs n s h = elim (Bool-cases (owned user t)) [
      | inl e ↦ rw e (cancels t.id s h)
      | inr e ↦ rw e h
    ]

    pub cancel_listed_inv :
        (ts : List TaskInfo) (refs : List LockRef) (n : ℕ) (s : A.State)
        → P s
        → P (cancel_listed A user ts refs n s).2
    unfolding cancel_listed
    cancel_listed_inv [] refs n s h = h
    cancel_listed_inv (t ∷ ts) refs n s h = cancel_listed_inv ts _ _ _ (cancel_one_inv t refs n s h)

    delete_one_inv :
        (t : TaskInfo) (n : ℕ) (s : A.State)
        → (owned user t ≡ true → Q t)
        → P s
        → P (delete_one A user q t n s).1
    unfolding delete_one
    delete_one_inv t n s o h = elim (Bool-cases (owned user t)) [
      | inl e ↦ rw e (deletes t s (o e) h)
      | inr e ↦ rw e h
    ]

    pub delete_listed_inv :
        (ts : List TaskInfo) (n : ℕ) (s : A.State)
        → All (λ t. owned user t ≡ true → Q t) ts
        → P s
        → P (delete_listed A user q ts n s).1
    unfolding delete_listed
    delete_listed_inv [] n s a h = h
    delete_listed_inv (t ∷ ts) n s a h = delete_listed_inv ts _ _ a.1 (delete_one_inv t n s a.0 h)

    pub clear_waiting_inv :
        (ws : List Waiting) (n : ℕ) (s : A.State) → P s → P (clear_waiting A user q ws n s).2
    unfolding clear_waiting
    clear_waiting_inv [] n s h = h
    clear_waiting_inv (w ∷ ws) n s h = elim (Option-cases (A.list w q s)) [
      | inl e ↦ rw (e, clear_waiting) h
      | inr (ts, e) ↦
          rw (e, clear_waiting)
            (clear_waiting_inv ws _ _ (
              delete_listed_inv ts n s
                (rw (A.list_page w q s ts e) (All-take _ page_size _ (listed w s h))) h))
    ]

    pub clear_in_queue_inv : (s : A.State) → P s → P (clear_user_tasks_in_queue A user q s).1
    unfolding clear_user_tasks_in_queue
    clear_in_queue_inv s h = elim (Option-cases (A.list_active q s)) [
      | inl e ↦ rw (e, clear_user_tasks_in_queue) h
      | inr (ts, e) ↦
          rw (e, clear_user_tasks_in_queue)
            (clear_waiting_inv (pending ∷ scheduled ∷ retry ∷ []) 0 _
              (cancel_listed_inv ts [] 0 s h))
    ]
