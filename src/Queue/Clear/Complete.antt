-- ===== src/Queue/Clear/Complete.antt =====
-- When nothing fails, clearing a queue of at most one page leaves no task of the user in it.
use mathlib.Core.Path.{subst}
use saveinator.Prelude.{
  sym, ℕ, ◌≤◌, ◌≡◌, refl, ◌∙◌, Bool, true, false, not, ◌&&◌, ◌||◌, List, [], ◌∷◌, none, some, arith,
  Bytes, ℤ, eq_bytes, eq_bytes_refl, keep, length, length-keep, take_all, All, All-map, All-keep,
  Bool-cases, Option-cases, inl, inr,
}
use saveinator.Queue.Asynq.{Asynq, TaskInfo, Waiting, pending, scheduled, retry, without, page_size}
use saveinator.Queue.Clear.{
  LockRef, owned, cancel_listed, delete_one, delete_listed, clear_waiting,
  clear_user_tasks_in_queue,
}
use saveinator.Queue.Clear.Rule.{cancel_listed_inv, delete_listed_inv, clear_waiting_inv}

-- A task with the id is in the list.
abbrev pub has_id : Bytes → List TaskInfo → Bool
has_id id [] = false
has_id id (t ∷ ts) = eq_bytes t.id id || has_id id ts

-- The broker deletes a task that waits in the queue.
abbrev pub Deletes : Asynq → Bytes → Type 0
Deletes A q =
    (id : Bytes) (w : Waiting) (s : A.State)
    → has_id id (A.waiting w q s) ≡ true
    → (A.delete q id s).0 ≡ true

-- No task of the list is the user's.
abbrev pub NoneOwned : ℤ → List TaskInfo → Type 0
NoneOwned user = All (λ t. owned user t ≡ false)

-- The id is that of a task of the user in the list.
marked : ℤ → List TaskInfo → Bytes → Bool
marked user [] id = false
marked user (u ∷ us) id = (owned user u && eq_bytes id u.id) || marked user us id

without_absent : (id : Bytes) (ts : List TaskInfo) → has_id id ts ≡ false → without id ts ≡ ts
without_absent id [] h = refl
without_absent id (t ∷ ts) h = ground (arith, without_absent id ts)

marked_self :
    (user : ℤ) (ts : List TaskInfo) → All (λ t. owned user t ≡ true → marked user ts t.id ≡ true) ts
unfolding marked
marked_self user [] = tt
marked_self user (u ∷ us) = (
  λ o. ground (arith, eq_bytes_refl u.id),
  All-map _ _ (λ t m o. ground (arith, m o)) us (marked_self user us),
)

NoneOwned-keep :
    (user : ℤ) (p : TaskInfo → Bool) (ts : List TaskInfo)
    → NoneOwned user ts
    → NoneOwned user (keep p ts)
NoneOwned-keep user p ts h = All-keep _ p ts (All-map _ _ (λ t n e. n) ts h)

trivially : (user : ℤ) (ts : List TaskInfo) → All (λ t. owned user t ≡ true → Unit {0}) ts
trivially user [] = tt
trivially user (t ∷ ts) = ((λ o. tt), trivially user ts)

every : (P : Waiting → Type 0) (w : Waiting) → All P (pending ∷ scheduled ∷ retry ∷ []) → P w
every P pending h = h.0
every P scheduled h = h.1.0
every P retry h = h.1.1.0

module _ (A : Asynq) (user : ℤ) (q : Bytes) where
  clear_waiting-none :
      (w : Waiting) (ws : List Waiting) (n : ℕ) (s : A.State)
      → A.list w q s ≡ none
      → clear_waiting A user q (w ∷ ws) n s ≡ (true, n, s)
  unfolding clear_waiting
  clear_waiting-none w ws n s e = rw (e, clear_waiting)

  clear_waiting-some :
      (w : Waiting) (ws : List Waiting) (ts : List TaskInfo) (n : ℕ) (s : A.State)
      → A.list w q s ≡ some ts
      → clear_waiting A user q (w ∷ ws) n s
        ≡ clear_waiting A user q ws
            (delete_listed A user q ts n s).0
            (delete_listed A user q ts n s).1
  unfolding clear_waiting
  clear_waiting-some w ws ts n s e = rw (e, clear_waiting)

  module _ (up : Deletes A q) where
    waiting-delete :
        (id : Bytes) (w : Waiting) (s : A.State)
        → A.waiting w q (A.delete q id s).1 ≡ without id (A.waiting w q s)
    waiting-delete id w s = elim (Bool-cases (A.delete q id s).0) [
      | inl e ↦ A.delete_removes q id w s e
      | inr e ↦ A.delete_refused q id w s e ∙ (elim (Bool-cases (has_id id (A.waiting w q s))) [
        | inl p ↦ absurd (ground (arith, up id w s p))
        | inr a ↦ ap_sym id (A.waiting w q s) a
      ])
    ]
      where
        ap_sym : (i : Bytes) (ts : List TaskInfo) → has_id i ts ≡ false → ts ≡ without i ts
        ap_sym i ts a = cc (without_absent i ts a)

    Marked : Waiting → List TaskInfo → A.State → Type 0
    Marked w ts s = All (λ t. owned user t ≡ true → marked user ts t.id ≡ true) (A.waiting w q s)

    Marked-delete_one :
        (w : Waiting) (u : TaskInfo) (us : List TaskInfo) (n : ℕ) (s : A.State)
        → Marked w (u ∷ us) s
        → Marked w us (delete_one A user q u n s).1
    unfolding Marked marked delete_one
    Marked-delete_one w u us n s h = elim (Bool-cases (owned user u)) [
      | inl e ↦
          rw (e, waiting-delete u.id w s)
            (All-keep _ _ (A.waiting w q s)
              (All-map _ _ (λ t m d o. ground (arith, m o)) (A.waiting w q s) h))
      | inr e ↦ rw e (All-map _ _ (λ t m o. ground (arith, m o)) (A.waiting w q s) h)
    ]

    delete_listed-NoneOwned :
        (w : Waiting) (ts : List TaskInfo) (n : ℕ) (s : A.State)
        → Marked w ts s
        → NoneOwned user (A.waiting w q (delete_listed A user q ts n s).1)
    unfolding delete_listed Marked marked
    delete_listed-NoneOwned w [] n s h =
        All-map (λ t. owned user t ≡ true → marked user [] t.id ≡ true) (λ t. owned user t ≡ false)
          (λ t m. elim (Bool-cases (owned user t)) [ inl o ↦ absurd (cc (m o)) | inr e ↦ e ])
          (A.waiting w q s) h
    delete_listed-NoneOwned w (u ∷ us) n s h =
        delete_listed-NoneOwned w us _ _ (Marked-delete_one w u us n s h)

    -- every waiting list fits on the page that a listing returns
    abbrev Fits : A.State → Type 0
    Fits s = (w : Waiting) → length (A.waiting w q s) ≤ page_size

    Fits-delete : (id : Bytes) (s : A.State) → Fits s → Fits (A.delete q id s).1
    Fits-delete id s f w =
        rw (waiting-delete id w s)
          (omega (arith, length-keep (λ t. not (eq_bytes t.id id)) (A.waiting w q s), f w))

    NoneOwned-delete :
        (w : Waiting) (id : Bytes) (s : A.State)
        → NoneOwned user (A.waiting w q s)
        → NoneOwned user (A.waiting w q (A.delete q id s).1)
    NoneOwned-delete w id s h =
        rw (waiting-delete id w s) (NoneOwned-keep user _ (A.waiting w q s) h)

    NoneOwned-clear_waiting :
        (w : Waiting) (ws : List Waiting) (n : ℕ) (s : A.State)
        → NoneOwned user (A.waiting w q s)
        → NoneOwned user (A.waiting w q (clear_waiting A user q ws n s).2)
    NoneOwned-clear_waiting w =
        clear_waiting_inv A user q (λ s. NoneOwned user (A.waiting w q s)) (λ t. Unit)
          (λ w' s h. trivially user (A.waiting w' q s)) (λ id s h. rw (A.cancel_waiting id w q s) h)
          (λ t s o h. NoneOwned-delete w t.id s h)

    Fits-delete_listed :
        (ts : List TaskInfo) (n : ℕ) (s : A.State) → Fits s → Fits (delete_listed A user q ts n s).1
    Fits-delete_listed ts n s =
        delete_listed_inv A user q Fits (λ t. Unit) (λ w' s' h. trivially user (A.waiting w' q s'))
          (λ id s' h w. rw (A.cancel_waiting id w q s') (h w)) (λ t s' o h. Fits-delete t.id s' h)
          ts n s (trivially user ts)

    -- a list that fits on the page is listed whole, and its tasks of the user are deleted
    page-NoneOwned :
        (w : Waiting) (ts : List TaskInfo) (n : ℕ) (s : A.State)
        → Fits s
        → A.list w q s ≡ some ts
        → NoneOwned user (A.waiting w q (delete_listed A user q ts n s).1)
    page-NoneOwned w ts n s f e =
        let whole : ts ≡ A.waiting w q s =
          A.list_page w q s ts e ∙ take_all page_size (A.waiting w q s) (f w) in
        rw whole (
          delete_listed-NoneOwned w (A.waiting w q s) n s
            (unfold Marked in marked_self user (A.waiting w q s)))

    clear_waiting-NoneOwned :
        (ws : List Waiting) (n : ℕ) (s : A.State)
        → Fits s
        → (clear_waiting A user q ws n s).0 ≡ false
        → All (λ w. NoneOwned user (A.waiting w q (clear_waiting A user q ws n s).2)) ws
    clear_waiting-NoneOwned [] n s f ok = tt
    clear_waiting-NoneOwned (w ∷ ws) n s f ok = elim (Option-cases (A.list w q s)) [
      | inl e ↦ absurd (cc (ok, clear_waiting-none w ws n s e))
      | inr (ts, e) ↦
          let after = (delete_listed A user q ts n s) in
          let step = clear_waiting-some w ws ts n s e in
          subst (λ (r : Bool × ℕ × A.State). All (λ v. NoneOwned user (A.waiting v q r.2)) (w ∷ ws))
            (sym step)
            (
              NoneOwned-clear_waiting w ws after.0 after.1 (page-NoneOwned w ts n s f e),
              clear_waiting-NoneOwned ws after.0 after.1 (Fits-delete_listed ts n s f)
                  (rw step at ok),
            )
    ]

    Fits-cancel_listed :
        (ts : List TaskInfo) (refs : List LockRef) (n : ℕ) (s : A.State)
        → Fits s
        → Fits (cancel_listed A user ts refs n s).2
    Fits-cancel_listed ts refs n s =
        cancel_listed_inv A user q Fits (λ t. Unit) (λ w' s' h. trivially user (A.waiting w' q s'))
          (λ id s' h w. rw (A.cancel_waiting id w q s') (h w)) (λ t s' o h. Fits-delete t.id s' h)
          ts refs n s

    -- A clearing of the queue that reports no error leaves no task of the user in any of its three
    -- waiting lists, if the broker deletes the tasks that it is told to and no list is longer than
    -- the one page of thirty tasks that a listing returns.
    pub clear_in_queue-NoneOwned :
        (s : A.State)
        → Fits s
        → (clear_user_tasks_in_queue A user q s).0.failed ≡ false
        → (w : Waiting) → NoneOwned user (A.waiting w q (clear_user_tasks_in_queue A user q s).1)
    unfolding clear_user_tasks_in_queue
    clear_in_queue-NoneOwned s f ok w = elim (Option-cases (A.list_active q s)) [
      | inl e ↦ absurd (cc (rw (e, clear_user_tasks_in_queue) at ok))
      | inr (ts, e) ↦
          rw (e, clear_user_tasks_in_queue)
            (every
              (λ v. NoneOwned user (
                A.waiting v q
                  (clear_waiting A user q (pending ∷ scheduled ∷ retry ∷ []) 0
                    (cancel_listed A user ts [] 0 s).2).2))
              w
              (clear_waiting-NoneOwned (pending ∷ scheduled ∷ retry ∷ []) 0
                (cancel_listed A user ts [] 0 s).2 (Fits-cancel_listed ts [] 0 s f)
                (rw (e, clear_user_tasks_in_queue) at ok)))
    ]
