-- ===== src/Queue/Clear/Foreign.antt =====
-- Clearing deletes tasks of the user alone.
use saveinator.Prelude.{
  ◌≡◌, refl, ◌∙◌, true, false, List, arith, Bytes, ℤ, eq_bytes, eq_bytes_iff, keep, keep-keep, All,
  All-map, All-keep, Bool-cases, inl, inr,
}
use saveinator.Queue.Asynq.{Asynq, TaskInfo, Waiting, without}
use saveinator.Queue.Clear.{owned, clear_user_tasks_in_queue}
use saveinator.Queue.Clear.Rule.{clear_in_queue_inv}

-- The tasks of a list that carry an id.
abbrev pub with_id : Bytes → List TaskInfo → List TaskInfo
with_id id = keep (λ t. eq_bytes t.id id)

-- No task of the user in the list carries the id.
abbrev pub NotOwned : ℤ → Bytes → List TaskInfo → Type 0
NotOwned user id = All (λ t. owned user t ≡ true → eq_bytes t.id id ≡ false)

eq_bytes_chain : (a b c : Bytes) → eq_bytes c b ≡ false → eq_bytes a b ≡ true → eq_bytes a c ≡ false
eq_bytes_chain a b c n e = ground (arith, eq_bytes_iff a b, eq_bytes_iff a c, eq_bytes_iff c b)

NotOwned-without :
    (user : ℤ) (id j : Bytes) (ts : List TaskInfo)
    → NotOwned user id ts
    → NotOwned user id (without j ts)
NotOwned-without user id j ts h = All-keep _ _ ts (All-map _ _ (λ t n e. n) ts h)

with_id-without :
    (id j : Bytes) (ts : List TaskInfo)
    → eq_bytes j id ≡ false
    → with_id id (without j ts) ≡ with_id id ts
with_id-without id j ts n = keep-keep _ _ ts (λ t e. ground (arith, eq_bytes_chain t.id id j n e))

module _ (A : Asynq) (user : ℤ) (q : Bytes) (id : Bytes) where
  -- what the run keeps, from a state that it began in
  record Kept (s s' : A.State) : Type 0 where
    not_owned : (w : Waiting) → NotOwned user id (A.waiting w q s')
    same : (w : Waiting) → with_id id (A.waiting w q s') ≡ with_id id (A.waiting w q s)

  Kept-delete :
      (s s' : A.State) (t : TaskInfo)
      → eq_bytes t.id id ≡ false
      → Kept s s'
      → Kept s (A.delete q t.id s').1
  Kept-delete s s' t n h = elim (Bool-cases (A.delete q t.id s').0) [
    | inl e ↦ record {
      not_owned = λ w.
          rw (A.delete_removes q t.id w s' e)
            (NotOwned-without user id t.id (A.waiting w q s') (h.not_owned w));
      same = λ w.
          rw (A.delete_removes q t.id w s' e)
            (with_id-without id t.id (A.waiting w q s') n ∙ h.same w);
    }
    | inr e ↦ record {
      not_owned = λ w. rw (A.delete_refused q t.id w s' e) (h.not_owned w);
      same = λ w. rw (A.delete_refused q t.id w s' e) (h.same w);
    }
  ]

  Kept-cancel : (s s' : A.State) (j : Bytes) → Kept s s' → Kept s (A.cancel j s').1
  Kept-cancel s s' j h = record {
    not_owned = λ w. rw (A.cancel_waiting j w q s') (h.not_owned w);
    same = λ w. rw (A.cancel_waiting j w q s') (h.same w);
  }

  -- A task id that no task of the user carries in the queue is not cleared from it: each waiting list
  -- holds the same tasks of that id as before, whatever the broker replied.
  pub with_id-clear_in_queue :
      (w : Waiting) (s : A.State)
      → ((w' : Waiting) → NotOwned user id (A.waiting w' q s))
      → with_id id (A.waiting w q (clear_user_tasks_in_queue A user q s).1)
        ≡ with_id id (A.waiting w q s)
  with_id-clear_in_queue w s h =
      (clear_in_queue_inv A user q (Kept s) (λ t. eq_bytes t.id id ≡ false)
          (λ w' s' k. k.not_owned w') (λ j s' k. Kept-cancel s s' j k)
          (λ t s' n k. Kept-delete s s' t n k) s (record { not_owned = h; same = λ w'. refl })).same
        w
