-- ===== src/Handler/Clear/Frees.antt =====
-- What the command /clear does to the user's lock and download, and what it answers.
use saveinator.Prelude.{
  ◌≡◌, ◌≢◌, refl, ap, sym, ◌∙◌, Bool, true, List, [], ◌∷◌, Option, none, some, arith, Bytes, codes,
  ℤ, Lacks, All, Bool-cases, inl, inr,
}
use saveinator.Queue.Asynq.{Asynq}
use saveinator.Queue.Clear.{LockRef, clear_user_tasks}
use saveinator.Redis.{Redis}
use saveinator.Redisx.Client.{
  Client, ActiveDownload, colon, lock_key, cancel_key, set_download_cancelled,
  force_release_user_lock, get_active_download,
}
use saveinator.Redisx.Keys.{cancel_key-ne-lock_key}
use saveinator.Handler.Cancel.{active_or_none, cancel_ttl}
use saveinator.Handler.Clear.{
  is_active, mark_active, clear_lock, mark_refs, clear_queues_of, on_clear, on_clear_fleet,
}

module _ (R : Redis) (c : Client) where
  -- the server answers both writes of the first half
  abbrev pub Answers : ℤ → ActiveDownload → R.State → Type 0
  Answers user active r =
      ((set_download_cancelled R c active.scenario user active.token cancel_ttl r).0 ≡ true)
      × ((force_release_user_lock R c user (mark_active R c user r)).0 ≡ true)

  mark_active-text :
      (user : ℤ) (active : ActiveDownload) (r : R.State)
      → get_active_download R c user r ≡ some (some active)
      → (set_download_cancelled R c active.scenario user active.token cancel_ttl r).0 ≡ true
      → R.text (cancel_key c active.scenario user active.token) (mark_active R c user r)
        ≡ some (codes "1")
  unfolding mark_active set_download_cancelled
  mark_active-text user active r e ok =
      let flag = cancel_key c active.scenario user active.token in
      rw (e, mark_active)
        (ap (R.text flag) (R.set_lem flag (codes "1") cancel_ttl r ok)
          ∙ R.text-stored_self flag (codes "1") cancel_ttl r (omega arith))

  -- Where an active download is read, the server answers and neither the prefix nor the
  -- download's texts hold a colon, its cancel flag is set and the user's lock is free behind the
  -- first half of /clear, which counts as something cleared.
  pub text-clear_lock :
      (user : ℤ) (active : ActiveDownload) (r : R.State)
      → Lacks colon c.prefix
      → Lacks colon active.scenario
      → Lacks colon active.token
      → get_active_download R c user r ≡ some (some active)
      → Answers user active r
      → ((clear_lock R c user r).0 ≡ true)
        × (R.text (lock_key c user) (clear_lock R c user r).1 ≡ none)
        × (R.text (cancel_key c active.scenario user active.token) (clear_lock R c user r).1
            ≡ some (codes "1"))
  unfolding clear_lock force_release_user_lock
  text-clear_lock user active r plain hs ht e (set_ok, del_ok) =
      let lock = lock_key c user in
      let flag = cancel_key c active.scenario user active.token in
      let marked = mark_active R c user r in
      let gone = R.del_lem lock marked del_ok in
      let apart = cancel_key-ne-lock_key c active.scenario user user active.token plain hs ht in
      (
        ap (λ (x : Option (Option ActiveDownload)). is_active (active_or_none x)) e,
        ap (R.text lock) gone ∙ R.text-removed_self lock marked,
        ap (R.text flag) gone
            ∙ R.text-removed_ne lock flag marked apart
            ∙ mark_active-text user active r e set_ok,
      )

  -- the server answers the write of every flag of the loop
  abbrev pub MarksAnswered : ℤ → List LockRef → R.State → Type 0
  MarksAnswered user [] r = Unit
  MarksAnswered user (ref ∷ refs) r =
      ((set_download_cancelled R c ref.scene user ref.token cancel_ttl r).0 ≡ true)
      × MarksAnswered user refs (set_download_cancelled R c ref.scene user ref.token cancel_ttl r).1

  abbrev pub PlainRef : LockRef → Type 0
  PlainRef ref = Lacks colon ref.scene × Lacks colon ref.token

  text-set_cancelled_ne :
      (user : ℤ) (ref : LockRef) (r : R.State) (j : Bytes)
      → j ≢ cancel_key c ref.scene user ref.token
      → (set_download_cancelled R c ref.scene user ref.token cancel_ttl r).0 ≡ true
      → R.text j (set_download_cancelled R c ref.scene user ref.token cancel_ttl r).1 ≡ R.text j r
  unfolding set_download_cancelled
  text-set_cancelled_ne user ref r j ne ok =
      let flag = cancel_key c ref.scene user ref.token in
      ap (R.text j) (R.set_lem flag (codes "1") cancel_ttl r ok)
      ∙ R.text-stored_ne flag (codes "1") j cancel_ttl r ne

  text-mark_refs :
      (user : ℤ) (refs : List LockRef) (r : R.State)
      → Lacks colon c.prefix
      → All PlainRef refs
      → MarksAnswered user refs r
      → R.text (lock_key c user) (mark_refs R c user refs r) ≡ R.text (lock_key c user) r
  unfolding mark_refs
  text-mark_refs user [] r plain hs ok = refl
  text-mark_refs user (ref ∷ refs) r plain (h, hs) (ok, oks) =
      let apart = cancel_key-ne-lock_key c ref.scene user user ref.token plain h.0 h.1 in
      text-mark_refs user refs (set_download_cancelled R c ref.scene user ref.token cancel_ttl r).1
        plain hs oks
      ∙ text-set_cancelled_ne user ref r (lock_key c user) (λ e. apart (sym e)) ok

module _ (R : Redis) (A : Asynq) (c : Client) where
  -- what the clearing of those queues asks of the flags to set
  abbrev pub Marked : ℤ → List Bytes → R.State → A.State → Type 0
  Marked user queues r a =
      All (PlainRef R c) (clear_user_tasks A user queues a).0.lock_refs
      × MarksAnswered R c user (clear_user_tasks A user queues a).0.lock_refs
          (clear_lock R c user r).1

  -- The lock is free behind the whole of /clear, in both kinds of bot and on every way out, if the
  -- server answers and no text that becomes part of a flag's key holds a colon.
  pub on_clear-lock :
      (queue : Bytes) (user : ℤ) (inspector : Bool) (r : R.State) (a : A.State)
      → Lacks colon c.prefix
      → (force_release_user_lock R c user (mark_active R c user r)).0 ≡ true
      → Marked user [] r a
      → Marked user (queue ∷ []) r a
      → (R.text (lock_key c user) (on_clear R A c user inspector r a).1 ≡ none)
        × (R.text (lock_key c user) (on_clear_fleet R A c queue user inspector r a).1 ≡ none)
  unfolding on_clear on_clear_fleet
  on_clear-lock queue user inspector r a plain ok main fleet =
      (frees [] main, frees (queue ∷ []) fleet)
    where
      free : R.text (lock_key c user) (clear_lock R c user r).1 ≡ none
      free =
          unfold clear_lock in
          unfold force_release_user_lock in
          ap (R.text (lock_key c user)) (R.del_lem (lock_key c user) (mark_active R c user r) ok)
          ∙ R.text-removed_self (lock_key c user) (mark_active R c user r)

      frees :
          (queues : List Bytes)
          → Marked user queues r a
          → R.text (lock_key c user) (clear_queues_of R A c queues user inspector r a).1 ≡ none
      frees queues marks = elim (Bool-cases inspector) [
        | inr e ↦ rw e free
        | inl e ↦ elim (Bool-cases (clear_user_tasks A user queues a).0.failed) [
          | inl f ↦ rw (e, f) free
          | inr f ↦
              rw (e, f)
                (text-mark_refs R c user (clear_user_tasks A user queues a).0.lock_refs
                    (clear_lock R c user r).1 plain marks.0 marks.1
                  ∙ free)
        ]
      ]
