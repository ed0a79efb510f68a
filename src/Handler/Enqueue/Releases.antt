-- ===== src/Handler/Enqueue/Releases.antt =====
-- Every way out of an enqueuing leaves the lock as it should be.
use saveinator.Prelude.{
  ◌<◌, ◌≡◌, ◌≢◌, ◌⊎◌, refl, ap, ◌∙◌, Bool, true, false, [], ◌∷◌, Option, none, some, arith, Bytes,
  ℤ, pos, negsuc, Bool-cases, inl, inr,
}
use saveinator.Queue.Asynq.{Asynq}
use saveinator.Queue.Client.{enqueue}
use saveinator.Redis.{Redis}
use saveinator.Redisx.Client.{
  Client, Acquired, acquired, busy, failed, lock_key, lock_value, acquire_user_lock,
  release_user_lock,
}
use saveinator.Redisx.Lock.{acquire-acquired, acquire_held, text-release}
use saveinator.Handler.Enqueue.{
  Job, queued, rejected, lock_error, should_acquire_user_lock, is_admin, lock_ttl, payload_of,
  request_of, acquire_or_admin, take_lock, free_lock, enqueue_locked, enqueue_link,
}

pub lock_ttl_positive : (t : ℤ) → 0 < lock_ttl t
unfolding lock_ttl
lock_ttl_positive (pos n) = ground arith
lock_ttl_positive (negsuc n) = omega arith

pub Acquired-cases : (x : Acquired) → ((t : Bytes) × (x ≡ acquired t)) ⊎ ((x ≡ busy) ⊎ (x ≡ failed))
Acquired-cases (acquired t) = inl (t, refl)
Acquired-cases busy = inr (inl refl)
Acquired-cases failed = inr (inr refl)

not_admin :
    (j : Job) (admin : ℤ)
    → should_acquire_user_lock j.user j.batch admin ≡ true
    → is_admin admin j.user ≡ false
unfolding should_acquire_user_lock is_admin
not_admin j admin h = ground (arith, h)

module _ (R : Redis) (A : Asynq) (c : Client) (admin_id timeout_sec : ℤ) where
  take_lock_wanted :
      (j : Job) (drawn : Bytes) (r : R.State)
      → should_acquire_user_lock j.user j.batch admin_id ≡ true
      → take_lock R A c admin_id timeout_sec j drawn r
        ≡ acquire_user_lock R c j.user j.scene drawn (lock_ttl timeout_sec) r
  unfolding take_lock acquire_or_admin
  take_lock_wanted j drawn r h = rw (h, take_lock, not_admin j admin_id h)

  -- the outcome behind a taken lock
  locked-cases :
      (j : Job) (token : Bytes) (status : Option ℤ) (nw : Bool) (r : R.State) (a : A.State)
      → (((enqueue_locked R A c admin_id timeout_sec j token status nw r a).0 ≡ queued)
          × ((enqueue_locked R A c admin_id timeout_sec j token status nw r a).1 ≡ r))
        ⊎ (((enqueue_locked R A c admin_id timeout_sec j token status nw r a).0 ≢ queued)
            × ((enqueue_locked R A c admin_id timeout_sec j token status nw r a).1
                ≡ free_lock R A c admin_id timeout_sec j token r))
  unfolding enqueue_locked
  locked-cases j token none nw r a = inr ((λ e. cc), refl)
  locked-cases j token (some m) nw r a =
      elim (Bool-cases (enqueue A (request_of j.task_type (payload_of j token m nw)) a).0) [
        | inl e ↦ inl (rw (e, enqueue_locked) (refl, refl))
        | inr e ↦ inr (rw (e, enqueue_locked) ((λ p. cc), refl))
      ]

  free_lock_named :
      (j : Job) (token : Bytes) (r : R.State)
      → token ≢ []
      → free_lock R A c admin_id timeout_sec j token r
        ≡ (release_user_lock R c j.user j.scene token r).1
  unfolding free_lock
  free_lock_named j [] r ne = absurd (ne refl)
  free_lock_named j (b ∷ token) r ne = refl

  free_lock_unnamed : (j : Job) (r : R.State) → free_lock R A c admin_id timeout_sec j [] r ≡ r
  unfolding free_lock
  free_lock_unnamed j r = refl

  take_lock_unwanted :
      (j : Job) (drawn : Bytes) (r : R.State)
      → should_acquire_user_lock j.user j.batch admin_id ≡ false
      → take_lock R A c admin_id timeout_sec j drawn r ≡ (acquired [], r)
  unfolding take_lock
  take_lock_unwanted j drawn r h = rw (h, take_lock)

  pub link_acquired :
      (j : Job) (drawn t : Bytes) (status : Option ℤ) (nw : Bool) (r : R.State) (a : A.State)
      → (take_lock R A c admin_id timeout_sec j drawn r).0 ≡ acquired t
      → enqueue_link R A c admin_id timeout_sec j drawn status nw r a
        ≡ enqueue_locked R A c admin_id timeout_sec j t status nw
            (take_lock R A c admin_id timeout_sec j drawn r).1
            a
  unfolding enqueue_link
  link_acquired j drawn t status nw r a h = rw (h, enqueue_link)

  -- Where a lock is wanted, is taken with a token that is not empty and a release of it right
  -- away would be answered, the user's lock holds this download's token behind an enqueuing that
  -- queued the task, and is free behind one that failed.
  pub enqueue_link-lock :
      (j : Job) (drawn : Bytes) (status : Option ℤ) (nw : Bool) (r : R.State) (a : A.State)
      → should_acquire_user_lock j.user j.batch admin_id ≡ true
      → drawn ≢ []
      → (take_lock R A c admin_id timeout_sec j drawn r).0 ≡ acquired drawn
      → (release_user_lock R c j.user j.scene drawn
          (take_lock R A c admin_id timeout_sec j drawn r).1).0
        ≡ true
      → ((enqueue_link R A c admin_id timeout_sec j drawn status nw r a).0 ≡ queued
          → R.text
              (lock_key c j.user)
              (enqueue_link R A c admin_id timeout_sec j drawn status nw r a).1
            ≡ some (lock_value j.scene drawn))
        × ((enqueue_link R A c admin_id timeout_sec j drawn status nw r a).0 ≢ queued
            → R.text
                (lock_key c j.user)
                (enqueue_link R A c admin_id timeout_sec j drawn status nw r a).1
              ≡ none)
  enqueue_link-lock j drawn status nw r a wanted ne taken answered =
      let lock = lock_key c j.user in
      let r' = (take_lock R A c admin_id timeout_sec j drawn r).1 in
      let how = take_lock_wanted j drawn r wanted in
      let (_, _, held) =
        acquire-acquired R c j.user j.scene drawn drawn (lock_ttl timeout_sec) r
          (lock_ttl_positive timeout_sec) (rw how at taken) in
      let held' : R.text lock r' ≡ some (lock_value j.scene drawn) =
        ap (λ p. R.text lock p.1) how ∙ held in
      let freed =
        (text-release R c j.user j.scene drawn (lock_value j.scene drawn) r' held' answered).0
          refl in
      rw (link_acquired j drawn drawn status nw r a taken)
        (elim (locked-cases j drawn status nw r' a) [
          | inl (yes_queued, kept) ↦
              ((λ q. ap (R.text lock) kept ∙ held'), (λ n. absurd (n yes_queued)))
          | inr (not_queued, free) ↦ (
            (λ q. absurd (not_queued q)),
            (λ n. ap (R.text lock) (free ∙ free_lock_named j drawn r' ne) ∙ freed),
          )
        ])

  -- While the user's lock is held, an enqueuing that wants a lock queues no task, and what it returns is
  -- a rejection that changes nothing, or the error of the lock.
  pub enqueue_link-held :
      (j : Job) (drawn held : Bytes) (status : Option ℤ) (nw : Bool) (r : R.State) (a : A.State)
      → should_acquire_user_lock j.user j.batch admin_id ≡ true
      → R.text (lock_key c j.user) r ≡ some held
      → ((enqueue_link R A c admin_id timeout_sec j drawn status nw r a).0 ≡ lock_error)
          × ((enqueue_link R A c admin_id timeout_sec j drawn status nw r a).2 ≡ a)
        ⊎ (enqueue_link R A c admin_id timeout_sec j drawn status nw r a ≡ (rejected, r, a))
  unfolding enqueue_link
  enqueue_link-held j drawn held status nw r a wanted h =
      let how = take_lock_wanted j drawn r wanted in
      elim (acquire_held R c j.user j.scene drawn held (lock_ttl timeout_sec) r h) [
        | inl e ↦ inl (rw (ap (λ p. p.0) how ∙ e, enqueue_link) (refl, refl))
        | inr e ↦ inr (
            rw (how ∙ e, enqueue_link)
              (ap (λ (p : Acquired × R.State). (rejected, p.1, a)) (how ∙ e)))
      ]

  -- An enqueuing that wants no lock, of a batch or of the administrator, leaves the server as it is.
  pub enqueue_link-unlocked :
      (j : Job) (drawn : Bytes) (status : Option ℤ) (nw : Bool) (r : R.State) (a : A.State)
      → should_acquire_user_lock j.user j.batch admin_id ≡ false
      → (enqueue_link R A c admin_id timeout_sec j drawn status nw r a).1 ≡ r
  enqueue_link-unlocked j drawn status nw r a h =
      let how = take_lock_unwanted j drawn r h in
      let step = link_acquired j drawn [] status nw r a (ap (λ p. p.0) how) in
      let same : (take_lock R A c admin_id timeout_sec j drawn r).1 ≡ r = ap (λ p. p.1) how in
      rw step
        (elim (locked-cases j [] status nw (take_lock R A c admin_id timeout_sec j drawn r).1 a) [
          | inl (_, kept) ↦ kept ∙ same
          | inr (_, free) ↦
              free ∙ free_lock_unnamed j (take_lock R A c admin_id timeout_sec j drawn r).1 ∙ same
        ])
