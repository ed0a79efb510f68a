-- ===== src/Handler/Music/Behind.antt =====
-- What the beginning that the music handlers share does with the user's lock.
use saveinator.Prelude.{
  ◌<◌, ◌≡◌, ◌≢◌, refl, sym, ap, ◌∙◌, true, false, [], ◌∷◌, none, some, arith, Bytes, ℕ, ℤ, inl, inr,
  if◌then◌else◌,
}
use saveinator.Queue.Asynq.{Asynq}
use saveinator.Redis.{Redis}
use saveinator.Redisx.Client.{Client, acquired, failed, lock_key, lock_value, release_user_lock}
use saveinator.Redisx.Lock.{acquire-acquired, acquire_held, text-release}
use saveinator.Handler.Enqueue.{is_admin}
use saveinator.Handler.Enqueue.Releases.{Acquired-cases, lock_ttl_positive}
use saveinator.Handler.Music.{Timeouts, Result, music_lock_ttl, acquire, release_lock, behind_lock}
use saveinator.Handler.Music.Tidy.{Tidy}

pub music_lock_ttl_positive : (t : Timeouts) (scene : Bytes) (n : ℤ) → 0 < music_lock_ttl t scene n
unfolding music_lock_ttl
music_lock_ttl_positive t scene n = ground (arith, lock_ttl_positive t.download)

module _ (R : Redis) (A : Asynq) (c : Client) (admin_id : ℤ) where
  -- what a lock that is taken does to the state
  pub acquire-lock :
      (user : ℤ) (scene drawn : Bytes) (ttl : ℕ) (r : R.State)
      → 0 < ttl
      → is_admin admin_id user ≡ false
      → (acquire R A c admin_id user scene ttl drawn r).0 ≡ acquired drawn
      → (R.text (lock_key c user) r ≡ none)
        × (R.text (lock_key c user) (acquire R A c admin_id user scene ttl drawn r).1
            ≡ some (lock_value scene drawn))
  unfolding acquire
  acquire-lock user scene drawn ttl r positive plain taken =
      rw (plain, acquire)
        (let (_, free, held) =
            acquire-acquired R c user scene drawn drawn ttl r positive
              (rw (plain, acquire) at taken) in
          (free, held))

  behind_lock_taken :
      (user : ℤ) (scene drawn token : Bytes) (ttl : ℕ)
      (body : Bytes → R.State → A.State → Result R A) (r : R.State) (a : A.State)
      → (acquire R A c admin_id user scene ttl drawn r).0 ≡ acquired token
      → behind_lock R A c admin_id user scene ttl drawn body r a
        ≡ body token (acquire R A c admin_id user scene ttl drawn r).1 a
  unfolding behind_lock
  behind_lock_taken user scene drawn token ttl body r a h = rw (h, behind_lock)

  release_lock_named :
      (user : ℤ) (scene token : Bytes) (r : R.State)
      → token ≢ []
      → release_lock R A c admin_id user scene token r
        ≡ (release_user_lock R c user scene token r).1
  unfolding release_lock
  release_lock_named user scene [] r ne = absurd (ne refl)
  release_lock_named user scene (b ∷ token) r ne = refl

  pub behind_lock-lock :
      (user : ℤ) (scene drawn : Bytes) (ttl : ℕ) (body : Bytes → R.State → A.State → Result R A)
      (r : R.State) (a : A.State)
      → ((token : Bytes) (r' : R.State) (a' : A.State)
          → Tidy R A c admin_id user scene token r' (body token r' a'))
      → 0 < ttl
      → is_admin admin_id user ≡ false
      → drawn ≢ []
      → (acquire R A c admin_id user scene ttl drawn r).0 ≡ acquired drawn
      → (release_user_lock R c user scene drawn (acquire R A c admin_id user scene ttl drawn r).1).0
        ≡ true
      → R.text (lock_key c user) (behind_lock R A c admin_id user scene ttl drawn body r a).2 ≡ (
          if (behind_lock R A c admin_id user scene ttl drawn body r a).0
          then some (lock_value scene drawn)
          else none)
  behind_lock-lock user scene drawn ttl body r a tidy positive plain ne taken answered =
      let lock = lock_key c user in
      let r' = (acquire R A c admin_id user scene ttl drawn r).1 in
      let held = (acquire-lock user scene drawn ttl r positive plain taken).1 in
      let freed =
        (text-release R c user scene drawn (lock_value scene drawn) r' held answered).0 refl in
      rw (behind_lock_taken user scene drawn drawn ttl body r a taken) (elim (tidy drawn r' a).0 [
        | inl (yes_queued, kept) ↦ rw yes_queued (ap (R.text lock) kept ∙ held)
        | inr (not_queued, free) ↦
            rw not_queued
              (ap (R.text lock) (free ∙ release_lock_named user scene drawn r' ne) ∙ freed)
      ])

  pub behind_lock_held :
      (user : ℤ) (scene drawn held : Bytes) (ttl : ℕ)
      (body : Bytes → R.State → A.State → Result R A) (r : R.State) (a : A.State)
      → is_admin admin_id user ≡ false
      → R.text (lock_key c user) r ≡ some held
      → ((behind_lock R A c admin_id user scene ttl drawn body r a).0 ≡ false)
        × ((behind_lock R A c admin_id user scene ttl drawn body r a).3 ≡ a)
  unfolding behind_lock acquire
  behind_lock_held user scene drawn held ttl body r a plain h =
      elim (acquire_held R c user scene drawn held ttl r h) [
        | inl e ↦ rw (plain, e, behind_lock, acquire) (refl, refl)
        | inr e ↦ rw (plain, e, behind_lock, acquire) (refl, refl)
      ]

  pub behind_lock-silent :
      (user : ℤ) (scene drawn : Bytes) (ttl : ℕ) (body : Bytes → R.State → A.State → Result R A)
      (r : R.State) (a : A.State)
      → ((token : Bytes) (r' : R.State) (a' : A.State)
          → Tidy R A c admin_id user scene token r' (body token r' a'))
      → (behind_lock R A c admin_id user scene ttl drawn body r a).1 ≡ []
      → (acquire R A c admin_id user scene ttl drawn r).0 ≡ failed
  unfolding behind_lock
  behind_lock-silent user scene drawn ttl body r a tidy silent =
      elim (Acquired-cases (acquire R A c admin_id user scene ttl drawn r).0) [
        | inl (token, e) ↦ absurd (
            (tidy token _ a).1 (
              ap (λ p. p.1) (sym (behind_lock_taken user scene drawn token ttl body r a e))
              ∙ silent))
        | inr (inl e) ↦ absurd (cc (rw (e, behind_lock) at silent))
        | inr (inr e) ↦ e
      ]
