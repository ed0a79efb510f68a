-- ===== src/Redisx/Lock.antt =====
-- A user has one download at a time: the lock between its taking and its release.
use saveinator.Prelude.{
  ℕ, ◌<◌, ◌≡◌, ◌≢◌, ◌⊎◌, refl, ap, ◌∙◌, true, [], ◌∷◌, Option, none, some, arith, Bytes,
  eq_bytes_iff, ℤ, Lacks, Option-cases, Bool-cases, inl, inr,
}
use saveinator.Text.Split.{split_n2, split_n2_first}
use saveinator.Redis.{Redis}
use saveinator.Redisx.Client.{
  Client, colon, acquired, busy, failed, ActiveDownload, active_of_parts, lock_key, lock_value,
  acquire_user_lock, release_script, release_user_lock, get_active_download,
}

-- what a lock holds is read back to its scenario and token
active-lock_value :
    (user : ℤ) (scenario : Bytes) (b : ℕ) (token : Bytes)
    → Lacks colon scenario
    → active_of_parts user (split_n2 colon (lock_value scenario (b ∷ token)))
      ≡ some (record { user_id = user; scenario = scenario; token = b ∷ token })
unfolding lock_value active_of_parts
active-lock_value user scenario b token hs = rw (split_n2_first colon scenario (b ∷ token) hs)

module _ (R : Redis) (c : Client) where
  -- What a successful taking says of the lock before and after it.
  pub acquire-acquired :
      (user : ℤ) (scenario token t : Bytes) (ttl : ℕ) (s : R.State)
      → 0 < ttl
      → (acquire_user_lock R c user scenario token ttl s).0 ≡ acquired t
      → (t ≡ token)
        × (R.text (lock_key c user) s ≡ none)
        × (R.text (lock_key c user) (acquire_user_lock R c user scenario token ttl s).1
            ≡ some (lock_value scenario token))
  unfolding acquire_user_lock
  acquire-acquired user scenario token t ttl s pos_ttl h =
      let k = lock_key c user in
      let v = lock_value scenario token in
      elim (Option-cases (R.setnx k v ttl s).0) [
        | inl e ↦ absurd (cc (rw e at h))
        | inr (b, e) ↦ elim (Bool-cases b) [
          | inl yes_b ↦
              let now = R.setnx_new k v ttl s (rw yes_b at e) in
              (
                ground (arith, e, yes_b, h),
                now.0,
                rw (now.1) (R.text-stored_self k v ttl s pos_ttl),
              )
          | inr no_b ↦ absurd (ground (arith, e, no_b, h))
        ]
      ]

  -- While a lock is held, no download of the same user takes it, and the attempt that answers leaves
  -- the server as it was.
  pub acquire_held :
      (user : ℤ) (scenario token held : Bytes) (ttl : ℕ) (s : R.State)
      → R.text (lock_key c user) s ≡ some held
      → ((acquire_user_lock R c user scenario token ttl s).0 ≡ failed)
        ⊎ (acquire_user_lock R c user scenario token ttl s ≡ (busy, s))
  unfolding acquire_user_lock
  acquire_held user scenario token held ttl s h =
      let k = lock_key c user in
      let v = lock_value scenario token in
      elim (Option-cases (R.setnx k v ttl s).0) [
        | inl e ↦ inl (rw e)
        | inr (b, e) ↦ elim (Bool-cases b) [
          | inl yes_b ↦ absurd (cc (h, (R.setnx_new k v ttl s (rw yes_b at e)).0))
          | inr no_b ↦
              let taken = R.setnx_taken k v ttl s (rw no_b at e) in
              inr (ground (arith, e, no_b, taken.1))
        ]
      ]

  -- A release that answers frees the lock that was taken for the same scenario and token, and leaves
  -- a lock that holds anything else as it is.
  pub text-release :
      (user : ℤ) (scenario token held : Bytes) (s : R.State)
      → R.text (lock_key c user) s ≡ some held
      → (release_user_lock R c user scenario token s).0 ≡ true
      → (held ≡ lock_value scenario token
          → R.text (lock_key c user) (release_user_lock R c user scenario token s).1 ≡ none)
        × (held ≢ lock_value scenario token → (release_user_lock R c user scenario token s).1 ≡ s)
  unfolding release_user_lock
  text-release user scenario token held s h ok =
      let k = lock_key c user in
      let v = lock_value scenario token in
      let script = release_script R c k v in
      elim (Option-cases (R.eval script s).0) [
        | inl e ↦ absurd (cc (rw e at ok))
        | inr (n, e) ↦
            let ran = (R.eval_lem script s n e).1 in
            (
              (λ same. rw ran (
                  unfold release_script in
                  rw (h, release_script)
                    (ground (arith, eq_bytes_iff held v, R.text-removed_self k s)))),
              (λ other. rw ran (
                  unfold release_script in
                  rw (h, release_script) (ground (arith, eq_bytes_iff held v)))),
            )
      ]

  -- Behind a successful taking with a positive time to live, a reading of the lock that answers
  -- finds the download's scenario and token, if the scenario holds no colon and the token is not
  -- empty.
  pub get_active-acquire :
      (user : ℤ) (scenario token t : Bytes) (ttl : ℕ) (s : R.State) (found : Option ActiveDownload)
      → 0 < ttl
      → Lacks colon scenario
      → token ≢ []
      → (acquire_user_lock R c user scenario token ttl s).0 ≡ acquired t
      → get_active_download R c user (acquire_user_lock R c user scenario token ttl s).1
        ≡ some found
      → found ≡ some (record { user_id = user; scenario = scenario; token = t })
  unfolding get_active_download
  get_active-acquire user scenario [] t ttl s found pos_ttl hs ne h g = absurd (ne refl)
  get_active-acquire user scenario (b ∷ token) t ttl s found pos_ttl hs ne h g =
      let (same, free, held) = acquire-acquired user scenario (b ∷ token) t ttl s pos_ttl h in
      let s' = (acquire_user_lock R c user scenario (b ∷ token) ttl s).1 in
      elim (Option-cases (R.get (lock_key c user) s')) [
        | inl e ↦ absurd (cc (rw (e, get_active_download) at g))
        | inr (v, e) ↦
            let value = R.get_lem (lock_key c user) s' v e ∙ held in
            let g' = rw (e ∙ ap some value, get_active_download) at g in
            cc (g', same, active-lock_value user scenario b token hs)
      ]
