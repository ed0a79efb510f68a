-- ===== src/Redisx/Trace.antt =====
-- Interleavings of the handlers and workers of one bot: the commands on locks and cancel flags that
-- any of them makes while a download holds its lock and no time to live runs out.
use saveinator.Prelude.{
  ℕ, ◌<◌, ◌≡◌, ◌≢◌, ◌⊎◌, ap, sym, ◌∙◌, true, none, some, arith, Bytes, ℤ, eq_ℤ, eq_ℤ_iff, Lacks,
  IsInt64, Option-cases, Bool-cases, inl, inr,
}
use saveinator.Redis.{Redis}
use saveinator.Redisx.Client.{
  Client, colon, acquired, busy, failed, lock_key, cancel_key, lock_value, acquire_user_lock,
  release_script, release_user_lock, force_release_user_lock, set_download_cancelled,
}
use saveinator.Redisx.Keys.{lock_key-injective, cancel_key-ne-lock_key}
use saveinator.Redisx.Lock.{acquire-acquired, acquire_held, text-release}

-- A call, by the method's name and arguments.
pub data Call : Type 0 where
  acquire : ℤ → Bytes → Bytes → ℕ → Call
  release : ℤ → Bytes → Bytes → Call
  force_release : ℤ → Call
  set_cancelled : Bytes → ℤ → Bytes → ℕ → Call

-- The call is not this download's own release, nor a forced release of its user; texts that become
-- part of a key hold no colon.
abbrev pub Foreign : ℤ → Bytes → Call → Type 0
Foreign user held (acquire u scenario token ttl) = IsInt64 u
Foreign user held (release u scenario token) =
    IsInt64 u × ((u ≡ user) → held ≢ lock_value scenario token)
Foreign user held (force_release u) = IsInt64 u × (u ≢ user)
Foreign user held (set_cancelled scenario u token ttl) = Lacks colon scenario × Lacks colon token

module _ (R : Redis) (c : Client) where
  -- a call on the lock of one user does not touch another key
  text-acquire_ne :
      (u : ℤ) (scenario token j : Bytes) (ttl : ℕ) (s : R.State)
      → j ≢ lock_key c u
      → (acquire_user_lock R c u scenario token ttl s).0 ≢ failed
      → R.text j (acquire_user_lock R c u scenario token ttl s).1 ≡ R.text j s
  unfolding acquire_user_lock
  text-acquire_ne u scenario token j ttl s ne ok =
      let k = lock_key c u in
      let v = lock_value scenario token in
      elim (Option-cases (R.setnx k v ttl s).0) [
        | inl e ↦ absurd (ok (rw e))
        | inr (b, e) ↦ elim (Bool-cases b) [
          | inl yes_b ↦
              ap (R.text j) (R.setnx_new k v ttl s (rw yes_b at e)).1
              ∙ R.text-stored_ne k v j ttl s ne
          | inr no_b ↦ ap (R.text j) (R.setnx_taken k v ttl s (rw no_b at e)).1
        ]
      ]

  text-release_script_ne :
      (k v j : Bytes) (s : R.State) → j ≢ k → R.text j (release_script R c k v s).1 ≡ R.text j s
  unfolding release_script
  text-release_script_ne k v j s ne = ground (arith, R.text-removed_ne k j s ne)

  pub text-release_ne :
      (u : ℤ) (scenario token j : Bytes) (s : R.State)
      → j ≢ lock_key c u
      → (release_user_lock R c u scenario token s).0 ≡ true
      → R.text j (release_user_lock R c u scenario token s).1 ≡ R.text j s
  unfolding release_user_lock
  text-release_ne u scenario token j s ne ok =
      let k = lock_key c u in
      let v = lock_value scenario token in
      let script = release_script R c k v in
      elim (Option-cases (R.eval script s).0) [
        | inl e ↦ absurd (cc (rw e at ok))
        | inr (n, e) ↦ ap (R.text j) (R.eval_lem script s n e).1 ∙ text-release_script_ne k v j s ne
      ]

  unfoldable pub run_call : Call → R.State → R.State
  run_call (acquire u scenario token ttl) s = (acquire_user_lock R c u scenario token ttl s).1
  run_call (release u scenario token) s = (release_user_lock R c u scenario token s).1
  run_call (force_release u) s = (force_release_user_lock R c u s).1
  run_call (set_cancelled scenario u token ttl) s =
      (set_download_cancelled R c scenario u token ttl s).1

  -- The server answered the call.
  abbrev pub Answered : Call → R.State → Type 0
  Answered (acquire u scenario token ttl) s =
      (acquire_user_lock R c u scenario token ttl s).0 ≢ failed
  Answered (release u scenario token) s = (release_user_lock R c u scenario token s).0 ≡ true
  Answered (force_release u) s = (force_release_user_lock R c u s).0 ≡ true
  Answered (set_cancelled scenario u token ttl) s =
      (set_download_cancelled R c scenario u token ttl s).0 ≡ true

  pub data Trace (user : ℤ) (held : Bytes) (s : R.State) : R.State → Type 0 where
    here : Trace user held s s
    then :
        {t : R.State}
        → Trace user held s t
        → (call : Call) → Foreign user held call
        → Answered call t
        → Trace user held s (run_call call t)

  module _ (plain : Lacks colon c.prefix) (user : ℤ) (id : IsInt64 user) (held : Bytes) where
    other_key : (u : ℤ) → IsInt64 u → u ≢ user → lock_key c user ≢ lock_key c u
    other_key u iu ne e = ne (sym (lock_key-injective c c user u plain plain id iu e).1)

    abbrev Holds : R.State → Type 0
    Holds s = R.text (lock_key c user) s ≡ some held

    acquire-Holds :
        (u : ℤ) (scenario token : Bytes) (ttl : ℕ) (s : R.State)
        → IsInt64 u
        → (acquire_user_lock R c u scenario token ttl s).0 ≢ failed
        → Holds s
        → Holds (acquire_user_lock R c u scenario token ttl s).1
    acquire-Holds u scenario token ttl s iu ok h = elim (Bool-cases (eq_ℤ u user)) [
      | inl e ↦
          let same = (eq_ℤ_iff u user).0 e in
          elim (acquire_held R c u scenario token held ttl s (rw same h)) [
            | inl bad ↦ absurd (ok bad)
            | inr kept ↦ rw kept h
          ]
      | inr e ↦
          text-acquire_ne u scenario token (lock_key c user) ttl s
            (other_key u iu (λ p. cc (e, (eq_ℤ_iff u user).1 p))) ok
          ∙ h
    ]

    release-Holds :
        (u : ℤ) (scenario token : Bytes) (s : R.State)
        → IsInt64 u
        → (u ≡ user → held ≢ lock_value scenario token)
        → (release_user_lock R c u scenario token s).0 ≡ true
        → Holds s
        → Holds (release_user_lock R c u scenario token s).1
    release-Holds u scenario token s iu other ok h = elim (Bool-cases (eq_ℤ u user)) [
      | inl e ↦
          let same = (eq_ℤ_iff u user).0 e in
          rw ((text-release R c u scenario token held s (rw same h) ok).1 (other same)) h
      | inr e ↦
          text-release_ne u scenario token (lock_key c user) s
            (other_key u iu (λ p. cc (e, (eq_ℤ_iff u user).1 p))) ok
          ∙ h
    ]

    call-Holds :
        (call : Call) (s : R.State)
        → Foreign user held call
        → Answered call s
        → Holds s
        → Holds (run_call call s)
    unfolding run_call force_release_user_lock set_download_cancelled
    call-Holds (acquire u scenario token ttl) s f ok h = acquire-Holds u scenario token ttl s f ok h
    call-Holds (release u scenario token) s f ok h = release-Holds u scenario token s f.0 f.1 ok h
    call-Holds (force_release u) s f ok h =
        ap (R.text (lock_key c user)) (R.del_lem (lock_key c u) s ok)
        ∙ R.text-removed_ne (lock_key c u) (lock_key c user) s (other_key u f.0 f.1)
        ∙ h
    call-Holds (set_cancelled scenario u token ttl) s f ok h =
        let k = cancel_key c scenario u token in
        let ne : lock_key c user ≢ k =
          λ e. cancel_key-ne-lock_key c scenario u user token plain f.0 f.1 (sym e) in
        ap (R.text (lock_key c user)) (R.set_lem k _ ttl s ok)
        ∙ R.text-stored_ne k _ (lock_key c user) ttl s ne
        ∙ h

    -- A lock outlives any interleaving of answered calls for whatever users: takings, releases with
    -- another scenario or token, forced releases of other users and cancel flags, as long as its own
    -- release and a forced release of its user are not among them and no key expires.
    pub Trace-Holds : {s t : R.State} → Trace user held s t → Holds s → Holds t
    Trace-Holds here h = h
    Trace-Holds (then {t} tr call f ok) h = call-Holds call t f ok (Trace-Holds tr h)

    -- A user has one download at a time. After a successful taking with a positive time to live,
    -- and any interleaving of answered calls for whatever users (takings, releases with another
    -- scenario or token, forced releases of other users, cancel flags), a further taking for the
    -- user answers that the user is busy and changes nothing, or errs; and the own release, if
    -- answered, frees the lock. The ids are of int64, the bot's prefix and the flags' texts hold
    -- no colon, and no key expires.
    pub acquire-Trace :
        (scenario token t : Bytes) (ttl : ℕ) (s s' : R.State)
        → 0 < ttl
        → held ≡ lock_value scenario token
        → (acquire_user_lock R c user scenario token ttl s).0 ≡ acquired t
        → Trace user held (acquire_user_lock R c user scenario token ttl s).1 s'
        → ((scenario' token' : Bytes) (ttl' : ℕ)
            → ((acquire_user_lock R c user scenario' token' ttl' s').0 ≡ failed)
              ⊎ (acquire_user_lock R c user scenario' token' ttl' s' ≡ (busy, s')))
          × ((release_user_lock R c user scenario token s').0 ≡ true
              → R.text (lock_key c user) (release_user_lock R c user scenario token s').1 ≡ none)
    acquire-Trace scenario token t ttl s s' pos_ttl own ok tr =
        let (_, _, taken) = acquire-acquired R c user scenario token t ttl s pos_ttl ok in
        let still = Trace-Holds tr (taken ∙ ap some (sym own)) in
        (
          (λ scenario' token' ttl'. acquire_held R c user scenario' token' held ttl' s' still),
          (λ answered. (text-release R c user scenario token held s' still answered).0 own),
        )
