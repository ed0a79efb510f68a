-- ===== src/Youtube/Session/Mutate.antt =====
-- What is read of a session behind its saving and its clearing.
use saveinator.Prelude.{
  ◌≡◌, sym, ap, ◌∙◌, true, Option, none, some, arith, Bytes, ℤ, Option-cases, Bool-cases, inl, inr,
}
use saveinator.Redis.{Redis}
use saveinator.Youtube.Session.{
  PendingSession, session_key, session_ttl, Coding, save, get, mutate, clear,
}

module _ (R : Redis) (J : Coding) where
  abbrev session_of : Option Bytes → Option PendingSession
  session_of none = none
  session_of (some raw) = J.unmarshal raw

  pub get-text :
      (user : ℤ) (r : R.State) (o : Option PendingSession)
      → get R J user r ≡ some o
      → session_of (R.text (session_key user) r) ≡ o
  unfolding get
  get-text user r o h = elim (Option-cases (R.get (session_key user) r)) [
    | inl e ↦ absurd (cc (rw (e, get) at h))
    | inr (v, e) ↦ rw (sym (R.get_lem (session_key user) r v e)) (elim (Option-cases v) [
      | inl e1 ↦ rw e1 (cc (rw (e, e1, get) at h))
      | inr (raw, e1) ↦ rw e1 (cc (rw (e, e1, get) at h))
    ])
  ]

  pub save-text :
      (session : PendingSession) (r : R.State)
      → (save R J session r).0 ≡ true
      → (raw : Bytes) × (J.marshal session ≡ some raw)
        × ((save R J session r).1 ≡ R.stored (session_key session.user_id) raw session_ttl r)
  unfolding save
  save-text session r h = elim (Option-cases (J.marshal session)) [
    | inl e ↦ absurd (cc (rw (e, save) at h))
    | inr (raw, e) ↦ (raw, e, rw (e, save) (R.set_lem _ raw session_ttl r (rw (e, save) at h)))
  ]

  -- Where a mutation gives a session back, a session is live before, what is given back is it under the
  -- change, and, if the change keeps the user and the coding reads back what it wrote, every answered
  -- reading behind it finds exactly that.
  pub get-mutate :
      (user : ℤ) (apply : PendingSession → PendingSession) (after : PendingSession) (r : R.State)
      (found : Option PendingSession)
      → ((s : PendingSession) (raw : Bytes) → J.marshal s ≡ some raw → J.unmarshal raw ≡ some s)
      → after.user_id ≡ user
      → (mutate R J user apply r).0 ≡ some (some after)
      → get R J user (mutate R J user apply r).1 ≡ some found
      → ((before : PendingSession) × (get R J user r ≡ some (some before)) × (after ≡ apply before))
        × (found ≡ some after)
  unfolding mutate
  get-mutate user apply after r found coded own h g = elim (Option-cases (get R J user r)) [
    | inl e ↦ absurd (cc (rw (e, mutate) at h))
    | inr (o, e) ↦ elim (Option-cases o) [
      | inl e1 ↦ absurd (cc (rw (e, e1, mutate) at h))
      | inr (s, e1) ↦ elim (Bool-cases (save R J (apply s) r).0) [
        | inr e2 ↦ absurd (cc (rw (e, e1, e2, mutate) at h))
        | inl e2 ↦
            let same : apply s ≡ after = cc (rw (e, e1, e2, mutate) at h) in
            let (raw, made, stored) = save-text (apply s) r e2 in
            let read = get-text user _ found (rw (e, e1, mutate) at g) in
            let owner : (apply s).user_id ≡ user = ap (λ x. x.user_id) same ∙ own in
            let text =
              ap
                (λ u.
                  R.text (session_key u)
                    (R.stored (session_key (apply s).user_id) raw session_ttl r))
                (sym owner)
              ∙ R.text-stored_self (session_key (apply s).user_id) raw session_ttl r
                  (omega arith) in
            (
              (s, e ∙ ap some e1, sym same),
              sym read
                  ∙ ap (λ t. session_of (R.text (session_key user) t)) stored
                  ∙ ap session_of text
                  ∙ coded (apply s) raw made
                  ∙ ap some same,
            )
      ]
    ]
  ]

  -- an answered reading behind an answered clearing finds no session
  pub get-clear :
      (user : ℤ) (r : R.State) (o : Option PendingSession)
      → (clear R J user r).0 ≡ true
      → get R J user (clear R J user r).1 ≡ some o
      → o ≡ none
  unfolding clear
  get-clear user r o ok g =
      sym (get-text user _ o g)
      ∙ ap (λ t. session_of (R.text (session_key user) t)) (R.del_lem (session_key user) r ok)
      ∙ ap session_of (R.text-removed_self (session_key user) r)
