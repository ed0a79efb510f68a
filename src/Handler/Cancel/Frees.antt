-- ===== src/Handler/Cancel/Frees.antt =====
-- A press of a cancel button by its owner marks and frees that download, and no other press changes
-- anything.
use saveinator.Prelude.{
  ◌≡◌, ◌≢◌, ap, sym, ◌∙◌, Bool, true, none, some, arith, Bytes, codes, ℤ, eq_ℤ_iff, Lacks,
  Option-cases, inl, inr,
}
use saveinator.Callback.Cancel.{Data, parse_cancel}
use saveinator.Callback.Cancel.RoundTrip.{parse_cancel_sound}
use saveinator.Redis.{Redis}
use saveinator.Redisx.Client.{
  Client, colon, lock_key, cancel_key, lock_value, set_download_cancelled, release_user_lock,
}
use saveinator.Redisx.Keys.{cancel_key-ne-lock_key}
use saveinator.Redisx.Lock.{text-release}
use saveinator.Redisx.Trace.{text-release_ne}
use saveinator.Handler.Cancel.{cancel_ttl, cancel_download, on_cancel_download}

module _ (R : Redis) (c : Client) where
  -- A press that carries no cancel payload, or another user's, changes nothing on the server.
  pub on_cancel_foreign :
      (from : ℤ) (payload : Bytes) (has_message : Bool) (s : R.State)
      → ((d : Data) → parse_cancel payload ≡ some d → from ≢ d.user_id)
      → (on_cancel_download R c from payload has_message s).1 ≡ s
  unfolding on_cancel_download
  on_cancel_foreign from payload has_message s h = elim (Option-cases (parse_cancel payload)) [
    | inl e ↦ rw (e, on_cancel_download)
    | inr (d, e) ↦ rw (e, on_cancel_download) (ground (arith, eq_ℤ_iff from d.user_id, h d e))
  ]

  -- the server answers both writes of a cancelling
  abbrev pub Answers : Data → R.State → Type 0
  Answers d s =
      ((set_download_cancelled R c d.scenario d.user_id d.token cancel_ttl s).0 ≡ true)
      × ((release_user_lock R c d.user_id d.scenario d.token
            (set_download_cancelled R c d.scenario d.user_id d.token cancel_ttl s).1).0
          ≡ true)

  -- the flag is set in the first of the two writes
  text-set_cancelled :
      (d : Data) (s : R.State)
      → (set_download_cancelled R c d.scenario d.user_id d.token cancel_ttl s).0 ≡ true
      → (R.text
            (cancel_key c d.scenario d.user_id d.token)
            (set_download_cancelled R c d.scenario d.user_id d.token cancel_ttl s).1
          ≡ some (codes "1"))
        × ((j : Bytes)
            → j ≢ cancel_key c d.scenario d.user_id d.token
            → R.text j (set_download_cancelled R c d.scenario d.user_id d.token cancel_ttl s).1
              ≡ R.text j s)
  unfolding set_download_cancelled
  text-set_cancelled d s ok =
      let flag = cancel_key c d.scenario d.user_id d.token in
      let one = codes "1" in
      (
        ap (R.text flag) (R.set_lem flag one cancel_ttl s ok)
            ∙ R.text-stored_self flag one cancel_ttl s (omega arith),
        (λ j ne.
            ap (R.text j) (R.set_lem flag one cancel_ttl s ok)
            ∙ R.text-stored_ne flag one j cancel_ttl s ne),
      )

  text-cancel_download :
      (held : Bytes) (d : Data) (s : R.State)
      → cancel_key c d.scenario d.user_id d.token ≢ lock_key c d.user_id
      → R.text (lock_key c d.user_id) s ≡ some held
      → Answers d s
      → (R.text (cancel_key c d.scenario d.user_id d.token) (cancel_download R c d s)
          ≡ some (codes "1"))
        × (held ≡ lock_value d.scenario d.token
            → R.text (lock_key c d.user_id) (cancel_download R c d s) ≡ none)
        × (held ≢ lock_value d.scenario d.token
            → R.text (lock_key c d.user_id) (cancel_download R c d s) ≡ some held)
  unfolding cancel_download
  text-cancel_download held d s apart h (set_ok, release_ok) =
      let lock = lock_key c d.user_id in
      let flag = cancel_key c d.scenario d.user_id d.token in
      let marked = (set_download_cancelled R c d.scenario d.user_id d.token cancel_ttl s).1 in
      let (set, kept) = text-set_cancelled d s set_ok in
      let still = kept lock (λ e. apart (sym e)) ∙ h in
      let freed = text-release R c d.user_id d.scenario d.token held marked still release_ok in
      (
        text-release_ne R c d.user_id d.scenario d.token flag marked apart release_ok ∙ set,
        freed.0,
        (λ other. ap (R.text lock) (freed.1 other) ∙ still),
      )

  -- the owner's press runs both writes
  on_cancel-owner :
      (payload : Bytes) (d : Data) (has_message : Bool) (s : R.State)
      → parse_cancel payload ≡ some d
      → (on_cancel_download R c d.user_id payload has_message s).1 ≡ cancel_download R c d s
  unfolding on_cancel_download
  on_cancel-owner payload d has_message s e =
      rw (e, on_cancel_download) (ground (arith, eq_ℤ_iff d.user_id d.user_id))

  -- A press by the owner that the server answers, while a lock is held for the user, sets the
  -- download's cancel flag; it frees the lock if that is this download's, and leaves a lock of
  -- another download as it was. The bot's prefix holds no colon.
  pub on_cancel_own :
      (payload held : Bytes) (d : Data) (has_message : Bool) (s : R.State)
      → Lacks colon c.prefix
      → parse_cancel payload ≡ some d
      → R.text (lock_key c d.user_id) s ≡ some held
      → Answers d s
      → (R.text
            (cancel_key c d.scenario d.user_id d.token)
            (on_cancel_download R c d.user_id payload has_message s).1
          ≡ some (codes "1"))
        × (held ≡ lock_value d.scenario d.token
            → R.text
                (lock_key c d.user_id)
                (on_cancel_download R c d.user_id payload has_message s).1
              ≡ none)
        × (held ≢ lock_value d.scenario d.token
            → R.text
                (lock_key c d.user_id)
                (on_cancel_download R c d.user_id payload has_message s).1
              ≡ some held)
  on_cancel_own payload held d has_message s plain e h ok =
      let (shape, no_scenario, no_token, ne, range) = parse_cancel_sound payload d e in
      let apart =
        cancel_key-ne-lock_key c d.scenario d.user_id d.user_id d.token plain no_scenario
          no_token in
      rw (on_cancel-owner payload d has_message s e) (text-cancel_download held d s apart h ok)
