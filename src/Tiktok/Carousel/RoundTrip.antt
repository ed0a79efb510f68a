-- ===== src/Tiktok/Carousel/RoundTrip.antt =====
-- A pressed button and a saved session are read back as what they were made of.
use saveinator.Prelude.{
  ◌≡◌, ◌≢◌, refl, sym, true, [], ◌∷◌, Option, none, some, arith, Bytes, codes, ℤ, Lacks, IsInt64,
  eq_bytes, Option-cases, inl, inr,
}
use saveinator.Text.Split.{split_first, split_whole}
use saveinator.Text.Decimal.{format_int}
use saveinator.Text.Decimal.RoundTrip.{parse_int-format_int, format_int-Lacks}
use saveinator.Redis.{Redis}
use saveinator.Tiktok.Carousel.{
  colon, carousel_callback_data, parse_carousel_callback, CarouselSession, session_key, session_ttl,
  Coding, save, get,
}

-- The payload of a carousel's button is read back to its user and token, if the token holds no colon
-- and is not empty and the user id is an `int64`.
pub parse_carousel_callback-carousel_callback_data :
    (user_id : ℤ) (token : Bytes)
    → Lacks colon token
    → token ≢ []
    → IsInt64 user_id
    → parse_carousel_callback (carousel_callback_data user_id token) ≡ some (user_id, token)
unfolding parse_carousel_callback carousel_callback_data eq_bytes
parse_carousel_callback-carousel_callback_data user_id [] lacks ne range = absurd (ne refl)
parse_carousel_callback-carousel_callback_data user_id (b ∷ token) lacks ne range = rw (
  split_first colon (codes "ttk") _ (ground arith),
  split_first colon (codes "img") _ (ground arith),
  split_first colon (format_int user_id) _ (format_int-Lacks colon user_id refl (omega arith)),
  split_whole colon (b ∷ token) lacks,
  parse_int-format_int user_id range,
)

session_key-injective : (t u : Bytes) → session_key t ≡ session_key u → t ≡ u
unfolding session_key
session_key-injective t u e = cc

module _ (R : Redis) (J : Coding) where
  -- what an answered reading finds in a text
  abbrev session_of : Option Bytes → Option (Option CarouselSession)
  session_of none = some none
  session_of (some raw) = elim (J.unmarshal raw) [
    | none ↦ none
    | some session ↦ some (some session)
  ]

  get-text :
      (t : Bytes) (r : R.State) (o : Option CarouselSession)
      → get R J t r ≡ some o
      → session_of (R.text (session_key t) r) ≡ some o
  unfolding get
  get-text t r o h = elim (Option-cases (R.get (session_key t) r)) [
    | inl e ↦ absurd (cc (rw (e, get) at h))
    | inr (v, e) ↦ rw (sym (R.get_lem (session_key t) r v e)) (elim (Option-cases v) [
      | inl e1 ↦ rw e1 (rw (e, e1, get) at h)
      | inr (raw, e1) ↦ rw e1 (rw (e, e1, get) at h)
    ])
  ]

  save-text :
      (session : CarouselSession) (r : R.State)
      → (save R J session r).0 ≡ true
      → (body : Bytes) × (J.marshal session ≡ some body)
        × ((save R J session r).1 ≡ R.stored (session_key session.token) body session_ttl r)
  unfolding save
  save-text session r h = elim (Option-cases (J.marshal session)) [
    | inl e ↦ absurd (cc (rw (e, save) at h))
    | inr (body, e) ↦ (body, e, rw (e, save) (R.set_lem _ body session_ttl r (rw (e, save) at h)))
  ]

  -- What is read of the session of token `t` behind an answered saving: the session itself under its
  -- own token, where its text is read back as it; and under any other token what was read before,
  -- as far as the server answers both readings.
  pub get-save :
      (session : CarouselSession) (t : Bytes) (r : R.State) (before after : Option CarouselSession)
      → ((body : Bytes) → J.marshal session ≡ some body → J.unmarshal body ≡ some session)
      → (save R J session r).0 ≡ true
      → get R J t r ≡ some before
      → get R J t (save R J session r).1 ≡ some after
      → (t ≡ session.token → after ≡ some session) × (t ≢ session.token → after ≡ before)
  get-save session t r before after coded saved b a =
      let (body, made, stored) = save-text session r saved in
      let now = rw stored at (get-text t (save R J session r).1 after a) in
      let old = get-text t r before b in
      (
        (λ same. cc (
            rw
              (
                same,
                R.text-stored_self _ body session_ttl r (omega arith),
                session_of,
                coded body made,
              )
              at now)),
        (λ other. cc (
          old,
          rw (R.text-stored_ne _ body _ session_ttl r (λ e. other (session_key-injective _ _ e))) at
              now,
        )),
      )
