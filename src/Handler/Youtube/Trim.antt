-- ===== src/Handler/Youtube/Trim.antt =====
-- Which messages are taken as the range of a trim.
use saveinator.Prelude.{
  ◌≡◌, ◌≢◌, refl, ap, ◌∙◌, Bool, true, false, ◌||◌, List, [], some, arith, ℤ, is_empty, Bool-cases,
  Option-cases, inl, inr, ◌⊎◌,
}
use saveinator.Float64.{Float64}
use saveinator.Queue.Asynq.{Asynq}
use saveinator.Redis.{Redis}
use saveinator.Youtube.Session.{PendingSession, Coding, get, set_trim}
use saveinator.Handler.Reply.{Reply}
use saveinator.Handler.Youtube.Flow.{
  Range, range, bad_order, bad_range, bad_format, Typed, handle_youtube_trim_input,
}

Range-cases :
    (x : Range)
    → ((start : Float64) × (end : Float64) × (x ≡ range start end))
      ⊎ ((x ≡ bad_order) ⊎ ((x ≡ bad_range) ⊎ (x ≡ bad_format)))
Range-cases (range start end) = inl (start, end, refl)
Range-cases bad_order = inr (inl refl)
Range-cases bad_range = inr (inr (inl refl))
Range-cases bad_format = inr (inr (inr refl))

module _ (R : Redis) (A : Asynq) (J : Coding) where
  abbrev pub Consumed : ℤ → Typed → R.State → Bool × List Reply × R.State → Type 0
  Consumed user t r out =
      ((out.0 ≡ true)
        × ((s : PendingSession) × (get R J user r ≡ some (some s)) × (s.awaiting_trim ≡ true))
        × (is_empty t.body ≡ false)
        × (t.has_links ≡ false)
        × (out.1 ≢ []))
      ⊎ ((out.0 ≡ false) × (out.1 ≡ []))

  trim-told :
      (user : ℤ) (t : Typed) (r : R.State) (s : PendingSession)
      → get R J user r ≡ some (some s)
      → s.awaiting_trim ≡ true
      → (is_empty t.body || t.has_links) ≡ false
      → ((handle_youtube_trim_input R A J user t r).0 ≡ true)
        × ((handle_youtube_trim_input R A J user t r).1 ≢ [])
  unfolding handle_youtube_trim_input
  trim-told user t r s e e2 e3 = elim (Range-cases (t.parsed s.duration_sec)) [
    | inl (start, end, e4) ↦ elim (Option-cases (set_trim R J user start end r).0) [
      | inl e5 ↦ rw (e, e2, e3, e4, e5, handle_youtube_trim_input) (refl, λ p. cc)
      | inr (u, e5) ↦ elim (Option-cases u) [
        | inl e6 ↦ rw (e, e2, e3, e4, e5, e6, handle_youtube_trim_input) (refl, λ p. cc)
        | inr (x, e6) ↦ rw (e, e2, e3, e4, e5, e6, handle_youtube_trim_input) (refl, λ p. cc)
      ]
    ]
    | inr (inl e4) ↦ rw (e, e2, e3, e4, handle_youtube_trim_input) (refl, λ p. cc)
    | inr (inr (inl e4)) ↦ rw (e, e2, e3, e4, handle_youtube_trim_input) (refl, λ p. cc)
    | inr (inr (inr e4)) ↦ rw (e, e2, e3, e4, handle_youtube_trim_input) (refl, λ p. cc)
  ]

  -- A message is consumed as a range only while a session that awaits one is read, and only if its
  -- text is not empty and holds no links, and then something is answered; a message that is not
  -- consumed is answered nothing.
  pub handle_youtube_trim_input-cases :
      (user : ℤ) (t : Typed) (r : R.State)
      → Consumed user t r (handle_youtube_trim_input R A J user t r)
  unfolding handle_youtube_trim_input
  handle_youtube_trim_input-cases user t r = elim (Option-cases (get R J user r)) [
    | inl e ↦ inr (rw (e, handle_youtube_trim_input) (refl, refl))
    | inr (o, e) ↦ elim (Option-cases o) [
      | inl e1 ↦ inr (rw (e, e1, handle_youtube_trim_input) (refl, refl))
      | inr (s, e1) ↦ elim (Bool-cases s.awaiting_trim) [
        | inr e2 ↦ inr (rw (e, e1, e2, handle_youtube_trim_input) (refl, refl))
        | inl e2 ↦ elim (Bool-cases (is_empty t.body || t.has_links)) [
          | inl e3 ↦ inr (rw (e, e1, e2, e3, handle_youtube_trim_input) (refl, refl))
          | inr e3 ↦
              let (consumed, told) = trim-told user t r s (e ∙ ap some e1) e2 e3 in
              inl (consumed, (s, e ∙ ap some e1, e2), ground (arith, e3), ground (arith, e3), told)
        ]
      ]
    ]
  ]
