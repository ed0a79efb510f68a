-- ===== src/Handler/Youtube/Buttons.antt =====
-- What a press of a quality's button asks of the broker, and that a second press queues nothing.
use saveinator.Prelude.{
  ◌≡◌, refl, sym, ap, ◌∙◌, Bool, true, false, [], Option, none, some, Bytes, codes, ℤ, pos, eq_ℤ,
  eq_ℤ_iff, Bool-cases, Option-cases, inl, inr, if◌then◌else◌,
}
use saveinator.Text.Search.{trim_prefix}
use saveinator.Text.Decimal.{parse_int}
use saveinator.Queue.Asynq.{Asynq}
use saveinator.Queue.Client.{enqueue_download, enqueue}
use saveinator.Redis.{Redis}
use saveinator.Youtube.Formats.{Offer}
use saveinator.Youtube.Session.{PendingSession, option_for, Coding, get, clear}
use saveinator.Youtube.Session.Mutate.{get-clear}
use saveinator.Handler.Youtube.{
  Press, located, session_for, build_youtube_payload, youtube_session, start_youtube_download,
  on_quality_choice,
}

session_for-some :
    (user : ℤ) (o : Option (Option PendingSession)) (s : PendingSession)
    → session_for user o ≡ some s
    → (o ≡ some (some s)) × (s.user_id ≡ user)
session_for-some user none s h = cc
session_for-some user (some none) s h = cc
session_for-some user (some (some x)) s h = elim (Bool-cases (eq_ℤ x.user_id user)) [
  | inl e ↦
      let same : x ≡ s = cc (rw e at h) in
      (ap (λ y. some (some y)) same, ap (λ y. y.user_id) (sym same) ∙ (eq_ℤ_iff x.user_id user).0 e)
  | inr e ↦ absurd (cc (rw e at h))
]

module _ (R : Redis) (A : Asynq) (J : Coding) where
  youtube_session-some :
      (p : Press) (r : R.State) (s : PendingSession)
      → (youtube_session R A J p r).1 ≡ some s
      → (chat : ℤ) × (message_id : ℤ) × (stored : PendingSession) × (p.message
          ≡ some (chat, message_id))
        × (get R J p.user r ≡ some (some stored))
        × (stored.user_id ≡ p.user)
        × (s ≡ located stored p chat message_id)
  unfolding youtube_session
  youtube_session-some p r s h = elim (Option-cases p.message) [
    | inl e ↦ absurd (cc (rw (e, youtube_session) at h))
    | inr ((chat, message_id), e) ↦ elim (Bool-cases (eq_ℤ p.user (pos 0))) [
      | inl e1 ↦ absurd (cc (rw (e, e1, youtube_session) at h))
      | inr e1 ↦ elim (Option-cases (session_for p.user (get R J p.user r))) [
        | inl e2 ↦ absurd (cc (rw (e, e1, e2, youtube_session) at h))
        | inr (stored, e2) ↦
            let (read, own) = session_for-some p.user (get R J p.user r) stored e2 in
            (chat, message_id, stored, e, read, own, cc (rw (e, e1, e2, youtube_session) at h))
      ]
    ]
  ]

  no_session :
      (user : ℤ) (r : R.State)
      → (clear R J user r).0 ≡ true
      → session_for user (get R J user (clear R J user r).1) ≡ none
  no_session user r ok = elim (Option-cases (get R J user (clear R J user r).1)) [
    | inl e ↦ rw e
    | inr (o, e) ↦ rw (e, get-clear R J user r o ok e)
  ]

  start-effects :
      (s : PendingSession) (option : Offer) (audio : Bool) (ratio : Bytes) (nw : Bool) (r : R.State)
      (a : A.State)
      → ((start_youtube_download R A J s option audio ratio nw r a).2 ≡ (clear R J s.user_id r).1)
        × ((start_youtube_download R A J s option audio ratio nw r a).3
            ≡ (enqueue A
                (enqueue_download
                  (record (build_youtube_payload s option audio (if audio then [] else ratio)) {
                    no_watermark = nw;
                  }))
                a).1)
        × ((start_youtube_download R A J s option audio ratio nw r a).0
            ≡ (enqueue A
                (enqueue_download
                  (record (build_youtube_payload s option audio (if audio then [] else ratio)) {
                    no_watermark = nw;
                  }))
                a).0)
  unfolding start_youtube_download
  start-effects s option audio ratio nw r a =
      elim (Bool-cases
        (enqueue A
          (enqueue_download
            (record (build_youtube_payload s option audio (if audio then [] else ratio)) {
              no_watermark = nw;
            }))
          a).0) [
            | inl e ↦ rw (e, start_youtube_download) (refl, refl, refl)
            | inr e ↦ rw (e, start_youtube_download) (refl, refl, refl)
          ]

  -- what a press that queued a task asked of the broker
  pub on_quality_choice-asked :
      (p : Press) (ratio : Bytes) (nw : Bool) (r : R.State) (a : A.State)
      → (on_quality_choice R A J p ratio nw r a).0 ≡ true
      → (chat : ℤ) × (message_id : ℤ) × (stored : PendingSession) × (quality : ℤ) × (option : Offer)
        × (p.message ≡ some (chat, message_id))
        × (get R J p.user r ≡ some (some stored))
        × (stored.user_id ≡ p.user)
        × (parse_int (trim_prefix p.payload (codes "quality:")) ≡ some quality)
        × (option_for stored quality ≡ some option)
        × ((on_quality_choice R A J p ratio nw r a).2 ≡ (clear R J p.user r).1)
        × ((on_quality_choice R A J p ratio nw r a).3
            ≡ (enqueue A
                (enqueue_download
                  (record (build_youtube_payload
                    (located stored p chat message_id)
                    option
                    false
                    ratio) { no_watermark = nw }))
                a).1)
        × ((enqueue A
              (enqueue_download
                (record (build_youtube_payload
                  (located stored p chat message_id)
                  option
                  false
                  ratio) { no_watermark = nw }))
              a).0
            ≡ true)
  unfolding on_quality_choice option_for located
  on_quality_choice-asked p ratio nw r a h = elim (Option-cases (youtube_session R A J p r).1) [
    | inl e ↦ absurd (cc (rw (e, on_quality_choice) at h))
    | inr (s, e) ↦
        let (chat, message_id, stored, there, read, own, same) = youtube_session-some p r s e in
        elim (Option-cases (parse_int (trim_prefix p.payload (codes "quality:")))) [
          | inl e1 ↦ absurd (cc (rw (e, e1, on_quality_choice) at h))
          | inr (quality, e1) ↦ elim (Option-cases (option_for s quality)) [
            | inl e2 ↦ absurd (cc (rw (e, e1, e2, on_quality_choice) at h))
            | inr (option, e2) ↦
                let (cleared, asked, done) = start-effects s option false ratio nw r a in
                (
                  chat,
                  message_id,
                  stored,
                  quality,
                  option,
                  there,
                  read,
                  own,
                  e1,
                  ap (λ x. option_for x quality) (sym same) ∙ e2,
                  rw (e, e1, e2, on_quality_choice)
                      (cleared ∙ ap (λ u. (clear R J u r).1) (ap (λ x. x.user_id) same ∙ own)),
                  rw (e, e1, e2, on_quality_choice)
                      (asked
                        ∙ ap
                            (λ x.
                              (enqueue A
                                (enqueue_download
                                  (record (build_youtube_payload x option false ratio) {
                                    no_watermark = nw;
                                  }))
                                a).1)
                            same),
                  sym (
                        ap
                          (λ x.
                            (enqueue A
                              (enqueue_download
                                (record (build_youtube_payload x option false ratio) {
                                  no_watermark = nw;
                                }))
                              a).0)
                          same)
                      ∙ sym done
                      ∙ rw (e, e1, e2, on_quality_choice) at h,
                )
          ]
        ]
  ]

  quality_without_session :
      (p : Press) (ratio : Bytes) (nw : Bool) (r : R.State) (a : A.State)
      → session_for p.user (get R J p.user r) ≡ none
      → ((on_quality_choice R A J p ratio nw r a).0 ≡ false)
        × ((on_quality_choice R A J p ratio nw r a).3 ≡ a)
  unfolding on_quality_choice youtube_session
  quality_without_session p ratio nw r a h = elim (Option-cases p.message) [
    | inl e ↦ rw (e, on_quality_choice, youtube_session) (refl, refl)
    | inr (m, e) ↦ elim (Bool-cases (eq_ℤ p.user (pos 0))) [
      | inl e1 ↦ rw (e, e1, on_quality_choice, youtube_session) (refl, refl)
      | inr e1 ↦ rw (e, e1, h, on_quality_choice, youtube_session) (refl, refl)
    ]
  ]

  -- Behind a press that queued a task, where the clearing of the session was answered, no press of the
  -- same user queues another: the broker's state stays as it is, whatever button of a quality is
  -- pressed.
  pub on_quality_choice-once :
      (p q : Press) (ratio ratio' : Bytes) (nw nw' : Bool) (r : R.State) (a : A.State)
      → q.user ≡ p.user
      → (on_quality_choice R A J p ratio nw r a).0 ≡ true
      → (clear R J p.user r).0 ≡ true
      → ((on_quality_choice R A J q ratio' nw'
            (on_quality_choice R A J p ratio nw r a).2
            (on_quality_choice R A J p ratio nw r a).3).0
          ≡ false)
        × ((on_quality_choice R A J q ratio' nw'
              (on_quality_choice R A J p ratio nw r a).2
              (on_quality_choice R A J p ratio nw r a).3).3
            ≡ (on_quality_choice R A J p ratio nw r a).3)
  on_quality_choice-once p q ratio ratio' nw nw' r a user queued ok =
      let (_, _, _, _, _, _, _, _, _, _, cleared, _, _) =
        on_quality_choice-asked p ratio nw r a queued in
      quality_without_session q ratio' nw' (on_quality_choice R A J p ratio nw r a).2
        (on_quality_choice R A J p ratio nw r a).3 (rw (user, cleared) (no_session p.user r ok))
