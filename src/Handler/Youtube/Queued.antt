-- ===== src/Handler/Youtube/Queued.antt =====
-- What a press of a quality's button puts on the queue.
use saveinator.Prelude.{
  ◌≡◌, refl, ap, sym, ◌∙◌, Bool, true, false, List, [], ◌∷◌, ◌++◌, some, Bytes, codes, ℤ, All, eq_ℤ,
  eq_ℤ_iff, is_empty, Bool-cases, inl, inr, if◌then◌else◌,
}
use saveinator.Text.Utf8.{to_valid_utf8}
use saveinator.Text.Search.{trim_prefix}
use saveinator.Text.Decimal.{parse_int}
use saveinator.Queue.Asynq.{Asynq, Request, pending, queue_of}
use saveinator.Queue.Payload.{DownloadPayload, unmarshal_download}
use saveinator.Queue.Payload.RoundTrip.{kept_float}
use saveinator.Queue.Client.{enqueue_download}
use saveinator.Queue.Client.Read.{enqueue_download-Carries, submit-queued}
use saveinator.Redis.{Redis}
use saveinator.Youtube.Formats.{Offer}
use saveinator.Youtube.Session.{PendingSession, find_option, option_for, Coding, get, clear}
use saveinator.Handler.Youtube.{Press, located, build_youtube_payload, on_quality_choice}
use saveinator.Handler.Youtube.Buttons.{on_quality_choice-asked}

-- The offer stands in the list, has the height, and none before it has it.
abbrev pub IsFirst : ℤ → List Offer → Offer → Type 0
IsFirst height os option =
    (before : List Offer) × (after : List Offer) × (os ≡ before ++ option ∷ after)
    × (option.height ≡ height)
    × All (λ (o : Offer). eq_ℤ o.height height ≡ false) before

find_option-IsFirst :
    (height : ℤ) (os : List Offer) (option : Offer)
    → find_option height os ≡ some option
    → IsFirst height os option
unfolding find_option
find_option-IsFirst height [] option h = cc
find_option-IsFirst height (o ∷ os) option h = elim (Bool-cases (eq_ℤ o.height height)) [
  | inl e ↦
      let same : o ≡ option = cc (rw (e, find_option) at h) in
      (
        [],
        os,
        ap (λ (x : Offer). x ∷ os) same,
        ap (λ (x : Offer). x.height) (sym same) ∙ (eq_ℤ_iff o.height height).0 e,
        tt,
      )
  | inr e ↦
      let (before, after, split, same, others) =
        find_option-IsFirst height os option (rw (e, find_option) at h) in
      (o ∷ before, after, ap (λ (l : List Offer). o ∷ l) split, same, (e, others))
]

-- What a worker reads of the body is a video of the session in the offer's format, at the message
-- pressed.
abbrev pub Orders : PendingSession → Press → ℤ → ℤ → Offer → Bytes → Bool → DownloadPayload → Type 0
Orders stored p chat message_id option ratio nw q =
    (q.url ≡ to_valid_utf8 stored.url)
    × (q.platform ≡ to_valid_utf8 (codes "youtube"))
    × (q.chat_id ≡ chat)
    × (q.user_id ≡ stored.user_id)
    × (q.message_id ≡ message_id)
    × (q.lang ≡ to_valid_utf8 (if is_empty stored.lang then p.lang else stored.lang))
    × (q.quality ≡ option.height)
    × (q.format_id ≡ to_valid_utf8 option.format_id)
    × (q.aspect_ratio ≡ to_valid_utf8 ratio)
    × (q.title ≡ to_valid_utf8 stored.title)
    × (q.author ≡ to_valid_utf8 stored.author)
    × (q.trim_start ≡ kept_float stored.trim_start)
    × (q.trim_end ≡ kept_float stored.trim_end)
    × (q.audio_only ≡ false)
    × (q.no_watermark ≡ nw)

module _ (R : Redis) (A : Asynq) (J : Coding) where
  -- A press of a quality's button that reports a queued task was of a message that is there, by a
  -- user whose own session was read, with a number that is the height of an offer on the session's
  -- card. The session was cleared, and a new task is the last of its queue's pending tasks, of
  -- whose body a worker reads a video of the session's address, user, title, author and trim, in
  -- its language or else that of the press, at the message pressed, in the height and format of
  -- the first offer of this height, with the given ratio and watermark setting; the texts are read
  -- but for invalid UTF-8 and a trim bound but for the sign of a zero.
  pub on_quality_choice-queued :
      (p : Press) (ratio : Bytes) (nw : Bool) (r : R.State) (a : A.State)
      → (on_quality_choice R A J p ratio nw r a).0 ≡ true
      → (chat : ℤ) × (message_id : ℤ) × (stored : PendingSession) × (quality : ℤ) × (option : Offer)
        × (request : Request) × (q : DownloadPayload) × (id : Bytes) × (p.message
            ≡ some (chat, message_id))
        × (get R J p.user r ≡ some (some stored))
        × (stored.user_id ≡ p.user)
        × (parse_int (trim_prefix p.payload (codes "quality:")) ≡ some quality)
        × IsFirst quality stored.options option
        × ((on_quality_choice R A J p ratio nw r a).2 ≡ (clear R J p.user r).1)
        × (unmarshal_download request.payload ≡ some q)
        × Orders stored p chat message_id option ratio nw q
        × (A.waiting pending (queue_of request) (on_quality_choice R A J p ratio nw r a).3
            ≡ A.waiting pending (queue_of request) a
              ++ record { id = id; kind = request.kind; payload = request.payload } ∷ [])
  unfolding build_youtube_payload located option_for
  on_quality_choice-queued p ratio nw r a h =
      let (
        chat, message_id, stored, quality, option, there, read, own, named, offered, cleared, asked,
        done,
      ) =
        on_quality_choice-asked R A J p ratio nw r a h in
      let payload : DownloadPayload =
        record (build_youtube_payload (located stored p chat message_id) option false ratio) {
          no_watermark = nw;
        } in
      let (request, id, made, last) = submit-queued A (enqueue_download payload) a done in
      (
        chat,
        message_id,
        stored,
        quality,
        option,
        request,
        _,
        id,
        there,
        read,
        own,
        named,
        find_option-IsFirst quality stored.options option offered,
        cleared,
        enqueue_download-Carries payload request made,
        (refl, refl, refl, refl, refl, refl, refl, refl, refl, refl, refl, refl, refl, refl, refl),
        ap (λ s. A.waiting pending (queue_of request) s) asked ∙ last,
      )
