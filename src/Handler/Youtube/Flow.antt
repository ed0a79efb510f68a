-- ===== src/Handler/Youtube/Flow.antt =====
-- go/internal/handler/youtube.go: a link to YouTube, the other buttons of the card, and a typed range.
-- The range that `youtube.ParseRange` reads and whether the text holds links are arguments.
use saveinator.Prelude.{
  Bool, true, false, ◌||◌, not, List, [], ◌∷◌, Option, none, some, Bytes, codes, eq_bytes, is_empty,
  ℤ, pos, if◌then◌else◌,
}
use saveinator.Text.Search.{trim_prefix}
use saveinator.Float64.{Float64}
use saveinator.Queue.Asynq.{Asynq}
use saveinator.Queue.Client.{enqueue_download, enqueue}
use saveinator.Redis.{Redis}
use saveinator.Youtube.Formats.{Offer, allowed_heights, options}
use saveinator.Youtube.Session.{PendingSession, Coding, save, get, set_awaiting_trim, set_trim}
use saveinator.Handler.Reply.{Reply, edit, send, format_card}
use saveinator.Handler.Music.{Result}
use saveinator.Handler.Music.Links.{From}
use saveinator.Handler.Youtube.{
  Probed, or_blind, shorts_payload, Press, heard, youtube_session, start_youtube_download,
}

-- `none` is no metadata
unfoldable pub youtube_options : (Float64 → Float64 → ℤ) → Option Probed → List Bytes → List Offer
youtube_options estimate none qualities = or_blind [] (allowed_heights qualities)
youtube_options estimate (some meta) qualities =
    or_blind (options estimate meta.duration meta.formats (allowed_heights qualities))
      (allowed_heights qualities)

unfoldable pub new_session :
    (Float64 → Float64 → ℤ) → From → Bytes → ℤ → Option Probed → List Bytes → PendingSession
new_session estimate m url message_id meta qualities = record {
  user_id = m.user;
  url = url;
  chat_id = m.chat;
  message_id = message_id;
  lang = m.lang;
  title = elim meta [ none ↦ [] | some x ↦ x.title ];
  author = elim meta [ none ↦ [] | some x ↦ x.author ];
  duration_sec = elim meta [ none ↦ pos 0 | some x ↦ x.duration_sec ];
  options = youtube_options estimate meta qualities;
  awaiting_trim = false;
  trim_start = 0;
  trim_end = 0;
}

-- What `ParseRange` makes of a text.
pub data Range : Type 0 where
  range : Float64 → Float64 → Range
  bad_order bad_range bad_format : Range

unfoldable pub trim_error_text : Range → Bytes
trim_error_text bad_order = codes "youtube.trim_order"
trim_error_text bad_range = codes "youtube.trim_out_of_range"
trim_error_text _ = codes "youtube.trim_invalid"

-- A message that comes while a range may be awaited: its trimmed text, whether links are found in it,
-- and what `ParseRange` makes of it under a duration.
pub record Typed : Type 0 where
  pub body : Bytes
  pub has_links : Bool
  pub parsed : ℤ → Range

module _ (R : Redis) (A : Asynq) (J : Coding) where
  unfoldable pub start_youtube_shorts_download :
      From → Bytes → Option ℤ → ℤ → Bool → R.State → A.State → Result R A
  start_youtube_shorts_download m url status quality no_watermark r a =
      let told = send (codes "download.downloading") none in
      elim status [
        | none ↦ (false, told ∷ [], r, a)
        | some message_id ↦
            let (ok, a') =
              enqueue A (enqueue_download (shorts_payload m url message_id quality no_watermark))
                a in
            if ok
            then (true, told ∷ [], r, a')
            else (false, told ∷ send (codes "errors.generic") none ∷ [], r, a')
      ]

  -- The card of a video; the error of the saving is dropped.
  unfoldable pub show_card :
      (Float64 → Float64 → ℤ)
      → From
      → Bytes
      → Option ℤ
      → Option Probed
      → List Bytes
      → R.State
      → A.State
      → Result R A
  show_card estimate m url status meta qualities r a =
      let told = send (codes "youtube.fetching_info") none in
      elim status [
        | none ↦ (false, told ∷ [], r, a)
        | some message_id ↦
            let session = new_session estimate m url message_id meta qualities in
            (false, told ∷ format_card session ∷ [], (save R J session r).1, a)
      ]

  -- `shorts` is `IsYouTubeShorts` of the URL, `quality` the value of `topAllowedQuality`.
  unfoldable pub handle_youtube_link :
      (Float64 → Float64 → ℤ)
      → From
      → Bytes
      → Bool
      → Option ℤ
      → Option Probed
      → List Bytes
      → ℤ
      → Bool
      → R.State
      → A.State
      → Result R A
  handle_youtube_link estimate m url shorts status meta qualities quality no_watermark r a =
      if shorts
      then start_youtube_shorts_download m url status quality no_watermark r a
      else show_card estimate m url status meta qualities r a

  abbrev pub no_option : Offer
  no_option = record { height = pos 0; size_bytes = pos 0; format_id = [] }

  -- a changed session under a message, or nothing for an error or no session
  unfoldable pub under :
      (PendingSession → Reply) → Option (Option PendingSession) × R.State → A.State → Result R A
  under shown (updated, r') a = elim updated [
    | none ↦ (false, heard ∷ [], r', a)
    | some none ↦ (false, heard ∷ [], r', a)
    | some (some s) ↦ (false, heard ∷ shown s ∷ [], r', a)
  ]

  unfoldable pub on_youtube_action : Press → Bool → R.State → A.State → Result R A
  on_youtube_action p no_watermark r a =
      let (replies, found) = youtube_session R A J p r in
      let action = trim_prefix p.payload (codes "yt:") in
      elim found [
        | none ↦ (false, replies, r, a)
        | some s ↦
            let (queued, told, r', a') =
              start_youtube_download R A J s no_option true [] no_watermark r a in
            if eq_bytes action (codes "mp3")
            then (queued, heard ∷ told, r', a')
            else if eq_bytes action (codes "trim")
            then under (λ u. edit (codes "youtube.trim_prompt") (some (codes "yt:trimoff")))
                (set_awaiting_trim R J p.user true r) a
            else if eq_bytes action (codes "trimoff")
            then under format_card (set_trim R J p.user 0 0 r) a
            else (false, heard ∷ [], r, a)
      ]

  -- Whether the message is consumed, what is sent, and the state. The reading of the session decides
  -- first, then the text.
  unfoldable pub handle_youtube_trim_input : ℤ → Typed → R.State → Bool × List Reply × R.State
  handle_youtube_trim_input user t r = elim (get R J user r) [
    | none ↦ (false, [], r)
    | some none ↦ (false, [], r)
    | some (some s) ↦
        if not s.awaiting_trim
        then (false, [], r)
        else if is_empty t.body || t.has_links
        then (false, [], (set_awaiting_trim R J user false r).1)
        else elim (t.parsed s.duration_sec) [
          | range start end ↦
              let (updated, r') = set_trim R J user start end r in
              elim updated [
                | none ↦ (true, send (codes "youtube.session_expired") none ∷ [], r')
                | some none ↦ (true, send (codes "youtube.session_expired") none ∷ [], r')
                | some (some u) ↦ (true, format_card u ∷ [], r')
              ]
          | bad ↦ (true, send (trim_error_text bad) none ∷ [], r)
        ]
  ]
