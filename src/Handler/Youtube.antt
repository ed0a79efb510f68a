-- ===== src/Handler/Youtube.antt =====
-- YouTube links and the buttons of the format card: go/internal/handler/youtube.go. What Telegram, the
-- probe, the database and the settings answer is an argument, and so is `encoding/json`.
pub mod Flow
pub mod Trim
pub mod Buttons
pub mod Queued
pub mod Payload
use saveinator.Prelude.{
  ℕ, Bool, true, false, ◌&&◌, ◌||◌, not, List, [], ◌∷◌, ◌++◌, Option, none, some, Bytes, codes,
  eq_bytes, is_empty, contains, ℤ, pos, eq_ℤ, if◌then◌else◌,
}
use saveinator.Text.Search.{trim_prefix}
use saveinator.Text.Trim.{trim_space}
use saveinator.Text.Decimal.{parse_int}
use saveinator.Float64.{Float64}
use saveinator.Queue.Payload.{DownloadPayload, zero_download}
use saveinator.Queue.Asynq.{Asynq}
use saveinator.Queue.Client.{enqueue_download, enqueue}
use saveinator.Redis.{Redis}
use saveinator.Youtube.Formats.{Format, Offer, allowed_heights, options}
use saveinator.Youtube.Session.{
  PendingSession, option_for, Coding, save, get, set_awaiting_trim, set_trim, clear,
}
use saveinator.Handler.Reply.{Reply, answer, edit, send, format_card}
use saveinator.Handler.Music.{Result}
use saveinator.Handler.Music.Links.{From}

abbrev pub youtube : Bytes
youtube = codes "youtube"

-- What the probe finds of a video.
pub record Probed : Type 0 where
  pub title : Bytes
  pub author : Bytes
  pub duration_sec : ℤ
  pub duration : Float64
  pub formats : List Format

abbrev pub blind : ℤ → Offer
blind h = record { height = h; size_bytes = pos 0; format_id = [] }

abbrev pub blind_offers : List ℤ → List Offer
blind_offers [] = []
blind_offers (h ∷ hs) = blind h ∷ blind_offers hs

abbrev pub or_blind : List Offer → List ℤ → List Offer
or_blind [] allowed = blind_offers allowed
or_blind (o ∷ os) allowed = o ∷ os

-- the last of the heights; the index is that of an element where there is one
unfoldable pub last_height : List ℤ → Option ℤ
last_height [] = none
last_height (h ∷ []) = some h
last_height (h ∷ k ∷ hs) = last_height (k ∷ hs)

-- `none` is a panic
unfoldable pub top_allowed_quality : List Bytes → Option ℤ
top_allowed_quality qualities = last_height (allowed_heights qualities)

unfoldable pub shorts_payload : From → Bytes → ℤ → ℤ → Bool → DownloadPayload
shorts_payload m url message_id quality no_watermark = record zero_download {
  url = url;
  platform = youtube;
  chat_id = m.chat;
  user_id = m.user;
  message_id = message_id;
  lang = m.lang;
  quality = quality;
  no_watermark = no_watermark;
}

-- `option` counts for a video only
unfoldable pub build_youtube_payload : PendingSession → Offer → Bool → Bytes → DownloadPayload
build_youtube_payload s option audio_only aspect_ratio =
    let payload : DownloadPayload = record zero_download {
      url = s.url;
      platform = youtube;
      chat_id = s.chat_id;
      user_id = s.user_id;
      message_id = s.message_id;
      lang = s.lang;
      title = s.title;
      author = s.author;
      audio_only = audio_only;
      trim_start = s.trim_start;
      trim_end = s.trim_end;
    } in
    if audio_only then payload else record payload {
      quality = option.height;
      aspect_ratio = aspect_ratio;
      format_id = option.format_id;
    }

abbrev pub valid_ratios : List Bytes
valid_ratios = codes "16_9" ∷ codes "21_9" ∷ codes "9_16" ∷ []

unfoldable pub trimmed_ratios : List Bytes → List Bytes
trimmed_ratios [] = []
trimmed_ratios (v ∷ vs) =
    let rest = trimmed_ratios vs in if is_empty (trim_space v) then rest else trim_space v ∷ rest

abbrev or_valid : List Bytes → List Bytes
or_valid [] = valid_ratios
or_valid (r ∷ rs) = r ∷ rs

-- `youtube.RatioSetFromStrings`
unfoldable pub ratio_set_from_strings : List Bytes → List Bytes
ratio_set_from_strings values = or_valid (trimmed_ratios values)

-- The user's setting is none for an error of the database.
unfoldable pub youtube_aspect_ratio : Option Bytes → List Bytes → Bytes
youtube_aspect_ratio none allowed = []
youtube_aspect_ratio (some ratio) allowed =
    if is_empty ratio || eq_bytes ratio (codes "ask")
    then []
    else if contains (ratio_set_from_strings allowed) ratio
    then ratio
    else []

-- A button's press: who, the chat and the message that bears it, its payload, the sender's language.
pub record Press : Type 0 where
  pub user : ℤ
  pub message : Option (ℤ × ℤ)
  pub payload : Bytes
  pub lang : Bytes

abbrev pub expired : List Reply
expired = answer (some (codes "youtube.session_expired")) true ∷ []

abbrev pub heard : Reply
heard = answer none false

-- the session as the handlers use it: in the language and at the message of the press
unfoldable pub located : PendingSession → Press → ℤ → ℤ → PendingSession
located s p chat message_id = record s {
  lang = if is_empty s.lang then p.lang else s.lang;
  message_id = message_id;
  chat_id = chat;
}

-- a session that is read and belongs to the user
abbrev pub session_for : ℤ → Option (Option PendingSession) → Option PendingSession
session_for user none = none
session_for user (some none) = none
session_for user (some (some s)) = if eq_ℤ s.user_id user then some s else none

module _ (R : Redis) (A : Asynq) (J : Coding) where
  -- what is answered, or the session
  unfoldable pub youtube_session : Press → R.State → List Reply × Option PendingSession
  youtube_session p r = elim p.message [
    | none ↦ (heard ∷ [], none)
    | some (chat, message_id) ↦
        if eq_ℤ p.user (pos 0)
        then (heard ∷ [], none)
        else elim (session_for p.user (get R J p.user r)) [
          | none ↦ (expired, none)
          | some s ↦ ([], some (located s p chat message_id))
        ]
  ]

  -- The error of the clearing is dropped.
  unfoldable pub start_youtube_download :
      PendingSession → Offer → Bool → Bytes → Bool → R.State → A.State → Result R A
  start_youtube_download s option audio_only ratio no_watermark r a =
      let r' = (clear R J s.user_id r).1 in
      let told =
        edit (if audio_only then codes "youtube.processing_audio" else codes "youtube.processing")
          none in
      let payload =
        record (build_youtube_payload s option audio_only (if audio_only then [] else ratio)) {
          no_watermark = no_watermark;
        } in
      let (ok, a') = enqueue A (enqueue_download payload) a in
      if ok
      then (true, told ∷ [], r', a')
      else (false, told ∷ send (codes "errors.generic") none ∷ [], r', a')

  unfoldable pub on_quality_choice : Press → Bytes → Bool → R.State → A.State → Result R A
  on_quality_choice p ratio no_watermark r a =
      let (replies, found) = youtube_session p r in
      elim found [
        | none ↦ (false, replies, r, a)
        | some s ↦ elim (parse_int (trim_prefix p.payload (codes "quality:"))) [
          | none ↦ (false, heard ∷ [], r, a)
          | some quality ↦ elim (option_for s quality) [
            | none ↦ (false, expired, r, a)
            | some option ↦
                let (queued, told, r', a') =
                  start_youtube_download s option false ratio no_watermark r a in
                (queued, heard ∷ told, r', a')
          ]
        ]
      ]
