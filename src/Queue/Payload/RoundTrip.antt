-- ===== src/Queue/Payload/RoundTrip.antt =====
-- A payload that the client wrote is read back whole by the worker.
use saveinator.Prelude.{
  ℕ, suc, ◌>>=◌, ◌∙◌, ◌||◌, Bool, true, false, ◌≡◌, refl, sym, ap, [], ◌∷◌, some, arith, Bytes,
  codes, eq_bytes, ℤ, pos, negsuc, zero, if◌then◌else◌, Bool-cases, inl, inr,
}
use saveinator.Text.Utf8.{to_valid_utf8}
use saveinator.Float64.{is_zero, is_unsupported}
use saveinator.Queue.Payload.Values.{Body, Fields, omit_str, omit_int, omit_bool, omit_float}
use saveinator.Queue.Payload.{
  DownloadPayload, MusicPayload, optional_fields, marshal_download, unmarshal_download,
  read_download, marshal_music, unmarshal_music, read_music, music_fields, zero_music,
}

-- the zeros are one: `omitempty` leaves both out
abbrev pub kept_float : ℕ → ℕ
kept_float x = if is_zero x then 0 else x

empty_lem : to_valid_utf8 [] ≡ []
unfolding to_valid_utf8
empty_lem = refl

module _ (rest : Fields) where
  read-x_status_id :
      (v : Bytes) (p : DownloadPayload)
      → read_download (omit_str (codes "x_status_id") v rest) (record p { x_status_id = [] })
        ≡ read_download rest (record p { x_status_id = to_valid_utf8 v })
  unfolding read_download eq_bytes to_valid_utf8
  read-x_status_id [] p = refl
  read-x_status_id (c ∷ v) p = refl

  read-format_id :
      (v : Bytes) (p : DownloadPayload)
      → read_download (omit_str (codes "format_id") v rest) (record p { format_id = [] })
        ≡ read_download rest (record p { format_id = to_valid_utf8 v })
  unfolding read_download eq_bytes to_valid_utf8
  read-format_id [] p = refl
  read-format_id (c ∷ v) p = refl

  read-quality :
      (v : ℤ) (p : DownloadPayload)
      → read_download (omit_int (codes "quality") v rest) (record p { quality = pos 0 })
        ≡ read_download rest (record p { quality = v })
  unfolding read_download eq_bytes
  read-quality (pos zero) p = refl
  read-quality (pos (suc n)) p = ground arith
  read-quality (negsuc n) p = refl

  read-aspect_ratio :
      (v : Bytes) (p : DownloadPayload)
      → read_download (omit_str (codes "aspect_ratio") v rest) (record p { aspect_ratio = [] })
        ≡ read_download rest (record p { aspect_ratio = to_valid_utf8 v })
  unfolding read_download eq_bytes to_valid_utf8
  read-aspect_ratio [] p = refl
  read-aspect_ratio (c ∷ v) p = refl

  read-session_token :
      (v : Bytes) (p : DownloadPayload)
      → read_download (omit_str (codes "session_token") v rest) (record p { session_token = [] })
        ≡ read_download rest (record p { session_token = to_valid_utf8 v })
  unfolding read_download eq_bytes to_valid_utf8
  read-session_token [] p = refl
  read-session_token (c ∷ v) p = refl

  read-title :
      (v : Bytes) (p : DownloadPayload)
      → read_download (omit_str (codes "title") v rest) (record p { title = [] })
        ≡ read_download rest (record p { title = to_valid_utf8 v })
  unfolding read_download eq_bytes to_valid_utf8
  read-title [] p = refl
  read-title (c ∷ v) p = refl

  read-author :
      (v : Bytes) (p : DownloadPayload)
      → read_download (omit_str (codes "author") v rest) (record p { author = [] })
        ≡ read_download rest (record p { author = to_valid_utf8 v })
  unfolding read_download eq_bytes to_valid_utf8
  read-author [] p = refl
  read-author (c ∷ v) p = refl

  read-audio_only :
      (v : Bool) (p : DownloadPayload)
      → read_download (omit_bool (codes "audio_only") v rest) (record p { audio_only = false })
        ≡ read_download rest (record p { audio_only = v })
  unfolding read_download eq_bytes
  read-audio_only true p = refl
  read-audio_only false p = refl

  read-no_watermark :
      (v : Bool) (p : DownloadPayload)
      → read_download (omit_bool (codes "no_watermark") v rest) (record p { no_watermark = false })
        ≡ read_download rest (record p { no_watermark = v })
  unfolding read_download eq_bytes
  read-no_watermark true p = refl
  read-no_watermark false p = refl

  read-trim_start :
      (v : ℕ) (p : DownloadPayload)
      → read_download (omit_float (codes "trim_start") v rest) (record p { trim_start = 0 })
        ≡ read_download rest (record p { trim_start = kept_float v })
  unfolding read_download eq_bytes
  read-trim_start v p = ground arith

  read-trim_end :
      (v : ℕ) (p : DownloadPayload)
      → read_download (omit_float (codes "trim_end") v rest) (record p { trim_end = 0 })
        ≡ read_download rest (record p { trim_end = kept_float v })
  unfolding read_download eq_bytes
  read-trim_end v p = ground arith

-- The payload with the optional fields from one on at their zero values.
abbrev from_trim_end : DownloadPayload → DownloadPayload
from_trim_end p = record p { trim_end = 0 }

abbrev from_trim_start : DownloadPayload → DownloadPayload
from_trim_start p = record (from_trim_end p) { trim_start = 0 }

abbrev from_no_watermark : DownloadPayload → DownloadPayload
from_no_watermark p = record (from_trim_start p) { no_watermark = false }

abbrev from_audio_only : DownloadPayload → DownloadPayload
from_audio_only p = record (from_no_watermark p) { audio_only = false }

abbrev from_author : DownloadPayload → DownloadPayload
from_author p = record (from_audio_only p) { author = [] }

abbrev from_title : DownloadPayload → DownloadPayload
from_title p = record (from_author p) { title = [] }

abbrev from_session_token : DownloadPayload → DownloadPayload
from_session_token p = record (from_title p) { session_token = [] }

abbrev from_aspect_ratio : DownloadPayload → DownloadPayload
from_aspect_ratio p = record (from_session_token p) { aspect_ratio = [] }

abbrev from_quality : DownloadPayload → DownloadPayload
from_quality p = record (from_aspect_ratio p) { quality = pos 0 }

abbrev from_format_id : DownloadPayload → DownloadPayload
from_format_id p = record (from_quality p) { format_id = [] }

abbrev from_x_status_id : DownloadPayload → DownloadPayload
from_x_status_id p = record (from_format_id p) { x_status_id = [] }

-- The payload as a worker reads it: its texts as `encoding/json` writes them.
abbrev pub as_read : DownloadPayload → DownloadPayload
as_read p = record p {
  url = to_valid_utf8 p.url;
  platform = to_valid_utf8 p.platform;
  lang = to_valid_utf8 p.lang;
  lock_token = to_valid_utf8 p.lock_token;
  lock_scene = to_valid_utf8 p.lock_scene;
  x_status_id = to_valid_utf8 p.x_status_id;
  format_id = to_valid_utf8 p.format_id;
  aspect_ratio = to_valid_utf8 p.aspect_ratio;
  session_token = to_valid_utf8 p.session_token;
  title = to_valid_utf8 p.title;
  author = to_valid_utf8 p.author;
  trim_start = kept_float p.trim_start;
  trim_end = kept_float p.trim_end;
}

read-optional_fields :
    (p : DownloadPayload)
    → read_download (optional_fields p) (from_x_status_id (as_read p)) ≡ some (as_read p)
read-optional_fields p =
    let q = as_read p in
    read-x_status_id _ p.x_status_id (from_format_id q)
    ∙ read-format_id _ p.format_id (from_quality q)
    ∙ read-quality _ p.quality (from_aspect_ratio q)
    ∙ read-aspect_ratio _ p.aspect_ratio (from_session_token q)
    ∙ read-session_token _ p.session_token (from_title q)
    ∙ read-title _ p.title (from_author q)
    ∙ read-author _ p.author (from_audio_only q)
    ∙ read-audio_only _ p.audio_only (from_no_watermark q)
    ∙ read-no_watermark _ p.no_watermark (from_trim_start q)
    ∙ read-trim_start _ p.trim_start (from_trim_end q)
    ∙ read-trim_end _ p.trim_end q
    ∙ unfold read_download in refl

-- A download payload whose trim bounds are neither infinite nor no number is written, and every field
-- is read back: the numbers and the Booleans as they were, a trim bound as it was but for the sign of
-- a zero, and each text as it was but for its invalid UTF-8, of which each byte is read as U+FFFD.
pub unmarshal-marshal_download :
    (p : DownloadPayload)
    → (is_unsupported p.trim_start || is_unsupported p.trim_end) ≡ false
    → (marshal_download p >>= unmarshal_download) ≡ some (as_read p)
unfolding marshal_download unmarshal_download eq_bytes
unmarshal-marshal_download p e = rw e (read-optional_fields p)

-- what a body that was written is read as
pub marshal_download-read :
    (p : DownloadPayload) (body : Body)
    → marshal_download p ≡ some body
    → unmarshal_download body ≡ some (as_read p)
unfolding marshal_download
marshal_download-read p body h =
    elim (Bool-cases (is_unsupported p.trim_start || is_unsupported p.trim_end)) [
      | inl e ↦ absurd (cc (rw e at h))
      | inr e ↦ sym (ap (λ m. m >>= unmarshal_download) h) ∙ unmarshal-marshal_download p e
    ]

abbrev pub music_as_read : MusicPayload → MusicPayload
music_as_read p = record p {
  platform = to_valid_utf8 p.platform;
  lang = to_valid_utf8 p.lang;
  lock_token = to_valid_utf8 p.lock_token;
  lock_scene = to_valid_utf8 p.lock_scene;
  link_type = to_valid_utf8 p.link_type;
  resource_id = to_valid_utf8 p.resource_id;
  source_url = to_valid_utf8 p.source_url;
  release_json = to_valid_utf8 p.release_json;
}

read-music_fields :
    (p : MusicPayload) → read_music (music_fields p) zero_music ≡ some (music_as_read p)
unfolding read_music eq_bytes
read-music_fields p = ground (arith, empty_lem)

-- A music payload is always written, and is read back as it was but for invalid UTF-8 in its texts.
pub unmarshal-marshal_music :
    (p : MusicPayload) → (marshal_music p >>= unmarshal_music) ≡ some (music_as_read p)
unfolding marshal_music unmarshal_music
unmarshal-marshal_music p = read-music_fields p
