-- ===== src/Youtube/Formats.antt =====
-- The qualities that a video offers: go/internal/youtube/probe.go without the run of yt-dlp and the
-- reading of its JSON. `estimate tbr duration` is the `int64` of `tbr * 1000 * duration / 8`, whose
-- rounding is left to the section; of a `Meta` the formats and the duration are used.
pub mod Offered
use saveinator.Prelude.{
  ℕ, ◌+◌, ◌-◌, ◌%◌, ◌^◌, negsuc, Bool, true, false, ◌&&◌, ◌||◌, not, List, [], ◌∷◌, ◌++◌, Option,
  none, some, Bytes, codes, eq_bytes, is_empty, ℤ, pos, eq_ℤ, ltb_ℤ, leb_ℤ, ltb, ◌==◌,
  if◌then◌else◌,
}
use saveinator.Text.Search.{has_prefix}
use saveinator.Text.Trim.{trim_space, to_lower}
use saveinator.Text.Decimal.{parse_int}
use saveinator.Float64.{Float64, float_lt}
use saveinator.Sorting.{sort}

pub record Format : Type 0 where
  pub format_id : Bytes
  pub vcodec : Bytes
  pub acodec : Bytes
  pub width : ℤ
  pub height : ℤ
  pub filesize : ℤ
  pub filesize_approx : ℤ
  pub tbr : Float64
  pub abr : Float64

-- `Option` of the source
pub record Offer : Type 0 where
  pub height : ℤ
  pub size_bytes : ℤ
  pub format_id : Bytes

abbrev pub default_heights : List ℤ
default_heights = pos 144 ∷ pos 240 ∷ pos 360 ∷ pos 480 ∷ pos 720 ∷ pos 1080 ∷ []

abbrev is_member : ℤ → List ℤ → Bool
is_member h [] = false
is_member h (x ∷ xs) = eq_ℤ h x || is_member h xs

abbrev fresh_height : Option ℤ → List ℤ → Option ℤ
fresh_height none seen = none
fresh_height (some h) seen = if leb_ℤ h (pos 0) || is_member h seen then none else some h

-- the loop, with what is in `out` so far, which has the members of `seen`
unfoldable pub collect_heights : List Bytes → List ℤ → List ℤ
collect_heights [] out = out
collect_heights (v ∷ vs) out = elim (fresh_height (parse_int (trim_space v)) out) [
  | none ↦ collect_heights vs out
  | some h ↦ collect_heights vs (out ++ h ∷ [])
]

abbrev or_default_heights : List ℤ → List ℤ
or_default_heights [] = default_heights
or_default_heights (h ∷ hs) = sort leb_ℤ (h ∷ hs)

unfoldable pub allowed_heights : List Bytes → List ℤ
allowed_heights values = or_default_heights (collect_heights values [])

abbrev is_codec : Bytes → Bool
is_codec codec = not (is_empty codec) && not (eq_bytes codec (codes "none"))

unfoldable pub has_video : Format → Bool
has_video f = is_codec f.vcodec

unfoldable pub has_audio : Format → Bool
has_audio f = is_codec f.acodec

unfoldable pub short_side : Format → ℤ
short_side f =
    if ltb_ℤ (pos 0) f.width && ltb_ℤ (pos 0) f.height && ltb_ℤ f.width f.height
    then f.width
    else f.height

unfoldable pub video_codec_rank : Bytes → ℕ
video_codec_rank codec =
    let c = to_lower codec in
    if has_prefix c (codes "avc1") || has_prefix c (codes "h264")
    then 0
    else if has_prefix c (codes "vp9") || has_prefix c (codes "vp09")
    then 1
    else if has_prefix c (codes "av01")
    then 2
    else 3

unfoldable pub audio_codec_rank : Bytes → ℕ
audio_codec_rank codec =
    let c = to_lower codec in
    if has_prefix c (codes "mp4a") || has_prefix c (codes "aac")
    then 0
    else if has_prefix c (codes "opus")
    then 1
    else 2

unfoldable pub audio_bitrate : Format → Float64
audio_bitrate f = if float_lt 0 f.abr then f.abr else f.tbr

abbrev better_audio : Format → Format → Bool
better_audio f best =
    let ra = audio_codec_rank f.acodec in
    let rb = audio_codec_rank best.acodec in
    if not (ra == rb) then ltb ra rb else float_lt (audio_bitrate best) (audio_bitrate f)

abbrev next_audio : Format → Option Format → Option Format
next_audio f none = some f
next_audio f (some best) = if better_audio f best then some f else some best

-- the loop, with the best so far
unfoldable pub best_audio_from : Option Format → List Format → Option Format
best_audio_from best [] = best
best_audio_from best (f ∷ fs) =
    best_audio_from (if has_video f || not (has_audio f) then best else next_audio f best) fs

unfoldable pub best_audio : List Format → Option Format
best_audio formats = best_audio_from none formats

-- the sum on int64, with its wrap-around
abbrev sum : ℤ → ℤ → ℤ
sum (pos a) (pos b) = pos (a + b)
sum (pos a) (negsuc b) = if ltb b a then pos (a - (b + 1)) else negsuc (b - a)
sum (negsuc a) (pos b) = if ltb a b then pos (b - (a + 1)) else negsuc (a - b)
sum (negsuc a) (negsuc b) = negsuc (a + b + 1)

abbrev wrap_int64 : ℤ → ℤ
wrap_int64 (pos n) =
    if ltb (n % 2 ^ 64) (2 ^ 63) then pos (n % 2 ^ 64) else negsuc (2 ^ 64 - 1 - n % 2 ^ 64)
wrap_int64 (negsuc n) =
    if ltb (n % 2 ^ 64) (2 ^ 63) then negsuc (n % 2 ^ 64) else pos (2 ^ 64 - 1 - n % 2 ^ 64)

unfoldable pub add_int64 : ℤ → ℤ → ℤ
add_int64 a b = wrap_int64 (sum a b)

-- `byHeight`
abbrev pub Picks : Type 0
Picks = ℤ → Option Format

module _ (estimate : Float64 → Float64 → ℤ) (duration : Float64) where
  unfoldable pub format_size : Format → ℤ
  format_size f =
      if ltb_ℤ (pos 0) f.filesize
      then f.filesize
      else if ltb_ℤ (pos 0) f.filesize_approx
      then f.filesize_approx
      else if float_lt 0 f.tbr && float_lt 0 duration
      then estimate f.tbr duration
      else pos 0

  abbrev smaller : ℤ → ℤ → Bool
  smaller sa sb =
      if eq_ℤ sa (pos 0) || eq_ℤ sb (pos 0)
      then eq_ℤ sb (pos 0) && ltb_ℤ (pos 0) sa
      else ltb_ℤ sa sb

  abbrev differ : Bool → Bool → Bool
  differ true b = not b
  differ false b = b

  unfoldable pub better_video : Format → Format → Bool
  better_video a b =
      if differ (has_audio a) (has_audio b)
      then has_audio a
      else if not (video_codec_rank a.vcodec == video_codec_rank b.vcodec)
      then ltb (video_codec_rank a.vcodec) (video_codec_rank b.vcodec)
      else smaller (format_size a) (format_size b)

  abbrev pub replaces : Format → Option Format → Bool
  replaces f none = true
  replaces f (some cur) = better_video f cur

  -- one round of the loop
  unfoldable pub pick_one : Format → Picks → Picks
  pick_one f picks h =
      if has_video f
        && not (eq_ℤ (short_side f) (pos 0))
        && eq_ℤ h (short_side f)
        && replaces f (picks h)
      then some f
      else picks h

  unfoldable pub pick_from : Picks → List Format → Picks
  pick_from picks [] = picks
  pick_from picks (f ∷ fs) = pick_from (pick_one f picks) fs

  unfoldable pub by_height : List Format → Picks
  by_height formats = pick_from (λ h. none) formats

  abbrev pub whole_offer : ℤ → Format → Offer
  whole_offer h f = record { height = h; size_bytes = format_size f; format_id = f.format_id }

  abbrev pub merged_offer : ℤ → Format → Format → Offer
  merged_offer h f audio = record {
    height = h;
    size_bytes = add_int64 (format_size f) (format_size audio);
    format_id = f.format_id ++ b'+' ∷ audio.format_id;
  }

  -- the offer of a height for which there is a format, with the audio track to merge
  unfoldable pub offer_of : Option Format → ℤ → Option Format → Option Offer
  offer_of audio h none = none
  offer_of none h (some f) = if has_audio f then some (whole_offer h f) else none
  offer_of (some a) h (some f) =
      if has_audio f then some (whole_offer h f) else some (merged_offer h f a)

  abbrev pub cons_some : Option Offer → List Offer → List Offer
  cons_some none os = os
  cons_some (some o) os = o ∷ os

  unfoldable pub offers_from : Option Format → Picks → List ℤ → List Offer
  offers_from audio picks [] = []
  offers_from audio picks (h ∷ hs) =
      cons_some (offer_of audio h (picks h)) (offers_from audio picks hs)

  -- `Options`, of a `Meta` that is not nil
  unfoldable pub options : List Format → List ℤ → List Offer
  options formats allowed = offers_from (best_audio formats) (by_height formats) allowed
