-- ===== src/Youtube/Card.antt =====
-- The keyboard of the format card and yt-dlp's selectors: go/internal/youtube/keyboards.go. A button is
-- its callback payload; labels are text of the locale.
pub mod Layout
use saveinator.Prelude.{
  ℕ, ◌==◌, Bool, List, [], ◌∷◌, ◌++◌, Bytes, codes, eq_bytes, is_empty, length, ℤ, if◌then◌else◌,
}
use saveinator.Text.Trim.{trim_space}
use saveinator.Text.Decimal.{format_int}
use saveinator.Youtube.Formats.{Offer}

abbrev pub qualities_per_row : ℕ
qualities_per_row = 3

abbrev pub quality_button : Offer → Bytes
quality_button o = codes "quality:" ++ format_int o.height

abbrev last_row : List Bytes → List (List Bytes)
last_row [] = []
last_row (b ∷ row) = (b ∷ row) ∷ []

-- the loop over the offers, with the row begun
unfoldable pub quality_rows : List Offer → List Bytes → List (List Bytes)
quality_rows [] row = last_row row
quality_rows (o ∷ os) row =
    let row' = row ++ quality_button o ∷ [] in
    let full = quality_rows os [] in
    let open_row = quality_rows os row' in
    if length row' == qualities_per_row then row' ∷ full else open_row

abbrev row_if : Bool → Bytes → List (List Bytes)
row_if wanted button = if wanted then (button ∷ []) ∷ [] else []

unfoldable pub format_keyboard : List Offer → Bool → Bool → List (List Bytes)
format_keyboard opts mp3_enabled trim_enabled =
    quality_rows opts []
    ++ row_if mp3_enabled (codes "yt:mp3")
    ++ row_if trim_enabled (codes "yt:trim")

abbrev limit : Bytes → ℤ → Bytes
limit dim height = codes "[" ++ dim ++ codes "<=" ++ format_int height ++ codes "]"

abbrev limit_dim : Bytes → Bytes
limit_dim aspect_ratio =
    if eq_bytes aspect_ratio (codes "9_16") then codes "width" else codes "height"

unfoldable pub build_format : ℤ → Bytes → Bytes
build_format target_height aspect_ratio =
    let cap = limit (limit_dim aspect_ratio) target_height in
    codes "bestvideo"
    ++ cap
    ++ codes "[vcodec^=avc1]+bestaudio[acodec^=mp4a]/"
    ++ codes "bestvideo"
    ++ cap
    ++ codes "+bestaudio/"
    ++ codes "best"
    ++ cap
    ++ codes "[ext=mp4]/"
    ++ codes "best"
    ++ cap
    ++ codes "/"
    ++ codes "bestvideo+bestaudio/best"

unfoldable pub format_selector : Bytes → ℤ → Bytes → Bytes
format_selector format_id target_height aspect_ratio =
    let fallback = build_format target_height aspect_ratio in
    if is_empty (trim_space format_id) then fallback else format_id ++ b'/' ∷ fallback
