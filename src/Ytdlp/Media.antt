-- ===== src/Ytdlp/Media.antt =====
-- The files that yt-dlp left behind: the end of go/internal/ytdlp/downloader.go. A file is its entry in
-- the task's directory: its name, which has no slash, and its size, none where os.Stat fails.
pub mod Largest
use saveinator.Prelude.{
  ℕ, Bool, true, false, ◌&&◌, ◌||◌, not, List, [], ◌∷◌, Option, none, some, Bytes, codes, is_empty,
  contains, ltb, ◌==◌, keep, if◌then◌else◌,
}
use saveinator.Text.Trim.{to_lower}

pub record Entry : Type 0 where
  pub name : Bytes
  pub is_dir : Bool
  pub size : Option ℕ

-- `filepath.Ext` of a name without a slash: from the last dot on
unfoldable pub ext : Bytes → Bytes
ext [] = []
ext (c ∷ s) = let rest = ext s in if is_empty rest then (if c == b'.' then c ∷ s else []) else rest

abbrev pub video_extensions : List Bytes
video_extensions = codes ".mp4" ∷ codes ".webm" ∷ codes ".mkv" ∷ codes ".mov" ∷ codes ".m4v" ∷ []

abbrev pub image_extensions : List Bytes
image_extensions = codes ".jpg" ∷ codes ".jpeg" ∷ codes ".png" ∷ codes ".webp" ∷ []

unfoldable pub is_video : Entry → Bool
is_video f = contains video_extensions (to_lower (ext f.name))

unfoldable pub is_image : Entry → Bool
is_image f = contains image_extensions (to_lower (ext f.name))

unfoldable pub find_media_files : List Entry → List Entry
find_media_files entries = keep (λ e. not e.is_dir && (is_video e || is_image e)) entries

-- the better of the best file so far, with its size, and the next file
unfoldable pub larger : Option Entry × ℕ → Entry → Option Entry × ℕ
larger (best, best_size) f =
    if is_video f
    then elim f.size [
      | none ↦ (best, best_size)
      | some n ↦ if ltb best_size n then (some f, n) else (best, best_size)
    ]
    else (best, best_size)

unfoldable pub largest_from : Option Entry × ℕ → List Entry → Option Entry × ℕ
largest_from best [] = best
largest_from best (f ∷ files) = largest_from (larger best f) files

-- No name is the empty path.
unfoldable pub largest_video : List Entry → Option Entry
largest_video files = (largest_from (none, 0) files).0

unfoldable pub image_files : List Entry → List Entry
image_files files = keep is_image files
