-- ===== src/Tests/Boards.antt =====
-- A board of Pinterest with a video, a picture that is too large, one that is lost, and one that fits.
use saveinator.Prelude.{
  eq_bytes, refl, ◌≡◌, true, false, List, [], ◌∷◌, none, some, Bytes, codes, pos, ℕ, Option,
}
use saveinator.Queue.Payload.{zero_download}
use saveinator.Worker.Pinterest.{
  MediaItem, items_of, run_pinterest, send_pinterest_items, is_video, too_large,
}
use saveinator.Worker.Pinterest.Fits.{
  files_of, albums_of, albums, within, present, send_pinterest_items-within,
}
use saveinator.Worker.Pinterest.Settles.{run_pinterest-Told}
use saveinator.Worker.Reports.{Told}

abbrev item : Bytes → Bytes → ℕ → Option Bytes → MediaItem
item kind path size missing = record {
  title = [];
  media_type = kind;
  file_path = path;
  file_size = size;
  missing = missing;
}

abbrev board : List MediaItem
board =
    item (codes "video") (codes "a.mp4") 1048576 none
    ∷ item (codes "image") (codes "b.jpg") 3145728 none
    ∷ item (codes "image") (codes "c.jpg") 10 (some (codes "no such file"))
    ∷ item (codes "image") (codes "d.jpg") 1048577 none
    ∷ []

abbrev untitled : Bytes → Bytes
untitled path = []

abbrev accepted : Bytes → Option Bytes
accepted path = none

send_pinterest_items-within_example :
    (files_of
        (send_pinterest_items untitled accepted 2 1 (pos 1) zero_download (codes "via") none board)
      ≡ within true 1 board)
    × (albums_of (
          send_pinterest_items untitled accepted 2 1 (pos 1) zero_download (codes "via") none board)
        ≡ albums (within false 2 board))
send_pinterest_items-within_example =
    send_pinterest_items-within untitled accepted 2 1 (pos 1) zero_download (codes "via") none board

-- these are the video and the last picture
sent_lem : within true 1 board ≡ codes "a.mp4" ∷ []
unfolding present is_video too_large eq_bytes
sent_lem = refl

shown_lem : within false 2 board ≡ codes "d.jpg" ∷ []
unfolding present is_video too_large eq_bytes
shown_lem = refl

run_pinterest-Told_example : Told (
    run_pinterest untitled accepted 2 1
      (pos 1)
      zero_download
      (codes "via")
      (some (codes "Bad Request"))
      none
      (items_of board))
run_pinterest-Told_example =
    run_pinterest-Told untitled accepted 2 1 (pos 1) zero_download (codes "via")
      (some (codes "Bad Request")) none (items_of board)
