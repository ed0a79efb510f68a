-- ===== src/Tests/Albums.antt =====
-- A generic download of two pictures whose album Telegram refuses.
use saveinator.Prelude.{
  ◌≡◌, refl, false, List, [], ◌∷◌, none, some, Bytes, codes, pos, eq_bytes, contains,
}
use saveinator.Text.Trim.{to_lower}
use saveinator.Queue.Payload.{DownloadPayload, zero_download}
use saveinator.Ytdlp.Media.{
  Entry, ext, is_video, is_image, find_media_files, larger, largest_from, largest_video,
  image_files,
}
use saveinator.Worker.Instagram.{entries}
use saveinator.Worker.Reports.{RecordsOnce}
use saveinator.Worker.Download.{Answers, Titles, photos, run_download}
use saveinator.Worker.Download.Refused.{run_download-RecordsOnce, AlbumTold, run_download-Told}

abbrev picture : Bytes → Entry
picture name = record { name = name; is_dir = false; size = some 4 }

abbrev left : List Entry
left = picture (codes "1.jpg") ∷ picture (codes "2.PNG") ∷ []

abbrev listed : List Entry
listed = picture (codes "0.txt") ∷ left

abbrev payload : DownloadPayload
payload = record zero_download { platform = codes "reddit" }

abbrev titles : Titles
titles = record { display_title = λ path. path; x_title = λ path. []; x_caption = [] }

abbrev answers : Answers
answers = record {
  made = none;
  fetched = none;
  listed = entries listed;
  x = photos [];
  sent = some (codes "boom");
}

found_lem : find_media_files listed ≡ left
unfolding find_media_files is_video is_image ext to_lower eq_bytes contains
found_lem = refl

no_video_lem : largest_video left ≡ none
unfolding largest_video largest_from larger is_video ext to_lower eq_bytes contains
no_video_lem = refl

pictures_lem : image_files left ≡ left
unfolding image_files is_image ext to_lower eq_bytes contains
pictures_lem = refl

run_download-Told_example :
    AlbumTold
      (some (codes "boom"))
      (run_download (pos 1) payload titles (codes "via") 50 2000 answers)
run_download-Told_example =
    run_download-Told (pos 1) payload titles (codes "via") 50 2000 (unfold eq_bytes in refl) answers

run_download-RecordsOnce_example :
    RecordsOnce (run_download (pos 1) payload titles (codes "via") 50 2000 answers)
run_download-RecordsOnce_example =
    run_download-RecordsOnce (pos 1) payload titles (codes "via") 50 2000 answers
