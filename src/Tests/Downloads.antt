-- ===== src/Tests/Downloads.antt =====
-- The workers' tasks at a concrete server and with concrete answers.
use saveinator.Prelude.{
  ◌≡◌, ◌<◌, refl, true, false, List, [], ◌∷◌, none, some, codes, pos, eq_bytes, eq_bytes_refl, All,
  ℕ, contains,
}
use saveinator.Text.Trim.{to_lower}
use saveinator.Text.Search.{has_substring, has_prefix}
use saveinator.Queue.Payload.{DownloadPayload, zero_download}
use saveinator.Text.Decimal.{format_int, magnitude, signed}
use saveinator.Redisx.Client.{
  Client, is_download_cancelled, cancel_key, key, lock_key, lock_value, release_user_lock,
}
use saveinator.Ytdlp.Errors.{
  is_retryable_error, is_network_error, is_timeout_error, user_facing_error_key, has_any,
  is_format_unavailable_error, is_unexpected_webpage_error,
}
use saveinator.Ytdlp.Media.{
  Entry, ext, is_video, is_image, find_media_files, larger, largest_from, largest_video,
}
use saveinator.Ytdlp.Media.Largest.{Among, Below, largest_video-IsLargest}
use saveinator.Worker.Task.{check_cancelled}
use saveinator.Worker.Instagram.{Answers, entries, run_instagram, handle_instagram}
use saveinator.Worker.Tiktok.{Result, fetched, video, run_tiktok, handle_tiktok}
use saveinator.Worker.Reports.{Told, run_tiktok-Told}
use saveinator.Worker.Instagram.Handed.{HandedOver, run_instagram-Handed}
use saveinator.Worker.Released.{handle-freed}
use saveinator.Tests.Server.{Memory, server, set_text}

abbrev clip : Entry
clip = record { name = codes "b.MP4"; is_dir = false; size = some 9 }

abbrev files : List Entry
files =
    record { name = codes "a.mp4"; is_dir = false; size = some 4 }
    ∷ record { name = codes "c.jpg"; is_dir = false; size = some 20 }
    ∷ clip
    ∷ record { name = codes "e.d"; is_dir = true; size = none }
    ∷ []

largest_lem : largest_video files ≡ some clip
unfolding largest_video largest_from larger is_video ext to_lower eq_bytes contains
largest_lem = refl

largest_video-IsLargest_example :
    (n : ℕ) × Among clip files
    × (is_video clip ≡ true)
    × (clip.size ≡ some n)
    × (0 < n)
    × All (Below n) files
largest_video-IsLargest_example = largest_video-IsLargest files clip largest_lem

abbrev payload : DownloadPayload
payload = record zero_download {
  url = codes "u";
  user_id = pos 5;
  lock_token = codes "t";
  lock_scene = codes "tiktok";
}

abbrev result : Result
result = record {
  post_type = video;
  title = codes "x";
  author = [];
  images = [];
  video_path = codes "v.mp4";
  audio_path = [];
  carousel_images_available = false;
  carousel_image_count = pos 0;
}

run_tiktok-Told_example :
    Told (run_tiktok (pos 1) payload (codes "via") none (fetched result) (some (codes "boom")))
run_tiktok-Told_example =
    run_tiktok-Told (pos 1) payload (codes "via") none (some (codes "boom")) (fetched result)

abbrev answers : Answers
answers = record { made = none; fetched = none; listed = entries files; sent = some (codes "boom") }

found_lem : largest_video (find_media_files files) ≡ some clip
unfolding find_media_files largest_video largest_from larger is_video is_image ext to_lower eq_bytes
    contains
found_lem = refl

run_instagram-Handed_example :
    HandedOver (some (codes "boom")) (run_instagram (pos 1) payload 20 (codes "via") answers)
run_instagram-Handed_example = run_instagram-Handed (pos 1) payload (codes "via") 20 answers

abbrev main_bot : Client
main_bot = record { prefix = [] }

abbrev locked : Memory
locked =
    set_text (lock_key main_bot (pos 5)) (some (lock_value (codes "tiktok") (codes "t")))
      (record { texts = λ k. none; sets = λ k. []; fields = λ k f. none })

held_lem :
    server.text (lock_key main_bot (pos 5)) locked ≡ some (lock_value (codes "tiktok") (codes "t"))
held_lem = rw (eq_bytes_refl (lock_key main_bot (pos 5)))

ok_lem : (release_user_lock server main_bot (pos 5) (codes "tiktok") (codes "t") locked).0 ≡ true
unfolding release_user_lock
ok_lem = refl

handle-freed_example :
    (server.text
        (lock_key main_bot (pos 5))
        (handle_tiktok server main_bot
          (pos 1)
          (codes "via")
          (codes "json")
          none
          (fetched result)
          none
          (some payload)
          locked).1
      ≡ none)
    × (server.text
          (lock_key main_bot (pos 5))
          (handle_instagram server main_bot
            (pos 1)
            20
            (codes "via")
            (codes "json")
            answers
            (some payload)
            locked).1
        ≡ none)
handle-freed_example =
    handle-freed server main_bot (pos 1) (codes "via") (codes "json") payload none none
      (fetched result) 20 answers locked refl held_lem ok_lem

retryable_lem : is_retryable_error (some (codes "i/o timeout")) ≡ true
unfolding is_retryable_error is_network_error is_timeout_error user_facing_error_key has_any
    has_substring has_prefix to_lower eq_bytes is_format_unavailable_error
    is_unexpected_webpage_error
retryable_lem = refl

running_lem : check_cancelled server main_bot payload locked ≡ false
unfolding check_cancelled is_download_cancelled cancel_key lock_key key lock_value eq_bytes
    format_int magnitude signed
running_lem = refl

line_end : ◌≡◌ {A = ℕ} b'\n' 10
line_end = refl
