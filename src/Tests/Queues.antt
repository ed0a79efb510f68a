-- ===== src/Tests/Queues.antt =====
-- The payloads and the clearing at a concrete download and a concrete broker.
use saveinator.Prelude.{
  ◌≡◌, refl, true, false, [], ◌∷◌, ◌++◌, none, some, arith, Bytes, codes, eq_bytes, pos, contains,
  ◌>>=◌,
}
use saveinator.Queue.Payload.{
  DownloadPayload, MusicPayload, zero_music, zero_download, download_fields, marshal_download,
  unmarshal_download,
}
use saveinator.Queue.Payload.Values.{object}
use saveinator.Queue.Payload.RoundTrip.{as_read, unmarshal-marshal_download}
use saveinator.Queue.Asynq.{TaskInfo, Request, Waiting, pending}
use saveinator.Queue.Client.{
  type_download, queue_download, queue_for, download_request, enqueue_download, enqueue_tiktok,
  enqueue_pinterest_default, enqueue_tiktok_carousel, enqueue_instagram, enqueue_reddit, enqueue,
}
use saveinator.Queue.Clear.{
  task_user_id, owned, clear_user_tasks_in_queue, clear_user_tasks, clear_waiting,
}
use saveinator.Queue.Clear.Elsewhere.{clear-enqueue_download}
use saveinator.Queue.Clear.Foreign.{with_id, with_id-clear_in_queue}
use saveinator.Queue.Clear.Complete.{NoneOwned, clear_in_queue-NoneOwned}
use saveinator.Queue.Clear.Owner.{task_user_id-enqueue}
use saveinator.Tests.Broker.{Lists, broker, broker-Deletes}

-- 80.0 and 165.0
abbrev clip : DownloadPayload
clip = record zero_download {
  url = codes "https://youtu.be/x";
  platform = codes "youtube";
  chat_id = pos 5;
  user_id = pos 5;
  lock_token = codes "t";
  lock_scene = codes "video";
  quality = pos 720;
  trim_start = 0x4054000000000000;
  trim_end = 0x4064a00000000000;
}

unmarshal-marshal_download_example :
    (marshal_download clip >>= unmarshal_download) ≡ some (as_read clip)
unmarshal-marshal_download_example = unmarshal-marshal_download clip refl

abbrev clip_request : Request
clip_request = download_request type_download queue_download (object (download_fields clip))

enqueue_download_runs : enqueue_download clip ≡ some clip_request
unfolding enqueue_download marshal_download queue_for eq_bytes
enqueue_download_runs = refl

abbrev nobody : Lists
nobody = record { running = λ q. []; held = λ w q. [] }

abbrev clip_task : TaskInfo
clip_task = record {
  id = codes "t1";
  kind = type_download;
  payload = object (download_fields clip);
}

abbrev busy : Lists
busy = record { running = λ q. clip_task ∷ []; held = λ w q. clip_task ∷ [] }

clear-enqueue_download_example :
    (id : Bytes) × (broker.waiting pending
        (queue_for clip)
        (clear_user_tasks broker (pos 5) [] (enqueue broker (enqueue_download clip) nobody).1).1
      ≡ broker.waiting pending (queue_for clip) nobody
        ++ record { id = id; kind = clip_request.kind; payload = clip_request.payload } ∷ [])
clear-enqueue_download_example =
    clear-enqueue_download broker (pos 5) clip clip_request nobody enqueue_download_runs refl

-- user 6 has no task here, so the task t1 of user 5 stays
with_id-clear_in_queue_example :
    with_id (codes "t1") (
      broker.waiting pending queue_download
        (clear_user_tasks_in_queue broker (pos 6) queue_download busy).1)
    ≡ with_id (codes "t1") (broker.waiting pending queue_download busy)
with_id-clear_in_queue_example =
    with_id-clear_in_queue broker (pos 6) queue_download (codes "t1") pending busy not_owned
  where
    not_owned :
        (w : Waiting)
        → (owned (pos 6) clip_task ≡ true → eq_bytes (codes "t1") (codes "t1") ≡ false) × Unit {0}
    not_owned w =
        ((λ e. absurd (unfold owned task_user_id unmarshal_download contains eq_bytes in cc e)), tt)

clear_in_queue_runs :
    (clear_user_tasks_in_queue broker (pos 5) queue_download busy).0.failed ≡ false
unfolding clear_user_tasks_in_queue clear_waiting
clear_in_queue_runs = refl

clear_in_queue-NoneOwned_example : NoneOwned (pos 5) (
    broker.waiting pending queue_download
      (clear_user_tasks_in_queue broker (pos 5) queue_download busy).1)
clear_in_queue-NoneOwned_example =
    clear_in_queue-NoneOwned broker (pos 5) queue_download (broker-Deletes queue_download) busy
      (λ w. omega arith) clear_in_queue_runs pending

task_user_id-enqueue_example :
    (enqueue_download clip ≡ some clip_request
      → task_user_id type_download clip_request.payload ≡ some (pos 5))
    × (enqueue_tiktok clip ≡ some clip_request
        → task_user_id type_download clip_request.payload ≡ some (pos 5))
    × (enqueue_pinterest_default clip ≡ some clip_request
        → task_user_id type_download clip_request.payload ≡ some (pos 5))
    × (enqueue_tiktok_carousel clip ≡ some clip_request
        → task_user_id type_download clip_request.payload ≡ some (pos 5))
    × (enqueue_instagram clip ≡ some clip_request
        → task_user_id type_download clip_request.payload ≡ none)
    × (enqueue_reddit clip ≡ some clip_request
        → task_user_id type_download clip_request.payload ≡ none)
task_user_id-enqueue_example = task_user_id-enqueue clip clip_request (λ e. cc)

abbrev song : MusicPayload
song = record zero_music { platform = codes "spotify"; user_id = pos 5; release_json = codes "{}" }
