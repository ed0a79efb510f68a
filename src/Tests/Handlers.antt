-- ===== src/Tests/Handlers.antt =====
-- The enqueuing of a link and the command /clear at a concrete server and a concrete broker.
use saveinator.Prelude.{
  ◌≡◌, ◌≢◌, refl, true, false, [], ◌∷◌, ◌++◌, none, some, Bytes, codes, ℤ, pos, eq_bytes,
}
use saveinator.Text.Split.{split_n2}
use saveinator.Text.Decimal.{format_int}
use saveinator.Queue.Asynq.{Request, pending, queue_of}
use saveinator.Queue.Client.{enqueue_tiktok, type_tiktok, enqueue}
use saveinator.Queue.Payload.{marshal_download}
use saveinator.Queue.Clear.{
  clear_user_tasks, clear_queues, clear_user_tasks_in_queue, clear_waiting, cancel_listed,
  delete_listed,
}
use saveinator.Redisx.Client.{
  Client, ActiveDownload, lock_key, lock_value, key, Acquired, acquired, acquire_user_lock,
  release_user_lock, force_release_user_lock, get_active_download, active_of_parts,
}
use saveinator.Handler.Enqueue.{
  Job, Outcome, queued, should_acquire_user_lock, is_admin, payload_of, request_of,
  acquire_or_admin, take_lock, enqueue_locked, enqueue_link,
}
use saveinator.Handler.Enqueue.Releases.{enqueue_link-lock}
use saveinator.Handler.Enqueue.Queued.{Delivers, enqueue_link-queued}
use saveinator.Handler.Clear.{on_clear, on_clear_fleet}
use saveinator.Handler.Clear.Frees.{on_clear-lock}
use saveinator.Tests.Server.{Memory, server}
use saveinator.Tests.Broker.{Lists, broker}

abbrev main_bot : Client
main_bot = record { prefix = [] }

abbrev empty : Memory
empty = record { texts = λ k. none; sets = λ k. []; fields = λ k f. none }

abbrev nobody : Lists
nobody = record { running = λ q. []; held = λ w q. [] }

abbrev job : Job
job = record {
  user = pos 5;
  chat = pos 5;
  lang = codes "en";
  url = codes "https://vm.tiktok.com/x";
  platform = codes "tiktok";
  x_status_id = [];
  scene = codes "tiktok";
  task_type = type_tiktok;
  batch = false;
}

-- admin 1, a timeout of 60 seconds, token t, status message 9
abbrev result : Outcome × Memory × Lists
result =
    enqueue_link server broker main_bot (pos 1) (pos 60) job (codes "t") (some (pos 9)) false empty
      nobody

abbrev taken : Acquired × Memory
taken = take_lock server broker main_bot (pos 1) (pos 60) job (codes "t") empty

taken_lem : taken.0 ≡ acquired (codes "t")
unfolding take_lock should_acquire_user_lock acquire_or_admin is_admin acquire_user_lock
taken_lem = refl

queued_lem : result.0 ≡ queued
unfolding enqueue_link enqueue_locked take_lock should_acquire_user_lock acquire_or_admin is_admin
    acquire_user_lock request_of enqueue_tiktok marshal_download enqueue payload_of eq_bytes
queued_lem = refl

enqueue_link-lock_example :
    (result.0 ≡ queued
      → server.text (lock_key main_bot (pos 5)) result.1
        ≡ some (lock_value (codes "tiktok") (codes "t")))
    × (result.0 ≢ queued → server.text (lock_key main_bot (pos 5)) result.1 ≡ none)
enqueue_link-lock_example =
    enqueue_link-lock server broker main_bot (pos 1) (pos 60) job (codes "t") (some (pos 9)) false
      empty nobody (unfold should_acquire_user_lock in refl) (λ e. cc) taken_lem
      (unfold release_user_lock in refl)

enqueue_link-queued_example :
    (token : Bytes) × (message_id : ℤ) × (request : Request) × (id : Bytes) × (taken.0
      ≡ acquired token)
    × (some (pos 9) ≡ some message_id)
    × Delivers job token message_id false request
    × (broker.waiting pending (queue_of request) result.2
        ≡ broker.waiting pending (queue_of request) nobody
          ++ record { id = id; kind = request.kind; payload = request.payload } ∷ [])
enqueue_link-queued_example =
    enqueue_link-queued server broker main_bot (pos 1) (pos 60) job (codes "t") (some (pos 9)) false
      empty nobody queued_lem

abbrev second : Outcome × Memory × Lists
second =
    enqueue_link server broker main_bot (pos 1) (pos 60) job (codes "u") (some (pos 10)) false
      taken.1 nobody

held_lem :
    server.text (lock_key main_bot (pos 5)) taken.1 ≡ some (lock_value (codes "tiktok") (codes "t"))
unfolding take_lock should_acquire_user_lock acquire_or_admin is_admin acquire_user_lock lock_key
    key eq_bytes format_int lock_value
held_lem = refl

abbrev active : ActiveDownload
active = record { user_id = pos 5; scenario = codes "tiktok"; token = codes "t" }

active_lem : get_active_download server main_bot (pos 5) taken.1 ≡ some (some active)
unfolding get_active_download take_lock should_acquire_user_lock acquire_or_admin is_admin
    acquire_user_lock lock_key key eq_bytes format_int lock_value split_n2 active_of_parts
active_lem = refl

no_refs :
    ((clear_user_tasks broker (pos 5) [] nobody).0.lock_refs ≡ [])
    × ((clear_user_tasks broker (pos 5) (codes "tiktok" ∷ []) nobody).0.lock_refs ≡ [])
unfolding clear_user_tasks clear_queues clear_user_tasks_in_queue clear_waiting cancel_listed
    delete_listed
no_refs = (refl, refl)

on_clear-lock_example :
    (server.text
        (lock_key main_bot (pos 5))
        (on_clear server broker main_bot (pos 5) true taken.1 nobody).1
      ≡ none)
    × (server.text
          (lock_key main_bot (pos 5))
          (on_clear_fleet server broker main_bot (codes "tiktok") (pos 5) true taken.1 nobody).1
        ≡ none)
on_clear-lock_example =
    on_clear-lock server broker main_bot (codes "tiktok") (pos 5) true taken.1 nobody tt
      (unfold force_release_user_lock in refl) (rw (no_refs.0) (tt, tt)) (rw (no_refs.1) (tt, tt))
