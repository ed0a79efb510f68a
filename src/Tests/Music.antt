-- ===== src/Tests/Music.antt =====
-- The handlers of music links at a concrete server and a concrete broker.
use saveinator.Prelude.{
  ◌≡◌, refl, Bool, true, List, [], ◌∷◌, none, some, codes, pos, eq_bytes, if◌then◌else◌,
}
use saveinator.Text.Decimal.{format_int}
use saveinator.Queue.Client.{enqueue_spotify, enqueue}
use saveinator.Queue.Payload.{marshal_music}
use saveinator.Redis.{Redis}
use saveinator.Redisx.Client.{
  Client, Acquired, acquired, failed, lock_key, key, lock_value, acquire_user_lock,
  release_user_lock,
}
use saveinator.Handler.Enqueue.{is_admin}
use saveinator.Handler.Reply.{Reply}
use saveinator.Handler.Music.{
  Release, Around, Timeouts, found, acquire, behind_lock, queue_release, music_lock_ttl,
}
use saveinator.Handler.Music.Links.{spotify, spotify_link, spotify_locked, spotify_payload}
use saveinator.Handler.Music.Ways.{Way, spotify_way, handle}
use saveinator.Handler.Music.Locks.{handle-lock, handle-silent}
use saveinator.Tests.Server.{Memory, server}
use saveinator.Tests.Broker.{Lists, broker}

abbrev main_bot : Client
main_bot = record { prefix = [] }

abbrev empty : Memory
empty = record { texts = λ k. none; sets = λ k. []; fields = λ k f. none }

abbrev nobody : Lists
nobody = record { running = λ q. []; held = λ w q. [] }

abbrev album : Release
album = record {
  cover = [];
  album_id = codes "7";
  url = [];
  tracks = record { source_id = codes "1"; url = [] } ∷ [];
}

abbrev around : Around
around = record {
  drawn = codes "t";
  config_enabled = true;
  client_enabled = true;
  fetched = found album;
  download_enabled = true;
  card_text = λ release enabled. release.album_id;
  marshal = λ release. some release.album_id;
  status = some (pos 9);
}

abbrev timeouts : Timeouts
timeouts = record { spotify = 60; yandex_music = 60; soundcloud = 60; download = pos 60 }

abbrev way : Way
way =
    spotify_way (record { user = pos 5; chat = pos 5; lang = codes "en" }) (codes "album")
      (codes "7")

abbrev taken : Acquired × Memory
taken =
    acquire server broker main_bot (pos 1) (pos 5) spotify (music_lock_ttl timeouts spotify (pos 3))
      (codes "t") empty

abbrev result : Bool × List Reply × Memory × Lists
result = handle server broker main_bot (pos 1) timeouts way (pos 3) around empty nobody

result_lem : result.0 ≡ true
unfolding handle spotify_link behind_lock acquire is_admin acquire_user_lock spotify_locked
    queue_release enqueue_spotify marshal_music enqueue spotify_payload
result_lem = refl

taken_lem : taken.0 ≡ acquired (codes "t")
unfolding acquire is_admin acquire_user_lock
taken_lem = refl

handle-lock_example :
    server.text (lock_key main_bot (pos 5)) result.2
    ≡ (if result.0 then some (lock_value spotify (codes "t")) else none)
handle-lock_example =
    handle-lock server broker main_bot (pos 1) timeouts way (pos 3) around empty nobody
      (unfold is_admin in refl) (λ e. cc) taken_lem (unfold release_user_lock in refl)

held_lem : server.text (lock_key main_bot (pos 5)) taken.1 ≡ some (lock_value spotify (codes "t"))
unfolding acquire is_admin acquire_user_lock lock_key key eq_bytes format_int lock_value
held_lem = refl

abbrev second : Bool × List Reply × Memory × Lists
second = handle server broker main_bot (pos 1) timeouts way (pos 3) around taken.1 nobody

-- a server that answers no SETNX
abbrev offline : Redis
offline = record server {
  setnx = λ k v ttl s. (none, s);
  setnx_new = λ k v ttl s h. cc;
  setnx_taken = λ k v ttl s h. cc;
}

silent_lem :
    (handle offline broker main_bot (pos 1) timeouts way (pos 3) around empty nobody).1 ≡ []
unfolding handle spotify_link behind_lock acquire is_admin acquire_user_lock
silent_lem = refl

handle-silent_example :
    (acquire offline broker main_bot
      (pos 1)
      (pos 5)
      spotify
      (music_lock_ttl timeouts spotify (pos 3))
      (codes "t")
      empty).0
    ≡ failed
handle-silent_example =
    handle-silent offline broker main_bot (pos 1) timeouts way (pos 3) around empty nobody refl
      silent_lem
