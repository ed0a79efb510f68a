-- ===== src/Tests/Youtube.antt =====
-- The format card's buttons and the dispatch of links at a concrete server, broker and coding.
use saveinator.Prelude.{
  ◌≡◌, refl, Bool, true, false, List, [], ◌∷◌, ◌++◌, Bytes, none, some, codes, ℤ, pos, eq_bytes,
}
use saveinator.Text.Search.{has_prefix, behind, trim_prefix}
use saveinator.Text.Decimal.{format_int, parse_int, magnitude, signed}
use saveinator.Queue.Asynq.{Request, pending, queue_of}
use saveinator.Queue.Payload.{DownloadPayload, marshal_download, unmarshal_download}
use saveinator.Queue.Client.{enqueue_download, enqueue, queue_for}
use saveinator.Redisx.Client.{Client, lock_key, key}
use saveinator.Redisx.Bans.{ban_user}
use saveinator.Linkparser.{Expressions, plain_link}
use saveinator.Youtube.Formats.{Offer}
use saveinator.Youtube.Session.{
  PendingSession, Coding, option_for, find_option, session_key, save, get, clear,
}
use saveinator.Handler.Enqueue.{is_admin}
use saveinator.Handler.Reply.{Reply}
use saveinator.Handler.Music.{Around, found}
use saveinator.Handler.Music.Links.{From}
use saveinator.Handler.Youtube.{
  Press, located, build_youtube_payload, youtube_session, start_youtube_download, on_quality_choice,
}
use saveinator.Handler.Youtube.Buttons.{on_quality_choice-once}
use saveinator.Handler.Youtube.Queued.{IsFirst, Orders, on_quality_choice-queued}
use saveinator.Handler.Youtube.Flow.{Typed, range}
use saveinator.Handler.Incoming.{Message}
use saveinator.Handler.Incoming.Dispatch.{World, dispatch_link}
use saveinator.Handler.Incoming.Held.{dispatch_link-held}
use saveinator.Handler.Incoming.Text.{Surroundings, Step, on_text}
use saveinator.Tests.Server.{Memory, server, set_text}
use saveinator.Tests.Broker.{Lists, broker}

abbrev main_bot : Client
main_bot = record { prefix = [] }

abbrev empty : Memory
empty = record { texts = λ k. none; sets = λ k. []; fields = λ k f. none }

abbrev nobody : Lists
nobody = record { running = λ q. []; held = λ w q. [] }

abbrev offer : Offer
offer = record { height = pos 720; size_bytes = pos 1; format_id = codes "22" }

abbrev session : PendingSession
session = record {
  user_id = pos 5;
  url = codes "u";
  chat_id = pos 5;
  message_id = pos 9;
  lang = codes "en";
  title = [];
  author = [];
  duration_sec = pos 60;
  options = offer ∷ [];
  awaiting_trim = false;
  trim_start = 0;
  trim_end = 0;
}

abbrev coding : Coding
coding = record { marshal = λ s. some (codes "{}"); unmarshal = λ b. some session }

abbrev live : Memory
live = (save server coding session empty).1

abbrev press : Press
press = record {
  user = pos 5;
  message = some (pos 5, pos 9);
  payload = codes "quality:720";
  lang = codes "en";
}

abbrev pressed : Bool × List Reply × Memory × Lists
pressed = on_quality_choice server broker coding press (codes "16_9") false live nobody

queued_lem : pressed.0 ≡ true
unfolding on_quality_choice youtube_session start_youtube_download get save session_key option_for
    find_option located trim_prefix has_prefix behind parse_int magnitude signed enqueue_download
    enqueue marshal_download build_youtube_payload queue_for eq_bytes format_int
queued_lem = refl

on_quality_choice-once_example :
    ((on_quality_choice server broker coding press [] false pressed.2 pressed.3).0 ≡ false)
    × ((on_quality_choice server broker coding press [] false pressed.2 pressed.3).3 ≡ pressed.3)
on_quality_choice-once_example =
    on_quality_choice-once server broker coding press press (codes "16_9") [] false false live
      nobody refl queued_lem (unfold clear in refl)

abbrev typed : Typed
typed = record { body = codes "0-9"; has_links = false; parsed = λ duration. range 0 9 }

on_quality_choice-queued_example :
    (chat : ℤ) × (message_id : ℤ) × (stored : PendingSession) × (quality : ℤ) × (option : Offer)
    × (request : Request) × (q : DownloadPayload) × (id : Bytes) × (press.message
        ≡ some (chat, message_id))
    × (get server coding press.user live ≡ some (some stored))
    × (stored.user_id ≡ press.user)
    × (parse_int (trim_prefix press.payload (codes "quality:")) ≡ some quality)
    × IsFirst quality stored.options option
    × (pressed.2 ≡ (clear server coding press.user live).1)
    × (unmarshal_download request.payload ≡ some q)
    × Orders stored press chat message_id option (codes "16_9") false q
    × (broker.waiting pending (queue_of request) pressed.3
        ≡ broker.waiting pending (queue_of request) nobody
          ++ record { id = id; kind = request.kind; payload = request.payload } ∷ [])
on_quality_choice-queued_example =
    on_quality_choice-queued server broker coding press (codes "16_9") false live nobody queued_lem

abbrev music : Around
music = record {
  drawn = codes "t";
  config_enabled = true;
  client_enabled = true;
  fetched = found (record { cover = []; album_id = []; url = []; tracks = [] });
  download_enabled = true;
  card_text = λ release enabled. [];
  marshal = λ release. none;
  status = some (pos 9);
}

abbrev world : World
world = record {
  admin_id = pos 1;
  timeout_sec = pos 60;
  timeouts = record { spotify = 60; yandex_music = 60; soundcloud = 60; download = pos 60 };
  spotify_max_tracks = pos 50;
  yandex_max_tracks = pos 50;
  soundcloud_max_tracks = pos 50;
  enabled = λ p. true;
  youtube_enabled = true;
  around = music;
  soundcloud = none;
  no_watermark = false;
  estimate = λ a b. pos 0;
  shorts = false;
  meta = none;
  qualities = [];
  quality = pos 1080;
}

abbrev locked : Memory
locked = set_text (lock_key main_bot (pos 5)) (some (codes "tiktok:t")) empty

abbrev sender : From
sender = record { user = pos 5; chat = pos 5; lang = codes "en" }

dispatch_link-held_example :
    ((dispatch_link server broker main_bot coding world sender
        (plain_link (codes "tiktok") (codes "u"))
        false
        locked
        nobody).0
      ≡ false)
    × ((dispatch_link server broker main_bot coding world sender
          (plain_link (codes "tiktok") (codes "u"))
          false
          locked
          nobody).3
        ≡ nobody)
dispatch_link-held_example =
    dispatch_link-held server broker main_bot coding world sender
      (plain_link (codes "tiktok") (codes "u")) (codes "tiktok:t") locked nobody
      (unfold eq_bytes in refl) (unfold is_admin in refl)
      (unfold lock_key key format_int eq_bytes in refl)

abbrev nothing_found : Expressions
nothing_found = record {
  pattern = λ n url. [];
  urls = λ text. [];
  spotify_uris = λ text. [];
  x_status = λ url. none;
  spotify_url = λ url. none;
  yandex_path = λ url. none;
}

abbrev surroundings : Surroundings
surroundings = record {
  admin_id = pos 1;
  expressions = nothing_found;
  hash = λ u. u;
  link_banned = λ h. none;
  window_sec = pos 300;
  lang = codes "en";
  typed = typed;
  world = λ link. world;
}

abbrev passes : Step server
passes = λ r. (false, [], r)

abbrev message : Message
message = record {
  sender = some (pos 5);
  chat = pos 5;
  is_private = true;
  text = codes "hi";
  caption = [];
  has_media = false;
}

abbrev banning : Memory
banning = (ban_user server (pos 5) empty).1

abbrev heard : List Reply × Memory × Lists
heard = on_text server broker main_bot coding surroundings passes passes message banning nobody
