-- ===== src/Tests/Tiktok.antt =====
-- The button of a carousel's pictures at a concrete server, broker and coding.
use saveinator.Prelude.{
  ◌≡◌, ◌≢◌, refl, ap, Bool, true, false, List, [], Bytes, none, some, codes, pos, eq_bytes,
}
use saveinator.Text.Split.{split}
use saveinator.Text.Decimal.{parse_int, magnitude, signed, format_int}
use saveinator.Queue.Asynq.{Request, pending}
use saveinator.Queue.Payload.{DownloadPayload, marshal_download, unmarshal_download}
use saveinator.Queue.Client.{enqueue_tiktok_carousel, enqueue, queue_download}
use saveinator.Redisx.Client.{Client, acquired, acquire_user_lock, lock_key, key, lock_value}
use saveinator.Tiktok.Carousel.{
  CarouselSession, Coding, session_key, parse_carousel_callback, save, get,
}
use saveinator.Tiktok.Carousel.RoundTrip.{get-save}
use saveinator.Handler.Enqueue.{is_admin, lock_ttl}
use saveinator.Handler.Reply.{Reply}
use saveinator.Handler.Music.{acquire}
use saveinator.Handler.Carousel.{scene, carousel_payload, on_tiktok_carousel}
use saveinator.Handler.Carousel.Asked.{Fetches, on_tiktok_carousel-asked}
use saveinator.Tests.Server.{Memory, server}
use saveinator.Tests.Broker.{Lists, broker}

abbrev main_bot : Client
main_bot = record { prefix = [] }

abbrev empty : Memory
empty = record { texts = λ k. none; sets = λ k. []; fields = λ k f. none }

abbrev nobody : Lists
nobody = record { running = λ q. []; held = λ w q. [] }

abbrev session : CarouselSession
session = record {
  user_id = pos 5;
  url = codes "u";
  chat_id = pos 5;
  lang = codes "en";
  title = [];
  author = [];
  token = codes "k";
}

-- a coding of this one session
abbrev coding : Coding
coding = record { marshal = λ s. some (codes "{}"); unmarshal = λ b. some session }

abbrev saved : Bool × Memory
saved = save server coding session empty

get-save_example :
    (codes "k" ≡ session.token → some session ≡ some session)
    × (codes "k" ≢ session.token → some session ≡ none)
get-save_example =
    get-save server coding session (codes "k") empty none (some session) (λ body h. refl)
      (unfold save in refl) (unfold get in refl) (unfold save get session_key eq_bytes in refl)

read_lem : parse_carousel_callback (codes "ttk:img:5:k") ≡ some (pos 5, codes "k")
unfolding parse_carousel_callback split eq_bytes parse_int magnitude signed
read_lem = refl

abbrev pressed : List Reply × Memory × Lists
pressed =
    on_tiktok_carousel server broker main_bot coding (pos 1) (pos 60) (pos 5) (codes "ttk:img:5:k")
      true (codes "t") false saved.1 nobody

changed_lem : pressed.2 ≢ nobody
unfolding on_tiktok_carousel parse_carousel_callback split eq_bytes parse_int magnitude signed save
    get session_key acquire is_admin acquire_user_lock lock_key key format_int lock_value enqueue
    enqueue_tiktok_carousel marshal_download carousel_payload
changed_lem e = absurd (cc (ap (λ (s : Lists). s.held pending queue_download) e))

on_tiktok_carousel-asked_example :
    (token : Bytes) × (s : CarouselSession) × (lock_token : Bytes) × (request : Request)
    × (q : DownloadPayload) × (parse_carousel_callback (codes "ttk:img:5:k") ≡ some (pos 5, token))
    × (get server coding token saved.1 ≡ some (some s))
    × (s.user_id ≡ pos 5)
    × ((acquire server broker main_bot
          (pos 1)
          (pos 5)
          scene
          (lock_ttl (pos 60))
          (codes "t")
          saved.1).0
        ≡ acquired lock_token)
    × (unmarshal_download request.payload ≡ some q)
    × Fetches s lock_token token false q
    × (pressed.2 ≡ (broker.submit request nobody).1)
on_tiktok_carousel-asked_example =
    on_tiktok_carousel-asked server broker main_bot coding (pos 1) (pos 60) (pos 5)
      (codes "ttk:img:5:k") (codes "t") true false saved.1 nobody changed_lem
