-- ===== src/Handler/Incoming/Text.antt =====
-- `onText` of go/internal/handler/bot.go: the checks in their order, then every link. An administrator's
-- pending state and the rate limit, which work on the same server, are arguments.
use saveinator.Prelude.{
  ◌≡◌, ◌≢◌, refl, ap, Bool, true, false, not, List, [], ◌∷◌, ◌++◌, Option, none, some, Bytes,
  length, ltb, ℤ, Bool-cases, inl, inr, if◌then◌else◌,
}
use saveinator.Linkparser.{ParsedLink, Expressions}
use saveinator.Queue.Asynq.{Asynq}
use saveinator.Redis.{Redis}
use saveinator.Redisx.Client.{Client}
use saveinator.Redisx.Bans.{is_user_banned}
use saveinator.Youtube.Session.{Coding}
use saveinator.Handler.Reply.{Reply}
use saveinator.Handler.Enqueue.{is_admin}
use saveinator.Handler.Music.Links.{From}
use saveinator.Handler.Youtube.Flow.{Typed, handle_youtube_trim_input}
use saveinator.Handler.Incoming.{
  Message, should_skip_incoming_message, extract_message_links, check_banned, allow_group_links,
}
use saveinator.Handler.Incoming.Dispatch.{World, dispatch_link}

-- A step that may stop a message, with what it sends and the server behind it.
abbrev pub Step : Redis → Type 0
Step R = R.State → Bool × List Reply × R.State

-- What `onText` reads around a message: the expressions, the hash of a URL, the banned links, the
-- window of the group filter, the sender's language, the message as a range, and a link's world.
pub record Surroundings : Type 0 where
  pub admin_id : ℤ
  pub expressions : Expressions
  pub hash : Bytes → Bytes
  pub link_banned : Bytes → Option Bool
  pub window_sec : ℤ
  pub lang : Bytes
  pub typed : Typed
  pub world : ParsedLink → World

module _ (R : Redis) (A : Asynq) (c : Client) (J : Coding) (e : Surroundings)
    (admin_fsm rate_limit : Step R) where
  unfoldable pub dispatch_links :
      From → Bool → List ParsedLink → R.State → A.State → List Reply × R.State × A.State
  dispatch_links m batch [] r a = ([], r, a)
  dispatch_links m batch (link ∷ links) r a =
      let (queued, told, r', a') = dispatch_link R A c J (e.world link) m link batch r a in
      let (more, r'', a'') = dispatch_links m batch links r' a' in (told ++ more, r'', a'')

  -- behind the checks
  unfoldable pub on_links : From → Message → R.State → A.State → List Reply × R.State × A.State
  on_links m msg r a =
      let links = extract_message_links e.expressions msg in
      dispatch_links m (ltb 1 (length links)) links r a

  -- behind the filter of groups
  unfoldable pub on_allowed : From → Message → R.State → A.State → List Reply × R.State × A.State
  on_allowed m msg r a =
      let (stopped, told, r1) = admin_fsm r in
      let (consumed, answered, r2) = handle_youtube_trim_input R A J m.user e.typed r1 in
      let (limited, refused, r3) = rate_limit r2 in
      let (sent, r4, a4) = on_links m msg r3 a in
      if stopped
      then (told, r1, a)
      else if consumed
      then (told ++ answered, r2, a)
      else if limited
      then (told ++ (answered ++ refused), r3, a)
      else (told ++ (answered ++ (refused ++ sent)), r4, a4)

  -- the checks, by the message's sender
  unfoldable pub on_text_from :
      Option ℤ → Message → R.State → A.State → List Reply × R.State × A.State
  on_text_from none msg r a = ([], r, a)
  on_text_from (some user) msg r a =
      let (banned, notices) = check_banned R c e.admin_id user msg r in
      let (allowed, r') =
        allow_group_links R c e.hash e.link_banned e.expressions e.window_sec msg r in
      let m : From = record { user = user; chat = msg.chat; lang = e.lang } in
      let behind = on_allowed m msg r' a in
      if should_skip_incoming_message msg
      then ([], r, a)
      else if banned
      then (notices, r, a)
      else if not allowed
      then ([], r', a)
      else behind

  unfoldable pub on_text : Message → R.State → A.State → List Reply × R.State × A.State
  on_text msg = on_text_from msg.sender msg

  check_banned-told :
      (user : ℤ) (msg : Message) (r : R.State)
      → is_admin e.admin_id user ≡ false
      → is_user_banned R user r ≡ some true
      → ((check_banned R c e.admin_id user msg r).0 ≡ true)
        × ((check_banned R c e.admin_id user msg r).1 ≢ [])
  unfolding check_banned
  check_banned-told user msg r plain banned = rw (plain, banned, check_banned) (refl, λ p. cc)

  from_banned :
      (user : ℤ) (msg : Message) (r : R.State) (a : A.State)
      → is_admin e.admin_id user ≡ false
      → is_user_banned R user r ≡ some true
      → ((on_text_from (some user) msg r a).1 ≡ r)
        × ((on_text_from (some user) msg r a).2 ≡ a)
        × (should_skip_incoming_message msg ≡ false → (on_text_from (some user) msg r a).0 ≢ [])
  unfolding on_text_from
  from_banned user msg r a plain banned =
      let (stops, told) = check_banned-told user msg r plain banned in
      elim (Bool-cases (should_skip_incoming_message msg)) [
        | inl s ↦ rw (s, on_text_from) (refl, refl, λ p. cc)
        | inr s ↦ rw (s, stops, on_text_from) (refl, refl, λ p. told)
      ]

  -- A message of a banned user who is no administrator changes neither the server nor the broker's
  -- state, whatever it holds; and if it is not passed over as a command or an empty text, something is
  -- answered.
  pub on_text-banned :
      (user : ℤ) (msg : Message) (r : R.State) (a : A.State)
      → msg.sender ≡ some user
      → is_admin e.admin_id user ≡ false
      → is_user_banned R user r ≡ some true
      → ((on_text msg r a).1 ≡ r)
        × ((on_text msg r a).2 ≡ a)
        × (should_skip_incoming_message msg ≡ false → (on_text msg r a).0 ≢ [])
  unfolding on_text
  on_text-banned user msg r a from plain banned =
      rw (ap (λ o. on_text_from o msg r a) from) (from_banned user msg r a plain banned)
