-- ===== src/Lib.antt =====
-- Verification of saveinator, Telegram bots that download media (the Go program under go/).
--
-- The program. A bot's handlers read messages and button presses, take a lock for the user on a Redis
-- server and queue a task; workers run the tasks, ask whether the download has been cancelled, and
-- release the lock. Administrators change settings at run time, which live in a hash on the server, and
-- watch the bots on a dashboard behind a Telegram login.
--
-- The parts and their files. Paths below are under go/internal; a definition has the name of the Go
-- function or type it models, in small letters with underscores for functions.
--   Prelude, Text, Float64, Sorting: what all parts share: lists and strings as bytes, signed integers,
--     splitting, decimal numbers, trimming, float64 as a bit pattern, sorted order.
--   Callback.Cancel (cancel/keyboard.go), Callback.Translate (telegraph/callback.go): the payloads of
--     buttons.
--   Queue.Payload and Queue.Client (queue/client.go): task payloads with their JSON fields, and the
--     requests that every enqueue operation makes. Queue.Clear (queue/clear.go): whose task it is, and
--     the clearing of a user's tasks. Queue.Asynq: the task broker as an interface.
--   Redis: the server as an interface. Redisx.Client (redisx/client.go): locks, cancel flags and
--     deduplication; Redisx.Keys, Redisx.Lock and Redisx.Trace prove its properties, the last over all
--     interleavings of calls. Redisx.Bans (redisx/bans.go): banned users.
--   Runtime.Setting, Runtime.Registry (runtime/registry.go), Runtime.Config (config/config.go),
--     Runtime.Lookup (runtime/registry.go), Runtime.Check, Runtime.Default and Runtime.Store
--     (runtime/store.go, redisx/runtime.go), Runtime.Platform (runtime/helpers.go): the settings.
--     Runtime.Config.Load (config/config.go): the configuration's loading.
--   Linkparser (linkparser/parser.go): the links that are made of the expressions' matches.
--   Handler.Incoming (handler/routing.go, handler/spam.go, handler/ban.go) with its children Dispatch and
--     Text (handler/bot.go): a message's way through the checks to the handler of each of its links.
--   Handler.Enqueue (handler/bot.go, handler/deps.go, handler/ban.go), Handler.Music (handler/music.go),
--     Handler.Youtube (handler/youtube.go), Handler.Carousel (handler/tiktok_carousel.go),
--     Handler.Cancel (handler/cancel.go), Handler.Clear (handler/clear.go, botkit/clear.go): the handlers.
--     Handler.Reply: what they tell Telegram.
--   Worker.Broadcast (worker/broadcast.go): the loop over the recipients of a broadcast.
--   Worker.Task (worker/download.go), Worker.Tiktok (worker/tiktok.go), Worker.Instagram
--     (worker/instagram.go), Worker.Pinterest and Worker.Download (worker/download.go): the download
--     tasks; Worker.Reports and Worker.Released prove what they leave behind. Ytdlp.Media
--     (ytdlp/downloader.go): the files of a download.
--   Ytdlp.Errors (ytdlp/errors.go, worker/user_error.go): the classes of download errors.
--   Dash.Sessions, Dash.Auth, Dash.Server (dash/auth.go, dash/server.go): sessions and logins.
--   Youtube.Formats (youtube/probe.go), Youtube.Card (youtube/keyboards.go), Youtube.Session
--     (youtube/session.go): the format card and its session.
--   Tiktok.Carousel (tiktok/keyboard.go, tiktok/session.go): the button of a carousel and its session.
--   Tests: concrete instances of the interfaces, runs, and the theorems at concrete inputs.
--
-- State. The server's and the broker's states are abstract; an operation takes the state and returns
-- the new one with its reply, an error being a reply of its own. A handler's messages to Telegram are
-- named by their locale keys. Random tokens, the clock, and the answers of Telegram, of the music
-- services, of the downloaders and of the database are arguments. SHA-256 and HMAC, the encoding of a
-- session in JSON, the matches of regular expressions, and the float arithmetic that estimates a
-- file's size, are parameters of the definitions that use them.
--
-- Numbers. int and int64 are signed integers with IsInt64 as their range where it matters; sums that
-- can overflow wrap around in the definition. Loops are structural recursions; the one with fuel, the
-- exchange sort of redisx/bans.go, has a round for every element, which its theorem shows to be enough.
--
-- Limits. The theorems on locks speak of interleavings in which no time to live runs out. Strings are
-- bytes, and trimming and lower case are those of ASCII. A text is written into a server key as it is,
-- so that theorems on keys ask that scenario and token hold no colon. A text in a task's body is
-- written as encoding/json writes it, its invalid UTF-8 replaced (Text.Utf8); the text of the JSON
-- object around it is not modelled.
--
-- Not modelled: the database, uploads, the external programs and HTTP clients of the platforms, page
-- scraping, display text and metrics, which are input and output; rate limits and activity counters;
-- the workers' other downloads, the TikTok downloader, the handlers of payments and administration, and
-- the fleet's start-up.
pub mod Prelude
pub mod Text
pub mod Callback
pub mod Float64
pub mod Sorting
pub mod Queue
pub mod Redis
pub mod Redisx
pub mod Runtime
pub mod Handler
pub mod Dash
pub mod Youtube
pub mod Tiktok
pub mod Worker
pub mod Ytdlp
pub mod Linkparser
pub mod Tests
