-- ===== src/Linkparser.antt =====
-- The links in a message: go/internal/linkparser/parser.go. What the regular expressions find, the
-- package `regexp`'s work, is an argument; the platforms that they stand for, their order and what is
-- made of their matches are modelled.
pub mod Fresh
pub mod Sets
use saveinator.Prelude.{
  ℕ, suc, Bool, true, false, ◌&&◌, ◌||◌, not, List, [], ◌∷◌, ◌++◌, Option, none, some, Bytes, codes,
  eq_bytes, is_empty, contains, ◌==◌, if◌then◌else◌,
}
use saveinator.Text.Search.{has_substring}
use saveinator.Text.Trim.{to_lower}

abbrev pub youtube : Bytes
youtube = codes "youtube"

abbrev pub tiktok : Bytes
tiktok = codes "tiktok"

abbrev pub x_platform : Bytes
x_platform = codes "x"

abbrev pub spotify : Bytes
spotify = codes "spotify"

abbrev pub soundcloud : Bytes
soundcloud = codes "soundcloud"

abbrev pub pinterest : Bytes
pinterest = codes "pinterest"

abbrev pub instagram : Bytes
instagram = codes "instagram"

abbrev pub yandex_music : Bytes
yandex_music = codes "yandexmusic"

abbrev pub twitch : Bytes
twitch = codes "twitch"

abbrev pub reddit : Bytes
reddit = codes "reddit"

abbrev pub unknown : Bytes
unknown = codes "unknown"

pub record ParsedLink : Type 0 where
  pub platform : Bytes
  pub url : Bytes
  pub x_status_id : Bytes
  pub spotify_id : Bytes
  pub spotify_typ : Bytes
  pub yandex_album_id : Bytes
  pub yandex_track_id : Bytes

-- What the expressions find: `FindString` of the patterns by their number, empty where there is no
-- match; the URLs of a text; the Spotify URIs of a text, each with its id; and the submatches of the
-- others.
pub record Expressions : Type 0 where
  pub pattern : ℕ → Bytes → Bytes
  pub urls : Bytes → List Bytes
  pub spotify_uris : Bytes → List (Bytes × Bytes)
  pub x_status : Bytes → Option Bytes
  pub spotify_url : Bytes → Option (Bytes × Bytes)
  pub yandex_path : Bytes → Option (Bytes × Bytes × Bytes)

pub record Pattern : Type 0 where
  pub platform : Bytes
  pub find : Bytes → Bytes

unfoldable pub patterns_from : Expressions → ℕ → List Bytes → List Pattern
patterns_from E n [] = []
patterns_from E n (p ∷ ps) =
    record { platform = p; find = E.pattern n } ∷ patterns_from E (suc n) ps

unfoldable pub patterns : Expressions → List Pattern
patterns E = patterns_from E 0 (
    youtube ∷ tiktok ∷ x_platform ∷ spotify ∷ yandex_music ∷ soundcloud ∷ soundcloud ∷ soundcloud
    ∷ soundcloud ∷ pinterest ∷ pinterest ∷ pinterest ∷ instagram ∷ instagram ∷ twitch ∷ twitch
    ∷ reddit ∷ reddit ∷ [])

abbrev pub plain_link : Bytes → Bytes → ParsedLink
plain_link platform url = record {
  platform = platform;
  url = url;
  x_status_id = [];
  spotify_id = [];
  spotify_typ = [];
  yandex_album_id = [];
  yandex_track_id = [];
}

-- `seenSpotify` and `seenYandex`
pub record Seen : Type 0 where
  pub spotify : List Bytes
  pub yandex : List Bytes

unfoldable pub parse_spotify_url : Expressions → Bytes → Bytes × Bytes
parse_spotify_url E url = elim (E.spotify_url url) [
  | none ↦ ([], [])
  | some (typ, id) ↦ (id, to_lower typ)
]

-- the album and the track
unfoldable pub parse_yandex_music_url : Expressions → Bytes → Bytes × Bytes
parse_yandex_music_url E url = elim (E.yandex_path url) [
  | none ↦ ([], [])
  | some (album, track, alone) ↦ if is_empty alone then (album, track) else (album, alone)
]

unfoldable pub extract_x_status_id : Expressions → Bytes → Bytes
extract_x_status_id E url = elim (E.x_status url) [ none ↦ [] | some id ↦ id ]

unfoldable pub yandex_key : Bytes → Bytes → Bytes
yandex_key album track = if is_empty track then codes "album:" ++ album else codes "track:" ++ track

-- The link of a match; none where its resource has been seen.
unfoldable pub link_of : Expressions → Bytes → Bytes → Seen → Option ParsedLink × Seen
link_of E platform m seen =
    if eq_bytes platform x_platform
    then (some (record (plain_link platform m) { x_status_id = extract_x_status_id E m }), seen)
    else if eq_bytes platform spotify
    then (let (id, typ) = parse_spotify_url E m in
        if is_empty id
        then (some (plain_link platform m), seen)
        else if contains seen.spotify id
        then (none, seen)
        else (
          some (record (plain_link platform m) { spotify_id = id; spotify_typ = typ }),
          record seen { spotify = id ∷ seen.spotify },
        ))
    else if eq_bytes platform yandex_music
    then (let (album, track) = parse_yandex_music_url E m in
        if contains seen.yandex (yandex_key album track) then (none, seen) else (
          some
              (record (plain_link platform m) { yandex_album_id = album; yandex_track_id = track }),
          record seen { yandex = yandex_key album track ∷ seen.yandex },
        ))
    else (some (plain_link platform m), seen)

-- the guard that passes over a match
unfoldable pub is_soundcloud_set : Bytes → Bytes → Bool
is_soundcloud_set platform m =
    eq_bytes platform soundcloud && has_substring (to_lower m) (codes "/sets/")

-- The loop over the patterns; an unmatched URL is of the unknown platform.
unfoldable pub match_patterns : Expressions → Bytes → Seen → List Pattern → Option ParsedLink × Seen
match_patterns E url seen [] = (some (plain_link unknown url), seen)
match_patterns E url seen (p ∷ ps) =
    let rest = match_patterns E url seen ps in
    let m = p.find url in
    if is_empty m
    then rest
    else if is_soundcloud_set p.platform m
    then rest
    else link_of E p.platform m seen

abbrev pub is_trailing : ℕ → Bool
is_trailing c =
    c == b'.'
    || c == b','
    || c == b';'
    || c == b':'
    || c == b'!'
    || c == b'?'
    || c == b')'
    || c == b']'
    || c == b'}'

-- `strings.TrimRight(raw, ".,;:!?)]}")`
unfoldable pub trim_trailing : Bytes → Bytes
trim_trailing [] = []
trim_trailing (c ∷ s) =
    let rest = trim_trailing s in if is_empty rest && is_trailing c then [] else c ∷ rest

abbrev pub and_link : Option ParsedLink → List ParsedLink → List ParsedLink
and_link none links = links
and_link (some link) links = link ∷ links

unfoldable pub uri_link : Bytes → Bytes → ParsedLink
uri_link whole id = record (plain_link spotify whole) {
  spotify_id = id;
  spotify_typ =
      if has_substring (to_lower whole) (codes "album") then codes "album" else codes "track";
}

-- the loop over the Spotify URIs
unfoldable pub uri_links : Seen → List (Bytes × Bytes) → List ParsedLink
uri_links seen [] = []
uri_links seen ((whole, id) ∷ uris) =
    let again = uri_links seen uris in
    let fresh = uri_links (record seen { spotify = id ∷ seen.spotify }) uris in
    if contains seen.spotify id then again else uri_link whole id ∷ fresh

-- the loop over the URLs, with the one over the URIs behind it
unfoldable pub url_links : Expressions → Seen → List Bytes → List (Bytes × Bytes) → List ParsedLink
url_links E seen [] uris = uri_links seen uris
url_links E seen (raw ∷ raws) uris =
    let (link, seen') = match_patterns E (trim_trailing raw) seen (patterns E) in
    and_link link (url_links E seen' raws uris)

unfoldable pub extract_urls : Expressions → Bytes → List ParsedLink
extract_urls E text =
    url_links E (record { spotify = []; yandex = [] }) (E.urls text) (E.spotify_uris text)
