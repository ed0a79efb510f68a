-- ===== src/Tests/Links.antt =====
-- The links of a message, the filter of groups and the dispatch at concrete inputs.
use saveinator.Prelude.{
  ◌≡◌, ◌≢◌, ◌≤◌, refl, Bool, true, false, [], ◌∷◌, ◌++◌, none, some, arith, Bytes, codes, pos,
  eq_bytes, eq_bytes_iff, contains, All, length, ◌==◌, if◌then◌else◌,
}
use saveinator.Text.Search.{has_prefix, has_substring}
use saveinator.Text.Trim.{to_lower}
use saveinator.Linkparser.{
  Expressions, ParsedLink, plain_link, extract_urls, url_links, match_patterns, patterns,
  patterns_from, is_soundcloud_set, trim_trailing, uri_links, uri_link,
}
use saveinator.Linkparser.Sets.{NoSet, extract_urls-NoSet}
use saveinator.Linkparser.Fresh.{Fresh, extract_urls-Fresh}
use saveinator.Redisx.Client.{Client, dedup_key, allow_url_dedup, key}
use saveinator.Handler.Incoming.{
  Message, message_body, extract_message_links, spam_window, allow_group_links,
}
use saveinator.Handler.Incoming.Spam.{allow_group_links-marks}
use saveinator.Tests.Server.{Memory, server, set_text}

abbrev main_bot : Client
main_bot = record { prefix = [] }

abbrev empty : Memory
empty = record { texts = λ k. none; sets = λ k. []; fields = λ k f. none }

-- Expressions that find one URL in every text, as the first pattern of SoundCloud.
abbrev one_url : Expressions
one_url = record {
  pattern = λ n url. if n == 5 then url else [];
  urls = λ text. text ∷ [];
  spotify_uris =
      λ text. (codes "spotify:album:7", codes "7") ∷ (codes "spotify:track:7", codes "7") ∷ [];
  x_status = λ url. none;
  spotify_url = λ url. none;
  yandex_path = λ url. none;
}

abbrev set_url : Bytes
set_url = codes "https://soundcloud.com/a/sets/b"

-- a set is of the unknown platform
set_unknown :
    extract_urls one_url set_url
    ≡ plain_link (codes "unknown") set_url ∷ uri_link (codes "spotify:album:7") (codes "7") ∷ []
unfolding extract_urls url_links match_patterns patterns patterns_from is_soundcloud_set
    trim_trailing uri_links to_lower has_substring has_prefix eq_bytes contains
set_unknown = refl

extract_urls-NoSet_example : All NoSet (extract_urls one_url set_url)
extract_urls-NoSet_example = extract_urls-NoSet one_url set_url

extract_urls-Fresh_example : Fresh [] (extract_urls one_url set_url)
extract_urls-Fresh_example = extract_urls-Fresh one_url set_url

-- Two links in the message "x", and the first of them in every other.
abbrev two_urls : Expressions
two_urls = record {
  pattern = λ n url. [];
  urls = λ text. if eq_bytes text (codes "x") then codes "n" ∷ codes "o" ∷ [] else codes "n" ∷ [];
  spotify_uris = λ text. [];
  x_status = λ url. none;
  spotify_url = λ url. none;
  yandex_path = λ url. none;
}

abbrev padded : Bytes → Bytes
padded u = u ++ codes "000000000000"

padded_long : (u : Bytes) → 12 ≤ length (padded u)
padded_long [] = omega arith
padded_long (b ∷ u) = omega (arith, padded_long u)

abbrev in_group : Bytes → Message
in_group text = record {
  sender = some (pos 5);
  chat = pos 6;
  is_private = false;
  text = text;
  caption = [];
  has_media = false;
}

abbrev old_key : Bytes
old_key = dedup_key main_bot (padded (codes "o"))

abbrev before : Memory
before = set_text old_key (some (codes "1")) empty

answers :
    (h : Bytes) (s : Memory) → (allow_url_dedup server main_bot h (spam_window (pos 60)) s).0 ≢ none
unfolding allow_url_dedup
answers h s e = ground (arith, e)

abbrev unknown_link : Bytes → ParsedLink
unknown_link = plain_link (codes "unknown")

two_links :
    extract_message_links two_urls (in_group (codes "x"))
    ≡ unknown_link (codes "n") ∷ unknown_link (codes "o") ∷ []
unfolding extract_message_links message_body extract_urls url_links match_patterns patterns
    patterns_from trim_trailing uri_links eq_bytes
two_links = refl

one_link : extract_message_links two_urls (in_group (codes "y")) ≡ unknown_link (codes "n") ∷ []
unfolding extract_message_links message_body extract_urls url_links match_patterns patterns
    patterns_from trim_trailing uri_links eq_bytes
one_link = refl

keys_apart : dedup_key main_bot (padded (codes "o")) ≢ dedup_key main_bot (padded (codes "n"))
unfolding dedup_key key eq_bytes
keys_apart e =
    let h : false ≡ true =
      (eq_bytes_iff (dedup_key main_bot (padded (codes "o")))
          (dedup_key main_bot (padded (codes "n")))).1
        e in
    cc h

abbrev first_pass : Bool × Memory
first_pass =
    allow_group_links server main_bot padded (λ h. some false) two_urls (pos 60)
      (in_group (codes "x")) before

allow_group_links-marks_example :
    (first_pass.0 ≡ false)
    × ((allow_group_links server main_bot padded
          (λ h. some false)
          two_urls
          (pos 60)
          (in_group (codes "y"))
          first_pass.1).0
        ≡ false)
allow_group_links-marks_example =
    allow_group_links-marks server main_bot padded (λ h. some false) two_urls (pos 60)
      (in_group (codes "x")) (in_group (codes "y")) (unknown_link (codes "n"))
      (unknown_link (codes "o")) [] [] (codes "1") before refl refl (unfold message_body in refl)
      (unfold message_body in refl) two_links one_link padded_long refl keys_apart
      (unfold dedup_key key eq_bytes in refl) (unfold dedup_key key eq_bytes in refl) answers
