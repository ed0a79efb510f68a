-- ===== src/Linkparser/Sets.antt =====
-- What becomes of the links to SoundCloud sets.
use saveinator.Prelude.{
  ◌≡◌, refl, false, List, [], ◌∷◌, Option, none, some, Bytes, eq_bytes, is_empty, contains,
  Bool-cases, inl, inr, All,
}
use saveinator.Linkparser.{
  Expressions, ParsedLink, Pattern, Seen, link_of, is_soundcloud_set, match_patterns, patterns,
  trim_trailing, and_link, uri_link, uri_links, url_links, extract_urls, parse_spotify_url,
  parse_yandex_music_url, yandex_key, spotify, x_platform, yandex_music,
}

-- a link of SoundCloud is not one to a set
abbrev pub NoSet : ParsedLink → Type 0
NoSet link = is_soundcloud_set link.platform link.url ≡ false

abbrev pub NoSetIn : Option ParsedLink → Type 0
NoSetIn none = Unit
NoSetIn (some link) = NoSet link

module _ (E : Expressions) where
  link_of-NoSet :
      (platform m : Bytes) (seen : Seen)
      → is_soundcloud_set platform m ≡ false
      → NoSetIn (link_of E platform m seen).0
  unfolding link_of
  link_of-NoSet platform m seen h =
      let (id, typ) = parse_spotify_url E m in
      let (album, track) = parse_yandex_music_url E m in
      elim (Bool-cases (eq_bytes platform x_platform)) [
        | inl e ↦ rw (e, link_of) h
        | inr e ↦ elim (Bool-cases (eq_bytes platform spotify)) [
          | inl e1 ↦ elim (Bool-cases (is_empty id)) [
            | inl e2 ↦ rw (e, e1, e2, link_of) h
            | inr e2 ↦ elim (Bool-cases (contains seen.spotify id)) [
              | inl e3 ↦ rw (e, e1, e2, e3, link_of) tt
              | inr e3 ↦ rw (e, e1, e2, e3, link_of) h
            ]
          ]
          | inr e1 ↦ elim (Bool-cases (eq_bytes platform yandex_music)) [
            | inl e2 ↦ elim (Bool-cases (contains seen.yandex (yandex_key album track))) [
              | inl e3 ↦ rw (e, e1, e2, e3, link_of) tt
              | inr e3 ↦ rw (e, e1, e2, e3, link_of) h
            ]
            | inr e2 ↦ rw (e, e1, e2, link_of) h
          ]
        ]
      ]

  match_patterns-NoSet :
      (url : Bytes) (seen : Seen) (ps : List Pattern) → NoSetIn (match_patterns E url seen ps).0
  unfolding match_patterns is_soundcloud_set eq_bytes
  match_patterns-NoSet url seen [] = refl
  match_patterns-NoSet url seen (p ∷ ps) = elim (Bool-cases (is_empty (p.find url))) [
    | inl e ↦ rw (e, match_patterns) (match_patterns-NoSet url seen ps)
    | inr e ↦ elim (Bool-cases (is_soundcloud_set p.platform (p.find url))) [
      | inl e1 ↦ rw (e, e1, match_patterns) (match_patterns-NoSet url seen ps)
      | inr e1 ↦ rw (e, e1, match_patterns) (link_of-NoSet p.platform (p.find url) seen e1)
    ]
  ]

  uri_links-NoSet : (seen : Seen) (uris : List (Bytes × Bytes)) → All NoSet (uri_links seen uris)
  unfolding uri_links uri_link is_soundcloud_set eq_bytes
  uri_links-NoSet seen [] = tt
  uri_links-NoSet seen ((whole, id) ∷ uris) = elim (Bool-cases (contains seen.spotify id)) [
    | inl e ↦ rw (e, uri_links) (uri_links-NoSet seen uris)
    | inr e ↦ rw (e, uri_links) (refl, uri_links-NoSet _ uris)
  ]

  and_link-NoSet :
      (link : Option ParsedLink) (links : List ParsedLink)
      → NoSetIn link
      → All NoSet links
      → All NoSet (and_link link links)
  and_link-NoSet none links h all = all
  and_link-NoSet (some link) links h all = (h, all)

  url_links-NoSet :
      (raws : List Bytes) (seen : Seen) (uris : List (Bytes × Bytes))
      → All NoSet (url_links E seen raws uris)
  unfolding url_links
  url_links-NoSet [] seen uris = uri_links-NoSet seen uris
  url_links-NoSet (raw ∷ raws) seen uris =
      and_link-NoSet _ _ (match_patterns-NoSet (trim_trailing raw) seen (patterns E))
        (url_links-NoSet raws _ uris)

  -- Whatever the expressions find, no link that is extracted from a text as one of SoundCloud has
  -- "/sets/" in its URL: the links to its sets, which the patterns name, are never taken as such.
  pub extract_urls-NoSet : (text : Bytes) → All NoSet (extract_urls E text)
  unfolding extract_urls
  extract_urls-NoSet text = url_links-NoSet (E.urls text) _ (E.spotify_uris text)
