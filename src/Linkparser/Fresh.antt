-- ===== src/Linkparser/Fresh.antt =====
-- No resource of Spotify is taken twice from one message.
use saveinator.Prelude.{
  ◌≡◌, false, List, [], ◌∷◌, Option, arith, Bytes, eq_bytes, is_empty, contains, Bool-cases, inl,
  inr, if◌then◌else◌,
}
use saveinator.Linkparser.{
  Expressions, ParsedLink, Pattern, Seen, link_of, is_soundcloud_set, match_patterns, patterns,
  trim_trailing, and_link, uri_link, uri_links, url_links, extract_urls, parse_spotify_url,
  parse_yandex_music_url, yandex_key, spotify, x_platform, yandex_music,
}

-- an id that is not empty, in front of those seen
abbrev pub add_id : Bytes → List Bytes → List Bytes
add_id id seen = if is_empty id then seen else id ∷ seen

-- Every link's Spotify id is none of `seen` nor of the links before it; an empty id is passed over.
abbrev pub Fresh : List Bytes → List ParsedLink → Type 0
Fresh seen [] = Unit
Fresh seen (link ∷ links) =
    (is_empty link.spotify_id ≡ false → contains seen link.spotify_id ≡ false)
    × Fresh (add_id link.spotify_id seen) links

Fresh-weaken :
    (links : List ParsedLink) (s t : List Bytes)
    → ((id : Bytes) → contains s id ≡ false → contains t id ≡ false)
    → Fresh s links
    → Fresh t links
unfolding contains
Fresh-weaken [] s t sub h = tt
Fresh-weaken (link ∷ links) s t sub (now, later) =
    let id = link.spotify_id in
    (
      (λ p. sub id (now p)),
      elim (Bool-cases (is_empty id)) [
        | inl e ↦ rw e (Fresh-weaken links s t sub (rw e at later))
        | inr e ↦
            rw e (
              Fresh-weaken links (id ∷ s) (id ∷ t) (λ x q. ground (arith, sub x, q))
                (rw e at later))
      ],
    )

Fresh-add_id :
    (id : Bytes) (seen : List Bytes) (links : List ParsedLink)
    → Fresh (id ∷ seen) links
    → Fresh (add_id id seen) links
unfolding contains
Fresh-add_id [] seen links h = Fresh-weaken links ([] ∷ seen) seen (λ x q. ground (arith, q)) h
Fresh-add_id (b ∷ id) seen links h = h

module _ (E : Expressions) where
  -- what a step gives in front of links that are fresh for its state
  abbrev Step : Seen → Option ParsedLink × Seen → Type 0
  Step seen out =
      (links : List ParsedLink)
      → Fresh out.1.spotify links
      → Fresh seen.spotify (and_link out.0 links)

  link_of-Step : (platform m : Bytes) (seen : Seen) → Step seen (link_of E platform m seen)
  unfolding link_of
  link_of-Step platform m seen links h =
      let (id, typ) = parse_spotify_url E m in
      let (album, track) = parse_yandex_music_url E m in
      elim (Bool-cases (eq_bytes platform x_platform)) [
        | inl e ↦ rw (e, link_of) ((λ p. cc), (rw (e, link_of) at h))
        | inr e ↦ elim (Bool-cases (eq_bytes platform spotify)) [
          | inl e1 ↦ elim (Bool-cases (is_empty id)) [
            | inl e2 ↦ rw (e, e1, e2, link_of) ((λ p. cc), (rw (e, e1, e2, link_of) at h))
            | inr e2 ↦ elim (Bool-cases (contains seen.spotify id)) [
              | inl e3 ↦ rw (e, e1, e2, e3, link_of) (rw (e, e1, e2, e3, link_of) at h)
              | inr e3 ↦
                  rw (e, e1, e2, e3, link_of) ((λ p. e3), rw e2 (rw (e, e1, e2, e3, link_of) at h))
            ]
          ]
          | inr e1 ↦ elim (Bool-cases (eq_bytes platform yandex_music)) [
            | inl e2 ↦ elim (Bool-cases (contains seen.yandex (yandex_key album track))) [
              | inl e3 ↦ rw (e, e1, e2, e3, link_of) (rw (e, e1, e2, e3, link_of) at h)
              | inr e3 ↦ rw (e, e1, e2, e3, link_of) ((λ p. cc), (rw (e, e1, e2, e3, link_of) at h))
            ]
            | inr e2 ↦ rw (e, e1, e2, link_of) ((λ p. cc), (rw (e, e1, e2, link_of) at h))
          ]
        ]
      ]

  match_patterns-Step :
      (url : Bytes) (seen : Seen) (ps : List Pattern) → Step seen (match_patterns E url seen ps)
  unfolding match_patterns
  match_patterns-Step url seen [] links h = ((λ p. cc), h)
  match_patterns-Step url seen (p ∷ ps) links h = elim (Bool-cases (is_empty (p.find url))) [
    | inl e ↦
        rw (e, match_patterns) (match_patterns-Step url seen ps links (rw (e, match_patterns) at h))
    | inr e ↦ elim (Bool-cases (is_soundcloud_set p.platform (p.find url))) [
      | inl e1 ↦
          rw (e, e1, match_patterns)
            (match_patterns-Step url seen ps links (rw (e, e1, match_patterns) at h))
      | inr e1 ↦
          rw (e, e1, match_patterns)
            (link_of-Step p.platform (p.find url) seen links (rw (e, e1, match_patterns) at h))
    ]
  ]

  uri_links-Fresh :
      (uris : List (Bytes × Bytes)) (seen : Seen) → Fresh seen.spotify (uri_links seen uris)
  unfolding uri_links uri_link
  uri_links-Fresh [] seen = tt
  uri_links-Fresh ((whole, id) ∷ uris) seen = elim (Bool-cases (contains seen.spotify id)) [
    | inl e ↦ rw (e, uri_links) (uri_links-Fresh uris seen)
    | inr e ↦
        let rest = uri_links-Fresh uris (record seen { spotify = id ∷ seen.spotify }) in
        rw (e, uri_links) ((λ p. e), Fresh-add_id id seen.spotify _ rest)
  ]

  url_links-Fresh :
      (raws : List Bytes) (seen : Seen) (uris : List (Bytes × Bytes))
      → Fresh seen.spotify (url_links E seen raws uris)
  unfolding url_links
  url_links-Fresh [] seen uris = uri_links-Fresh uris seen
  url_links-Fresh (raw ∷ raws) seen uris =
      match_patterns-Step (trim_trailing raw) seen (patterns E) _ (url_links-Fresh raws _ uris)

  -- Whatever the expressions find, no two links that are extracted from one text have the same Spotify
  -- id, as far as it is not empty.
  pub extract_urls-Fresh : (text : Bytes) → Fresh [] (extract_urls E text)
  unfolding extract_urls
  extract_urls-Fresh text = url_links-Fresh (E.urls text) _ (E.spotify_uris text)
