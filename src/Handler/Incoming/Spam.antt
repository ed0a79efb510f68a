-- ===== src/Handler/Incoming/Spam.antt =====
-- Repeated and banned links in groups.
use saveinator.Prelude.{
  ℕ, zero, suc, ◌<◌, ◌≤◌, ◌≡◌, ◌≢◌, ap, ◌∙◌, Bool, true, false, ◌||◌, List, ◌∷◌, Option, none, some,
  arith, Bytes, codes, ℤ, pos, negsuc, length, ltb, is_empty, Bool-cases, Option-cases, inl, inr,
}
use saveinator.Linkparser.{ParsedLink, Expressions}
use saveinator.Redis.{Redis}
use saveinator.Redisx.Client.{Client, dedup_key, allow_url_dedup}
use saveinator.Handler.Incoming.{
  Message, message_body, extract_message_links, spam_window, group_links, allow_group_links,
}

spam_window-positive : (n : ℤ) → 0 < spam_window n
unfolding spam_window
spam_window-positive (pos zero) = omega arith
spam_window-positive (pos (suc n)) = omega arith
spam_window-positive (negsuc n) = omega arith

module _ (R : Redis) (c : Client) where
  dedup_long :
      (h : Bytes) (window : ℕ) (r : R.State)
      → 12 ≤ length h
      → allow_url_dedup R c h window r ≡ R.setnx (dedup_key c h) (codes "1") window r
  unfolding allow_url_dedup
  dedup_long h window r long =
      let short : ltb (length h) 12 ≡ false = ground (arith, long) in rw (short, allow_url_dedup)

  -- what an answered deduplication does
  dedup_taken :
      (h : Bytes) (window : ℕ) (v : Bytes) (r : R.State)
      → 12 ≤ length h
      → R.text (dedup_key c h) r ≡ some v
      → (allow_url_dedup R c h window r).0 ≢ none
      → allow_url_dedup R c h window r ≡ (some false, r)
  dedup_taken h window v r long held answered =
      let step = dedup_long h window r long in
      let k = dedup_key c h in
      step ∙ elim (Option-cases (R.setnx k (codes "1") window r).0) [
        | inl e ↦ absurd (answered (ap (λ p. p.0) step ∙ e))
        | inr (b, e) ↦ elim (Bool-cases b) [
          | inl y ↦ absurd (cc (held, (R.setnx_new k (codes "1") window r (rw y at e)).0))
          | inr n ↦ cc (e, n, (R.setnx_taken k (codes "1") window r (rw n at e)).1)
        ]
      ]

  dedup_new :
      (h : Bytes) (window : ℕ) (r : R.State)
      → 12 ≤ length h
      → R.text (dedup_key c h) r ≡ none
      → (allow_url_dedup R c h window r).0 ≢ none
      → allow_url_dedup R c h window r ≡ (some true, R.stored (dedup_key c h) (codes "1") window r)
  dedup_new h window r long free answered =
      let step = dedup_long h window r long in
      let k = dedup_key c h in
      step ∙ elim (Option-cases (R.setnx k (codes "1") window r).0) [
        | inl e ↦ absurd (answered (ap (λ p. p.0) step ∙ e))
        | inr (b, e) ↦ elim (Bool-cases b) [
          | inl y ↦ cc (e, y, (R.setnx_new k (codes "1") window r (rw y at e)).1)
          | inr n ↦ absurd ((R.setnx_taken k (codes "1") window r (rw n at e)).0 free)
        ]
      ]

  module _ (hash : Bytes → Bytes) (link_banned : Bytes → Option Bool) (window : ℕ) where
    -- a link that is on the server stops the loop
    group_links_seen :
        (link : ParsedLink) (links : List ParsedLink) (v : Bytes) (r : R.State)
        → 12 ≤ length (hash link.url)
        → R.text (dedup_key c (hash link.url)) r ≡ some v
        → (allow_url_dedup R c (hash link.url) window r).0 ≢ none
        → group_links R c hash link_banned window (link ∷ links) r ≡ (false, r)
    unfolding group_links
    group_links_seen link links v r long held answered =
        let step = dedup_taken (hash link.url) window v r long held answered in
        elim (Option-cases (link_banned (hash link.url))) [
          | inl e ↦ rw (e, ap (λ p. p.0) step, group_links) (ap (λ p. (false, p.1)) step)
          | inr (b, e) ↦ elim (Bool-cases b) [
            | inl y ↦ rw (e, y, group_links)
            | inr n ↦ rw (e, n, ap (λ p. p.0) step, group_links) (ap (λ p. (false, p.1)) step)
          ]
        ]

    -- a link that is neither banned nor on the server is put there
    group_links_new :
        (link : ParsedLink) (links : List ParsedLink) (r : R.State)
        → 12 ≤ length (hash link.url)
        → link_banned (hash link.url) ≡ some false
        → R.text (dedup_key c (hash link.url)) r ≡ none
        → (allow_url_dedup R c (hash link.url) window r).0 ≢ none
        → group_links R c hash link_banned window (link ∷ links) r
          ≡ group_links R c hash link_banned window links
              (R.stored (dedup_key c (hash link.url)) (codes "1") window r)
    unfolding group_links
    group_links_new link links r long ok free answered =
        let step = dedup_new (hash link.url) window r long free answered in
        rw (ok, ap (λ p. p.0) step, group_links)
          (ap (λ p. group_links R c hash link_banned window links p.1) step)

  module _ (hash : Bytes → Bytes) (link_banned : Bytes → Option Bool) (E : Expressions)
      (window_sec : ℤ) where
    -- In a group, a message whose first link has been taken within the window is dropped, and the
    -- server stays as it is, where the server answers the check.
    pub allow_group_links-seen :
        (m : Message) (link : ParsedLink) (links : List ParsedLink) (v : Bytes) (r : R.State)
        → m.is_private ≡ false
        → is_empty (message_body m) ≡ false
        → extract_message_links E m ≡ link ∷ links
        → 12 ≤ length (hash link.url)
        → R.text (dedup_key c (hash link.url)) r ≡ some v
        → (allow_url_dedup R c (hash link.url) (spam_window window_sec) r).0 ≢ none
        → allow_group_links R c hash link_banned E window_sec m r ≡ (false, r)
    unfolding allow_group_links
    allow_group_links-seen m link links v r group body read long held answered =
        let checked : (m.is_private || is_empty (message_body m)) ≡ false =
          ground (arith, group, body) in
        rw (checked, read, allow_group_links)
          (group_links_seen hash link_banned (spam_window window_sec) link links v r long held
            answered)

    -- In a group, a message with a new link in front of one that has been taken is dropped, but the
    -- new link counts as taken from then on: where the server answers, it is marked, although nothing
    -- was made of it, and a message that begins with it is dropped too.
    pub allow_group_links-marks :
        (m again : Message) (new old : ParsedLink) (links rest : List ParsedLink) (v : Bytes)
        (r : R.State)
        → m.is_private ≡ false
        → again.is_private ≡ false
        → is_empty (message_body m) ≡ false
        → is_empty (message_body again) ≡ false
        → extract_message_links E m ≡ new ∷ old ∷ links
        → extract_message_links E again ≡ new ∷ rest
        → ((u : Bytes) → 12 ≤ length (hash u))
        → link_banned (hash new.url) ≡ some false
        → dedup_key c (hash old.url) ≢ dedup_key c (hash new.url)
        → R.text (dedup_key c (hash new.url)) r ≡ none
        → R.text (dedup_key c (hash old.url)) r ≡ some v
        → ((h : Bytes) (s : R.State) → (allow_url_dedup R c h (spam_window window_sec) s).0 ≢ none)
        → ((allow_group_links R c hash link_banned E window_sec m r).0 ≡ false)
          × ((allow_group_links R c hash link_banned E window_sec again
                (allow_group_links R c hash link_banned E window_sec m r).1).0
              ≡ false)
    unfolding allow_group_links
    allow_group_links-marks m again new old links rest v r g g' b b' read read' long ok apart free
          held answers =
        let checked : (m.is_private || is_empty (message_body m)) ≡ false = ground (arith, g, b) in
        let window = spam_window window_sec in
        let k = dedup_key c (hash new.url) in
        let r' = R.stored k (codes "1") window r in
        let first : allow_group_links R c hash link_banned E window_sec m r ≡ (false, r') =
          rw (checked, read, allow_group_links)
            (group_links_new hash link_banned window new (old ∷ links) r (long new.url) ok free
                (answers (hash new.url) r)
              ∙ group_links_seen hash link_banned window old links v r' (long old.url)
                  (R.text-stored_ne k (codes "1") (dedup_key c (hash old.url)) window r apart
                    ∙ held)
                  (answers (hash old.url) r')) in
        (
          ap (λ p. p.0) first,
          ap (λ p. p.0)
              (ap (λ p. allow_group_links R c hash link_banned E window_sec again p.1) first
                ∙ allow_group_links-seen again new rest (codes "1") r' g' b' read' (long new.url)
                    (R.text-stored_self k (codes "1") window r (spam_window-positive window_sec))
                    (answers (hash new.url) r')),
        )
