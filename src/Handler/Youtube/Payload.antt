-- ===== src/Handler/Youtube/Payload.antt =====
-- On which queue a YouTube download lands, and that the top quality exists.
use saveinator.Prelude.{
  ◌≡◌, ◌≢◌, ◌⊎◌, refl, Bool, true, false, ◌||◌, List, [], ◌∷◌, Option, none, some, arith, Bytes,
  codes, ℤ, pos, ltb_ℤ, leb_ℤ, is_empty, contains, eq_bytes, eq_bytes_iff, Bool-cases, List-cases,
  inl, inr,
}
use saveinator.Sorting.{sort, insert}
use saveinator.Queue.Client.{queue_for, queue_download, queue_transcode}
use saveinator.Youtube.Formats.{Offer, allowed_heights, collect_heights}
use saveinator.Youtube.Session.{PendingSession}
use saveinator.Handler.Music.Links.{From}
use saveinator.Handler.Youtube.{
  last_height, top_allowed_quality, shorts_payload, build_youtube_payload, ratio_set_from_strings,
  youtube_aspect_ratio,
}

youtube_aspect_ratio-allowed :
    (setting : Option Bytes) (allowed : List Bytes)
    → is_empty (youtube_aspect_ratio setting allowed) ≡ false
    → (ratio : Bytes) × (setting ≡ some ratio)
      × (youtube_aspect_ratio setting allowed ≡ ratio)
      × (ratio ≢ codes "ask")
      × (contains (ratio_set_from_strings allowed) ratio ≡ true)
unfolding youtube_aspect_ratio
youtube_aspect_ratio-allowed none allowed h = cc
youtube_aspect_ratio-allowed (some ratio) allowed h =
    elim (Bool-cases (is_empty ratio || eq_bytes ratio (codes "ask"))) [
      | inl e ↦ absurd (cc (rw (e, youtube_aspect_ratio) at h))
      | inr e ↦ elim (Bool-cases (contains (ratio_set_from_strings allowed) ratio)) [
        | inr e1 ↦ absurd (cc (rw (e, e1, youtube_aspect_ratio) at h))
        | inl e1 ↦ (
          ratio,
          refl,
          rw (e, e1, youtube_aspect_ratio),
          (λ same. ground (arith, e, (eq_bytes_iff ratio (codes "ask")).1 same)),
          e1,
        )
      ]
    ]

-- A chosen download of YouTube lands on the queue for transcoding only if it is a video of a positive
-- height whose user has set a ratio, not "ask", that the settings allow; otherwise it lands on the
-- queue for downloads.
pub youtube_queue :
    (s : PendingSession) (option : Offer) (audio : Bool) (setting : Option Bytes)
    (allowed : List Bytes)
    → (queue_for (build_youtube_payload s option audio (youtube_aspect_ratio setting allowed))
        ≡ queue_download)
      ⊎ ((queue_for (build_youtube_payload s option audio (youtube_aspect_ratio setting allowed))
            ≡ queue_transcode)
          × (audio ≡ false)
          × (ltb_ℤ (pos 0) option.height ≡ true)
          × ((ratio : Bytes) × (setting ≡ some ratio)
              × (ratio ≢ codes "ask")
              × (contains (ratio_set_from_strings allowed) ratio ≡ true)))
unfolding queue_for build_youtube_payload eq_bytes
youtube_queue s option true setting allowed = inl refl
youtube_queue s option false setting allowed = elim (Bool-cases (ltb_ℤ (pos 0) option.height)) [
  | inr e ↦ inl (rw e)
  | inl e ↦ elim (Bool-cases (is_empty (youtube_aspect_ratio setting allowed))) [
    | inl e1 ↦ inl (rw (e, e1))
    | inr e1 ↦
        let (ratio, set, _, chosen, known) = youtube_aspect_ratio-allowed setting allowed e1 in
        inr (rw (e, e1), refl, e, (ratio, set, chosen, known))
  ]
]

pub shorts_queue :
    (m : From) (url : Bytes) (message_id quality : ℤ) (nw : Bool)
    → queue_for (shorts_payload m url message_id quality nw) ≡ queue_download
unfolding queue_for shorts_payload eq_bytes
shorts_queue m url message_id quality nw = ground arith

last_height-some : (h : ℤ) (hs : List ℤ) → (k : ℤ) × (last_height (h ∷ hs) ≡ some k)
unfolding last_height
last_height-some h [] = (h, refl)
last_height-some h (k ∷ hs) = last_height-some k hs

last_height-insert : (h : ℤ) (hs : List ℤ) → (k : ℤ) × (last_height (insert leb_ℤ h hs) ≡ some k)
unfolding insert
last_height-insert h [] = (h, unfold last_height in refl)
last_height-insert h (x ∷ xs) = elim (Bool-cases (leb_ℤ h x)) [
  | inl e ↦ rw e (last_height-some h (x ∷ xs))
  | inr e ↦ rw e (last_height-some x (insert leb_ℤ h xs))
]

-- Whatever the setting of the qualities holds, a top quality exists: the list that is indexed at its
-- last element is never empty.
pub top_allowed_quality-some :
    (qualities : List Bytes) → (height : ℤ) × (top_allowed_quality qualities ≡ some height)
unfolding top_allowed_quality allowed_heights sort
top_allowed_quality-some qualities = elim (List-cases (collect_heights qualities [])) [
  | inl e ↦ rw (e, allowed_heights) (last_height-some (pos 144) _)
  | inr (h, hs, e) ↦ rw (e, allowed_heights) (last_height-insert h (sort leb_ℤ hs))
]
