-- ===== src/Youtube/Formats/Offered.antt =====
-- A quality is offered when, and only when, the video has it.
use mathlib.Core.Path.{subst}
use saveinator.Prelude.{
  ◌≡◌, ◌≢◌, ◌⊎◌, refl, ap, sym, ◌∙◌, true, false, not, ◌&&◌, List, [], ◌∷◌, Option, none, some,
  arith, ℤ, pos, eq_ℤ, eq_ℤ_iff, All, Bool-cases, Option-cases, inl, inr,
}
use saveinator.Float64.{Float64}
use saveinator.Youtube.Formats.{
  Format, Offer, Picks, has_video, has_audio, short_side, best_audio, replaces, pick_one, pick_from,
  by_height, whole_offer, merged_offer, offer_of, offers_from, options,
}

abbrev pub Among : {A : Type 0} → A → List A → Type 0
Among x [] = ⊥
Among x (y ∷ ys) = (x ≡ y) ⊎ Among x ys

-- the format is one of the video's, with a picture whose short side is the height
abbrev pub HasSide : List Format → ℤ → Format → Type 0
HasSide formats h f = Among f formats × (has_video f ≡ true) × (short_side f ≡ h)

module _ (estimate : Float64 → Float64 → ℤ) (duration : Float64) where
  pick_one-cases :
      (g f : Format) (picks : Picks) (h : ℤ)
      → pick_one estimate duration g picks h ≡ some f
      → (picks h ≡ some f) ⊎ ((f ≡ g) × (has_video g ≡ true) × (short_side g ≡ h))
  unfolding pick_one
  pick_one-cases g f picks h e =
      elim (Bool-cases (
        has_video g
        && not (eq_ℤ (short_side g) (pos 0))
        && eq_ℤ h (short_side g)
        && replaces estimate duration g (picks h))) [
          | inr n ↦ inl (rw (n, pick_one) at e)
          | inl y ↦
              let same : g ≡ f = cc (rw (y, pick_one) at e) in
              inr (
                sym same,
                ground (arith, y),
                sym ((eq_ℤ_iff h (short_side g)).0 (ground (arith, y))),
              )
        ]

  pick_from-cases :
      (fs : List Format) (f : Format) (picks : Picks) (h : ℤ)
      → pick_from estimate duration picks fs h ≡ some f
      → (picks h ≡ some f) ⊎ HasSide fs h f
  unfolding pick_from
  pick_from-cases [] f picks h e = inl e
  pick_from-cases (g ∷ fs) f picks h e =
      elim (pick_from-cases fs f (pick_one estimate duration g picks) h e) [
        | inr (among, video, side) ↦ inr (inr among, video, side)
        | inl now ↦ elim (pick_one-cases g f picks h now) [
          | inl before ↦ inl before
          | inr (same, video, side) ↦
              inr (inl same, ap has_video same ∙ video, ap short_side same ∙ side)
        ]
      ]

  pick_one-some :
      (g : Format) (picks : Picks) (h : ℤ)
      → picks h ≢ none
      → pick_one estimate duration g picks h ≢ none
  unfolding pick_one
  pick_one-some g picks h n e =
      elim (Bool-cases (
        has_video g
        && not (eq_ℤ (short_side g) (pos 0))
        && eq_ℤ h (short_side g)
        && replaces estimate duration g (picks h))) [
          | inr x ↦ n (rw (x, pick_one) at e)
          | inl y ↦ absurd (cc (rw (y, pick_one) at e))
        ]

  pick_one-new :
      (g : Format) (picks : Picks) (h : ℤ)
      → has_video g ≡ true
      → short_side g ≡ h
      → h ≢ pos 0
      → pick_one estimate duration g picks h ≢ none
  unfolding pick_one
  pick_one-new g picks h video side ne e = elim (Option-cases (picks h)) [
    | inr (cur, p) ↦ pick_one-some g picks h (λ q. cc (p, q)) e
    | inl p ↦
        let zero_side : eq_ℤ (short_side g) (pos 0) ≡ false = ground (
          arith,
          eq_ℤ_iff (short_side g) (pos 0),
          λ (z : short_side g ≡ pos 0). ne (sym side ∙ z),
        ) in
        let same = (eq_ℤ_iff h (short_side g)).1 (sym side) in
        absurd (cc (rw (video, zero_side, same, p, pick_one) at e))
  ]

  pick_from-some :
      (fs : List Format) (picks : Picks) (h : ℤ)
      → picks h ≢ none
      → pick_from estimate duration picks fs h ≢ none
  unfolding pick_from
  pick_from-some [] picks h n = n
  pick_from-some (g ∷ fs) picks h n =
      pick_from-some fs (pick_one estimate duration g picks) h (pick_one-some g picks h n)

  pick_from-HasSide :
      (fs : List Format) (f : Format) (picks : Picks) (h : ℤ)
      → HasSide fs h f
      → h ≢ pos 0
      → pick_from estimate duration picks fs h ≢ none
  unfolding pick_from
  pick_from-HasSide [] f picks h (among, video, side) ne = absurd among
  pick_from-HasSide (g ∷ fs) f picks h (inl same, video, side) ne =
      pick_from-some fs (pick_one estimate duration g picks) h (
        pick_one-new g picks h (ap has_video (sym same) ∙ video) (ap short_side (sym same) ∙ side)
          ne)
  pick_from-HasSide (g ∷ fs) f picks h (inr among, video, side) ne =
      pick_from-HasSide fs f (pick_one estimate duration g picks) h (among, video, side) ne

  offer_of-some :
      (audio picked : Option Format) (h : ℤ) (o : Offer)
      → offer_of estimate duration audio h picked ≡ some o
      → (o.height ≡ h) × ((f : Format) × (picked ≡ some f))
  unfolding offer_of
  offer_of-some audio none h o e = absurd cc
  offer_of-some none (some f) h o e = elim (Bool-cases (has_audio f)) [
    | inl y ↦ (ap (λ (x : Offer). x.height) (sym (offered (rw (y, offer_of) at e))), (f, refl))
    | inr n ↦ absurd (cc (rw (n, offer_of) at e))
  ]
    where
      offered : {x y : Offer} → some x ≡ some y → x ≡ y
      offered k = cc
  offer_of-some (some a) (some f) h o e = elim (Bool-cases (has_audio f)) [
    | inl y ↦ (ap (λ (x : Offer). x.height) (sym (offered (rw (y, offer_of) at e))), (f, refl))
    | inr n ↦ (ap (λ (x : Offer). x.height) (sym (offered (rw (n, offer_of) at e))), (f, refl))
  ]
    where
      offered : {x y : Offer} → some x ≡ some y → x ≡ y
      offered k = cc

  offer_of_audio :
      (a f : Format) (h : ℤ)
      → (o : Offer) × (offer_of estimate duration (some a) h (some f) ≡ some o)
  unfolding offer_of
  offer_of_audio a f h = elim (Bool-cases (has_audio f)) [
    | inl y ↦ (whole_offer estimate duration h f, rw (y, offer_of) refl)
    | inr n ↦ (merged_offer estimate duration h f a, rw (n, offer_of) refl)
  ]

  -- the height is allowed and a format of the video has it
  abbrev pub Genuine : List Format → List ℤ → Offer → Type 0
  Genuine formats allowed o = Among o.height allowed × ((f : Format) × HasSide formats o.height f)

  by_height-HasSide :
      (formats : List Format) (h : ℤ) (f : Format)
      → by_height estimate duration formats h ≡ some f
      → HasSide formats h f
  unfolding by_height
  by_height-HasSide formats h f e = elim (pick_from-cases formats f (λ j. none) h e) [
    | inl n ↦ absurd (cc n)
    | inr side ↦ side
  ]

  offers_from-Genuine :
      (formats : List Format) (audio : Option Format) (allowed hs : List ℤ)
      → ((h : ℤ) → Among h hs → Among h allowed)
      → All
          (Genuine formats allowed)
          (offers_from estimate duration audio (by_height estimate duration formats) hs)
  unfolding offers_from
  offers_from-Genuine formats audio allowed [] inside = tt
  offers_from-Genuine formats audio allowed (h ∷ hs) inside =
      let picked = by_height estimate duration formats h in
      let later = offers_from-Genuine formats audio allowed hs (λ k m. inside k (inr m)) in
      elim (Option-cases (offer_of estimate duration audio h picked)) [
        | inl e ↦ rw (e, offers_from) later
        | inr (o, e) ↦
            let (height, (f, found)) = offer_of-some audio picked h o e in
            let genuine : Genuine formats allowed o =
              subst (λ k. Among k allowed × ((g : Format) × HasSide formats k g)) (sym height)
                (inside h (inl refl), (f, by_height-HasSide formats h f found)) in
            rw (e, offers_from) (genuine, later)
      ]

  -- with an audio track, a height that a format has is offered
  offers_from_complete :
      (formats : List Format) (a f : Format) (h : ℤ) (hs : List ℤ)
      → HasSide formats h f
      → h ≢ pos 0
      → Among h hs
      → (o : Offer) × (o.height ≡ h)
        × Among o (offers_from estimate duration (some a) (by_height estimate duration formats) hs)
  unfolding offers_from
  offers_from_complete formats a f h [] side ne m = absurd m
  offers_from_complete formats a f h (k ∷ hs) side ne (inl same) =
      elim (Option-cases (by_height estimate duration formats k)) [
        | inl e ↦ absurd (missing (ap (λ j. by_height estimate duration formats j) same ∙ e))
        | inr (g, e) ↦
            let (o, made) = offer_of_audio a g k in
            (
              o,
              (offer_of-some (some a) (some g) k o made).0 ∙ sym same,
              rw (e, made, offers_from) (inl refl),
            )
      ]
    where
      missing : by_height estimate duration formats h ≢ none
      missing = unfold by_height in pick_from-HasSide formats f (λ j. none) h side ne
  offers_from_complete formats a f h (k ∷ hs) side ne (inr m) =
      let (o, height, among) = offers_from_complete formats a f h hs side ne m in
      elim (Option-cases
        (offer_of estimate duration (some a) k (by_height estimate duration formats k))) [
          | inl e ↦ (o, height, rw (e, offers_from) among)
          | inr (x, e) ↦ (o, height, rw (e, offers_from) (inr among))
        ]

  -- Every quality on the card is an allowed one that some format of the video with a picture has exactly
  -- as its short side. And where the video has an audio track of its own, every allowed height but zero
  -- that such a format has is offered.
  pub options_exact :
      (formats : List Format) (allowed : List ℤ)
      → All (Genuine formats allowed) (options estimate duration formats allowed)
        × ((a f : Format) (h : ℤ)
            → best_audio formats ≡ some a
            → HasSide formats h f
            → h ≢ pos 0
            → Among h allowed
            → (o : Offer) × (o.height ≡ h) × Among o (options estimate duration formats allowed))
  unfolding options
  options_exact formats allowed = (
    offers_from-Genuine formats (best_audio formats) allowed allowed (λ h m. m),
    (λ a f h track side ne m. rw track (offers_from_complete formats a f h allowed side ne m)),
  )
