-- ===== src/Ytdlp/Media/Largest.antt =====
-- What is taken for a download's video.
use saveinator.Prelude.{
  ℕ, ◌≤◌, ◌<◌, ◌≡◌, refl, true, List, [], ◌∷◌, ◌++◌, ap, sym, ◌∙◌, ◌⊎◌, Option, none, some, arith,
  All, ltb, inl, inr, Bool-cases, Option-cases,
}
use saveinator.Ytdlp.Media.{Entry, is_video, larger, largest_from, largest_video}

-- The best file so far is a video of the best size, which is 0 where there is none.
abbrev Best : Option Entry × ℕ → Type 0
Best (none, n) = n ≡ 0
Best (some f, n) = (is_video f ≡ true) × (f.size ≡ some n) × (0 < n)

-- the file is no larger than `n`, where it is a video whose size is known
abbrev pub Below : ℕ → Entry → Type 0
Below n f = (m : ℕ) → is_video f ≡ true → f.size ≡ some m → m ≤ n

module _ (best : Option Entry) (n : ℕ) (f : Entry) (h : Best (best, n)) where
  larger_lem :
      Best (larger (best, n) f) × (n ≤ (larger (best, n) f).1) × Below (larger (best, n) f).1 f
  unfolding larger
  larger_lem = elim (Bool-cases (is_video f)) [
    | inr not_video ↦ rw not_video (h, omega arith, λ m v. absurd (cc (not_video, v)))
    | inl v ↦ elim (Option-cases f.size) [
      | inl unknown ↦ rw (v, unknown) (h, omega arith, λ m w s. absurd (cc (unknown, s)))
      | inr (k, known) ↦ elim (Bool-cases (ltb n k)) [
        | inl more ↦
            rw (v, known, more) ((v, known, ground arith), ground arith, λ m w s. ground arith)
        | inr less ↦ rw (v, known, less) (h, omega arith, λ m w s. ground arith)
      ]
    ]
  ]

-- the best of the files, from a best file on
largest_from_lem :
    (b : Option Entry × ℕ) (files : List Entry)
    → Best b
    → Best (largest_from b files)
      × (b.1 ≤ (largest_from b files).1)
      × All (Below (largest_from b files).1) files
unfolding largest_from
largest_from_lem b [] h = (h, omega arith, tt)
largest_from_lem b (f ∷ files) h =
    let (best, up, below) = larger_lem b.0 b.1 f h in
    let (best', up', all) = largest_from_lem (larger b f) files best in
    (best', omega arith, (λ m v s. (let one = below m v s in omega arith), all))

larger-cases :
    (b : Option Entry × ℕ) (f : Entry) → ((larger b f).0 ≡ b.0) ⊎ ((larger b f).0 ≡ some f)
unfolding larger
larger-cases b f = elim (Bool-cases (is_video f)) [
  | inr not_video ↦ rw not_video (inl refl)
  | inl v ↦ elim (Option-cases f.size) [
    | inl unknown ↦ rw (v, unknown) (inl refl)
    | inr (k, known) ↦ elim (Bool-cases (ltb b.1 k)) [
      | inl more ↦ simp (v, known, more) (inr refl)
      | inr less ↦ rw (v, known, less) (inl refl)
    ]
  ]
]

abbrev pub Among : Entry → List Entry → Type 0
Among g files = (before after : List Entry) × (files ≡ before ++ g ∷ after)

largest_from-Among :
    (b : Option Entry × ℕ) (files : List Entry) (g : Entry)
    → (largest_from b files).0 ≡ some g
    → (b.0 ≡ some g) ⊎ Among g files
unfolding largest_from
largest_from-Among b [] g h = inl h
largest_from-Among b (f ∷ files) g h = elim (largest_from-Among (larger b f) files g h) [
  | inr (before, after, e) ↦ inr (f ∷ before, after, ap (λ l. f ∷ l) e)
  | inl e ↦ elim (larger-cases b f) [
    | inl same ↦ inl (sym same ∙ e)
    | inr new ↦ inr ([], files, cc (sym e ∙ new))
  ]
]

Best-some :
    (b : Option Entry × ℕ) (g : Entry)
    → Best b
    → b.0 ≡ some g
    → (is_video g ≡ true) × (g.size ≡ some b.1) × (0 < b.1)
Best-some (none, n) g h e = absurd (cc e)
Best-some (some f, n) g (v, s, p) e = (cc (v, e), cc (s, e), p)

Best-none : (b : Option Entry × ℕ) → Best b → b.0 ≡ none → b.1 ≡ 0
Best-none (none, n) h e = h
Best-none (some f, n) h e = absurd (cc e)

-- Where the largest video is a file, this is one of the files, a video with a size above 0, and no
-- video among the files has a larger size.
pub largest_video-IsLargest :
    (files : List Entry) (g : Entry)
    → largest_video files ≡ some g
    → (n : ℕ) × Among g files
      × (is_video g ≡ true)
      × (g.size ≡ some n)
      × (0 < n)
      × All (Below n) files
unfolding largest_video
largest_video-IsLargest files g h =
    let (best, up, all) = largest_from_lem (none, 0) files refl in
    let among = elim (largest_from-Among (none, 0) files g h) as (λ x. Among g files) [
      | inl e ↦ absurd (cc e)
      | inr a ↦ a
    ] in
    let (v, s, p) = Best-some (largest_from (none, 0) files) g best h in
    ((largest_from (none, 0) files).1, among, v, s, p, all)

-- Where there is none, every video among the files is empty or has no size.
pub largest_video-none : (files : List Entry) → largest_video files ≡ none → All (Below 0) files
unfolding largest_video
largest_video-none files h =
    let (best, up, all) = largest_from_lem (none, 0) files refl in
    rw (Best-none (largest_from (none, 0) files) best h) at all
