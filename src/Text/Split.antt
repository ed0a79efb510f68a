-- ===== src/Text/Split.antt =====
-- `strings.Split` and `strings.SplitN(_, _, 2)` with a separator of one byte, and their laws.
use saveinator.Prelude.{
  ℕ, ◌≡◌, ◌≢◌, refl, List, [], ◌∷◌, ◌++◌, arith, Bytes, Lacks, All, ◌==◌, if◌then◌else◌,
}

-- Put a byte in front of the first part.
abbrev push : ℕ → List Bytes → List Bytes
push c [] = (c ∷ []) ∷ []
push c (p ∷ ps) = (c ∷ p) ∷ ps

unfoldable pub split : ℕ → Bytes → List Bytes
split sep [] = [] ∷ []
split sep (c ∷ s) = let rest = split sep s in if c == sep then [] ∷ rest else push c rest

-- At most two parts: the text before the first separator and all that follows it.
unfoldable pub split_n2 : ℕ → Bytes → List Bytes
split_n2 sep [] = [] ∷ []
split_n2 sep (c ∷ s) = let rest = split_n2 sep s in if c == sep then [] ∷ s ∷ [] else push c rest

-- The parts with the separator between them, as `strings.Join`.
unfoldable pub join : ℕ → List Bytes → Bytes
join sep [] = []
join sep (p ∷ []) = p
join sep (p ∷ q ∷ ps) = p ++ sep ∷ join sep (q ∷ ps)

module _ (sep : ℕ) where
  pub split_whole : (a : Bytes) → Lacks sep a → split sep a ≡ a ∷ []
  unfolding split
  split_whole [] h = refl
  split_whole (c ∷ a) h = ground (arith, split_whole a h.1)

  pub split_first : (a s : Bytes) → Lacks sep a → split sep (a ++ sep ∷ s) ≡ a ∷ split sep s
  unfolding split
  split_first [] s h = ground arith
  split_first (c ∷ a) s h = ground (arith, split_first a s h.1)

  pub split_n2_first : (a s : Bytes) → Lacks sep a → split_n2 sep (a ++ sep ∷ s) ≡ a ∷ s ∷ []
  unfolding split_n2
  split_n2_first [] s h = ground arith
  split_n2_first (c ∷ a) s h = ground (arith, split_n2_first a s h.1)

  pub split-ne-nil : (s : Bytes) → split sep s ≢ []
  unfolding split
  split-ne-nil [] = λ e. cc
  split-ne-nil (c ∷ s) = ground (arith, split-ne-nil s)

  join-push : (c : ℕ) (ps : List Bytes) → ps ≢ [] → join sep (push c ps) ≡ c ∷ join sep ps
  unfolding join
  join-push c [] h = absurd (h refl)
  join-push c (p ∷ []) h = refl
  join-push c (p ∷ q ∷ ps) h = refl

  join-cons : (ps : List Bytes) → ps ≢ [] → join sep ([] ∷ ps) ≡ sep ∷ join sep ps
  unfolding join
  join-cons [] h = absurd (h refl)
  join-cons (p ∷ ps) h = refl

  -- Joining the parts of a split gives the text back.
  pub join-split : (s : Bytes) → join sep (split sep s) ≡ s
  unfolding split
  join-split [] = unfold join in refl
  join-split (c ∷ s) = ground (
    arith,
    join-split s,
    join-push c (split sep s) (split-ne-nil s),
    join-cons (split sep s) (split-ne-nil s),
  )

  push-Lacks :
      (c : ℕ) (ps : List Bytes) → c ≢ sep → All (Lacks sep) ps → All (Lacks sep) (push c ps)
  push-Lacks c [] n h = ((n, tt), tt)
  push-Lacks c (p ∷ ps) n h = ((n, h.0), h.1)

  -- No part of a split holds the separator.
  pub split-Lacks : (s : Bytes) → All (Lacks sep) (split sep s)
  unfolding split
  split-Lacks [] = (tt, tt)
  split-Lacks (c ∷ s) = grind (arith, split-Lacks s, push-Lacks c (split sep s))
