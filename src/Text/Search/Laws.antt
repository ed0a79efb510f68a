-- ===== src/Text/Search/Laws.antt =====
-- A text that stands in a message stands in every message around it.
use saveinator.Prelude.{◌≡◌, refl, true, [], ◌∷◌, ◌++◌, arith, Bytes, Bool-cases, inl, inr}
use saveinator.Text.Search.{has_prefix, has_substring}

has_prefix-append : (s b p : Bytes) → has_prefix s p ≡ true → has_prefix (s ++ b) p ≡ true
unfolding has_prefix
has_prefix-append s b [] h = refl
has_prefix-append [] b (c ∷ p) h = cc
has_prefix-append (x ∷ s) b (c ∷ p) h = ground (arith, h, has_prefix-append s b p)

pub has_substring-append :
    (s b p : Bytes) → has_substring s p ≡ true → has_substring (s ++ b) p ≡ true
unfolding has_substring
has_substring-append [] [] p h = h
has_substring-append [] (x ∷ b) p h = rw (has_prefix-append [] (x ∷ b) p h)
has_substring-append (x ∷ s) b p h = elim (Bool-cases (has_prefix (x ∷ s) p)) [
  | inl e ↦ rw (has_prefix-append (x ∷ s) b p e)
  | inr e ↦ ground (arith, has_substring-append s b p (rw e at h))
]

pub has_substring-behind :
    (a s p : Bytes) → has_substring s p ≡ true → has_substring (a ++ s) p ≡ true
unfolding has_substring
has_substring-behind [] s p h = h
has_substring-behind (x ∷ a) s p h = ground (arith, has_substring-behind a s p h)
