-- ===== src/Sorting.antt =====
-- Sorted order: `sort.Strings` and `sort.Ints` as insertion sort, and the byte order of Go's strings.
use mathlib.Core.List.{Permᴰ}
use saveinator.Prelude.{
  ◌≡◌, refl, sym, ap, ◌∙◌, Bool, true, false, List, [], ◌∷◌, arith, Bytes, ltb, ◌==◌, keep,
  if◌then◌else◌, Bool-cases, inl, inr,
}

module _ {ℓ} {A : Type ℓ} (le : A → A → Bool) where
  unfoldable pub insert : A → List A → List A
  insert a [] = a ∷ []
  insert a (x ∷ xs) = let rest = insert a xs in if le a x then a ∷ x ∷ xs else x ∷ rest

  unfoldable pub sort : List A → List A
  sort [] = []
  sort (x ∷ xs) = insert x (sort xs)

  module _ (total : (a b : A) → le a b ≡ false → le b a ≡ true)
      (antisym : (a b : A) → le a b ≡ true → le b a ≡ true → a ≡ b)
      (transitive : (a b c : A) → le a b ≡ true → le b c ≡ true → le a c ≡ true) where
    insert_ordered :
        (a b : A) (l : List A) → le a b ≡ true → insert a (insert b l) ≡ insert b (insert a l)
    unfolding insert
    insert_ordered a b [] h = elim (Bool-cases (le b a)) [
      | inl e ↦ rw (h, e, insert) (cc (antisym a b h e))
      | inr e ↦ rw (h, e, insert) refl
    ]
    insert_ordered a b (x ∷ l) h =
        let same : le b a ≡ true → a ≡ b = antisym a b h in
        ground (arith, same, h, transitive a b x h, insert_ordered a b l h)

    insert-insert : (a b : A) (l : List A) → insert a (insert b l) ≡ insert b (insert a l)
    insert-insert a b l = elim (Bool-cases (le a b)) [
      | inl e ↦ insert_ordered a b l e
      | inr e ↦ sym (insert_ordered b a l (total a b e))
    ]

    -- the sorted elements that pass a test do not depend on the order in which they came
    pub sort-keep :
        (p : A → Bool) {xs ys : List A} → Permᴰ xs ys → sort (keep p xs) ≡ sort (keep p ys)
    unfolding sort
    sort-keep p Permᴰ.nil = refl
    sort-keep p (Permᴰ.cons {a} {b} e d) =
        let ih = sort-keep p d in
        elim (Bool-cases (p a)) [
          | inl y ↦ rw (y, (ap p (sym e) ∙ y)) (cc (e, ih))
          | inr n ↦ rw (n, (ap p (sym e) ∙ n)) ih
        ]
    sort-keep p (Permᴰ.swap {a} {b} {a'} {b'} {l} e f) =
        let pa = ap p e in
        let pb = ap p f in
        let comm = insert-insert a b (sort (keep p l)) in
        elim (Bool-cases (p a)) [
          | inl y ↦ elim (Bool-cases (p b)) [
            | inl z ↦ rw (y, z, sym pa ∙ y, sym pb ∙ z) (cc (e, f, comm))
            | inr z ↦ rw (y, z, sym pa ∙ y, sym pb ∙ z) (cc (e))
          ]
          | inr y ↦ elim (Bool-cases (p b)) [
            | inl z ↦ rw (y, z, sym pa ∙ y, sym pb ∙ z) (cc (f))
            | inr z ↦ rw (y, z, sym pa ∙ y, sym pb ∙ z) refl
          ]
        ]
    sort-keep p (Permᴰ.trans d f) = sort-keep p d ∙ sort-keep p f

-- `a <= b` on strings, byte by byte
unfoldable pub leb_bytes : Bytes → Bytes → Bool
leb_bytes [] t = true
leb_bytes (a ∷ r) [] = false
leb_bytes (a ∷ r) (b ∷ t) = let rest = leb_bytes r t in if a == b then rest else ltb a b

pub leb_bytes_total : (r t : Bytes) → leb_bytes r t ≡ false → leb_bytes t r ≡ true
unfolding leb_bytes
leb_bytes_total [] t h = absurd cc
leb_bytes_total (a ∷ r) [] h = refl
leb_bytes_total (a ∷ r) (b ∷ t) h = ground (arith, leb_bytes_total r t, h)

pub leb_bytes_antisym : (r t : Bytes) → leb_bytes r t ≡ true → leb_bytes t r ≡ true → r ≡ t
unfolding leb_bytes
leb_bytes_antisym [] [] h k = refl
leb_bytes_antisym [] (b ∷ t) h k = absurd cc
leb_bytes_antisym (a ∷ r) [] h k = absurd cc
leb_bytes_antisym (a ∷ r) (b ∷ t) h k = ground (arith, leb_bytes_antisym r t, h, k)

pub leb_bytes_transitive :
    (r t u : Bytes) → leb_bytes r t ≡ true → leb_bytes t u ≡ true → leb_bytes r u ≡ true
unfolding leb_bytes
leb_bytes_transitive [] t u h k = refl
leb_bytes_transitive (a ∷ r) [] u h k = absurd cc
leb_bytes_transitive (a ∷ r) (b ∷ t) [] h k = absurd cc
leb_bytes_transitive (a ∷ r) (b ∷ t) (c ∷ u) h k = ground (arith, leb_bytes_transitive r t u, h, k)
