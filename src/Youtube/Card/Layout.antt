-- ===== src/Youtube/Card/Layout.antt =====
-- The rows of the card hold every quality once and in order, three to a row.
use saveinator.Prelude.{
  ◌≤◌, ◌<◌, ◌≡◌, refl, ap, ◌∙◌, List, [], ◌∷◌, ◌++◌, append_assoc, map, arith, Bytes, length,
  length-append, All, ◌==◌, Bool-cases, inl, inr,
}
use saveinator.Youtube.Formats.{Offer}
use saveinator.Youtube.Card.{qualities_per_row, quality_button, quality_rows}

abbrev pub concat : List (List Bytes) → List Bytes
concat [] = []
concat (row ∷ rows) = row ++ concat rows

concat-quality_rows :
    (os : List Offer) (row : List Bytes)
    → concat (quality_rows os row) ≡ row ++ map quality_button os
unfolding quality_rows
concat-quality_rows [] [] = refl
concat-quality_rows [] (b ∷ row) = refl
concat-quality_rows (o ∷ os) row =
    elim (Bool-cases (length (row ++ quality_button o ∷ []) == qualities_per_row)) [
      | inl e ↦
          rw (e, quality_rows)
            (ap (λ r. (row ++ quality_button o ∷ []) ++ r) (concat-quality_rows os [])
              ∙ append_assoc row (quality_button o ∷ []) (map quality_button os))
      | inr e ↦
          rw (e, quality_rows)
            (concat-quality_rows os (row ++ quality_button o ∷ [])
              ∙ append_assoc row (quality_button o ∷ []) (map quality_button os))
    ]

abbrev pub IsRow : List Bytes → Type 0
IsRow row = (0 < length row) × (length row ≤ qualities_per_row)

rows-IsRow :
    (os : List Offer) (row : List Bytes)
    → length row < qualities_per_row
    → All IsRow (quality_rows os row)
unfolding quality_rows
rows-IsRow [] [] h = tt
rows-IsRow [] (b ∷ row) h = ((omega arith, omega arith), tt)
rows-IsRow (o ∷ os) row h =
    let longer = length-append row (quality_button o ∷ []) in
    elim (Bool-cases (length (row ++ quality_button o ∷ []) == qualities_per_row)) [
      | inl e ↦
          rw (e, quality_rows)
            ((omega (arith, longer), omega (arith, longer)), rows-IsRow os [] (omega arith))
      | inr e ↦
          rw (e, quality_rows)
            (rows-IsRow os (row ++ quality_button o ∷ []) (ground (arith, longer, e, h)))
    ]

-- The rows of qualities hold, row after row, a button for every offer in the offers' order, and no row
-- is empty or longer than three buttons.
pub quality_rows-IsRow :
    (os : List Offer)
    → (concat (quality_rows os []) ≡ map quality_button os) × All IsRow (quality_rows os [])
quality_rows-IsRow os = (concat-quality_rows os [], rows-IsRow os [] (omega arith))
