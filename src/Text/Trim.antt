-- ===== src/Text/Trim.antt =====
-- `strings.TrimSpace` and `strings.ToLower` on texts whose white space and capitals are ASCII.
use saveinator.Prelude.{
  ℕ, ◌+◌, Bool, ◌||◌, ◌&&◌, [], ◌∷◌, Bytes, ◌==◌, leb, map, if◌then◌else◌, is_empty,
}

-- tab, line feed, vertical tab, form feed, carriage return, space
abbrev pub is_space : ℕ → Bool
is_space c = (leb 9 c && leb c 13) || c == 32

unfoldable pub trim_left : Bytes → Bytes
trim_left [] = []
trim_left (c ∷ s) = let rest = trim_left s in if is_space c then rest else c ∷ s

-- A byte stays where something that stays stands behind it, or where it is no space itself.
unfoldable pub trim_right : Bytes → Bytes
trim_right [] = []
trim_right (c ∷ s) = let rest = trim_right s in if is_empty rest && is_space c then [] else c ∷ rest

unfoldable pub trim_space : Bytes → Bytes
unfolding trim_left trim_right
trim_space s = trim_right (trim_left s)

abbrev pub lower : ℕ → ℕ
lower c = if leb b'A' c && leb c b'Z' then c + 32 else c

unfoldable pub to_lower : Bytes → Bytes
to_lower = map lower
