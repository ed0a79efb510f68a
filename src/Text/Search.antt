-- ===== src/Text/Search.antt =====
-- `strings.HasPrefix`, `strings.TrimPrefix` and `strings.Contains`.
pub mod Laws
use saveinator.Prelude.{Bool, true, false, ◌&&◌, ◌||◌, [], ◌∷◌, Bytes, ◌==◌, if◌then◌else◌}

unfoldable pub has_prefix : Bytes → Bytes → Bool
has_prefix s [] = true
has_prefix [] (c ∷ p) = false
has_prefix (b ∷ s) (c ∷ p) = b == c && has_prefix s p

-- the bytes behind the first ones
unfoldable pub behind : Bytes → Bytes → Bytes
behind s [] = s
behind [] (c ∷ p) = []
behind (b ∷ s) (c ∷ p) = behind s p

unfoldable pub trim_prefix : Bytes → Bytes → Bytes
trim_prefix s p = if has_prefix s p then behind s p else s

-- `has_substring s p`: `p` stands somewhere in `s`
unfoldable pub has_substring : Bytes → Bytes → Bool
has_substring [] p = has_prefix [] p
has_substring (b ∷ s) p = has_prefix (b ∷ s) p || has_substring s p
