-- ===== src/Redisx/Bans.antt =====
-- Banned users, a set on the server: go/internal/redisx/bans.go.
pub mod Listed
use saveinator.Prelude.{
  ℕ, zero, suc, Bool, true, false, List, [], ◌∷◌, Option, none, some, Bytes, codes, ℤ, pos, ltb_ℤ,
  ltb, length, if◌then◌else◌,
}
use saveinator.Text.Decimal.{format_int, parse_int}
use saveinator.Redis.{Redis}

abbrev pub banned_users_key : Bytes
banned_users_key = codes "saveinator:banned_users"

-- the members that are numbers, in order
unfoldable pub parsed_ids : List Bytes → List ℤ
parsed_ids [] = []
parsed_ids (m ∷ ms) =
    let ids = parsed_ids ms in elim (parse_int m) [ none ↦ ids | some id ↦ id ∷ ids ]

-- The inner loop: what stands at `i` is exchanged with every later smaller element that it meets. The
-- result is what stands at `i` behind the loop, and the elements behind it.
unfoldable pub exchange : ℤ → List ℤ → ℤ × List ℤ
exchange x [] = (x, [])
exchange x (y ∷ ys) =
    let (low, rest) = exchange y ys in
    let (low', rest') = exchange x ys in if ltb_ℤ y x then (low, x ∷ rest) else (low', y ∷ rest')

-- The outer loop, a round for every element.
unfoldable pub exchange_sort : ℕ → List ℤ → List ℤ
exchange_sort n [] = []
exchange_sort zero (x ∷ xs) = x ∷ xs
exchange_sort (suc n) (x ∷ xs) = let (low, rest) = exchange x xs in low ∷ exchange_sort n rest

module _ (R : Redis) where
  unfoldable pub ban_user : ℤ → R.State → Bool × R.State
  ban_user user_id s = R.sadd banned_users_key (format_int user_id) s

  -- whether the user was banned; `none` is an error
  unfoldable pub unban_user : ℤ → R.State → Option Bool × R.State
  unban_user user_id s =
      let (reply, s') = R.srem banned_users_key (format_int user_id) s in
      (elim reply [ none ↦ none | some n ↦ some (ltb 0 n) ], s')

  unfoldable pub is_user_banned : ℤ → R.State → Option Bool
  is_user_banned user_id s = R.sismember banned_users_key (format_int user_id) s

  unfoldable pub list_banned_users : R.State → Option (List ℤ)
  list_banned_users s = elim (R.smembers banned_users_key s) [
    | none ↦ none
    | some members ↦ let out = parsed_ids members in some (exchange_sort (length out) out)
  ]

  unfoldable pub banned_count : R.State → Option ℕ
  banned_count s = R.scard banned_users_key s
