-- ===== src/Redisx/Keys.antt =====
-- Keys of different users, bots and purposes are different.
use saveinator.Prelude.{
  ◌≡◌, ◌≢◌, refl, sym, ap, ◌∙◌, List, [], ◌∷◌, ◌++◌, arith, Bytes, codes, ℤ, Lacks, IsInt64,
}
use saveinator.Text.Split.{split_n2, split_n2_first, split, split_first, split_whole}
use saveinator.Text.Decimal.{format_int}
use saveinator.Text.Decimal.RoundTrip.{format_int-injective, format_int-Lacks}
use saveinator.Redisx.Client.{Client, colon, key, lock_prefix, lock_key, cancel_key, lock_value}

number-Lacks : (z : ℤ) → Lacks colon (format_int z)
number-Lacks z = format_int-Lacks colon z refl (omega arith)

split-lock_base :
    (user : ℤ)
    → split colon (lock_prefix ++ colon ∷ format_int user) ≡ lock_prefix ∷ format_int user ∷ []
split-lock_base user =
    rw (split_first colon lock_prefix _ (ground arith), split_whole colon _ (number-Lacks user))

-- The parts of a lock's key: the prefix, where there is one, is the first.
split-lock_key :
    (p : Bytes) (user : ℤ)
    → Lacks colon p
    → split colon (lock_key (record { prefix = p }) user) ≡ (elim p [
      | [] ↦ lock_prefix ∷ format_int user ∷ []
      | a ∷ r ↦ (a ∷ r) ∷ lock_prefix ∷ format_int user ∷ []
    ])
unfolding lock_key key
split-lock_key [] user h = split-lock_base user
split-lock_key (a ∷ r) user h = rw (split_first colon (a ∷ r) _ h, split-lock_base user)

-- Locks of different users or of different bots never share a key, if no bot's prefix holds a
-- colon and the ids are of int64.
pub lock_key-injective :
    (c d : Client) (u v : ℤ)
    → Lacks colon c.prefix
    → Lacks colon d.prefix
    → IsInt64 u
    → IsInt64 v
    → lock_key c u ≡ lock_key d v
    → (c.prefix ≡ d.prefix) × (u ≡ v)
lock_key-injective c d u v hc hd hu hv e =
    go c.prefix d.prefix
      (sym (split-lock_key c.prefix u hc) ∙ ap (split colon) e ∙ split-lock_key d.prefix v hd)
  where
    parts : Bytes → ℤ → List Bytes
    parts p user = elim p [
      | [] ↦ lock_prefix ∷ format_int user ∷ []
      | a ∷ r ↦ (a ∷ r) ∷ lock_prefix ∷ format_int user ∷ []
    ]

    go : (p q : Bytes) → parts p u ≡ parts q v → (p ≡ q) × (u ≡ v)
    go [] [] k = (refl, format_int-injective u v hu hv (cc k))
    go [] (b ∷ t) k = absurd (cc k)
    go (a ∷ r) [] k = absurd (cc k)
    go (a ∷ r) (b ∷ t) k = (cc k, format_int-injective u v hu hv (cc k))

abbrev cancel_parts : Bytes → ℤ → Bytes → List Bytes
cancel_parts scenario user token =
    codes "download" ∷ codes "cancel" ∷ scenario ∷ format_int user ∷ token ∷ []

abbrev with_prefix_part : Bytes → List Bytes → List Bytes
with_prefix_part [] parts = parts
with_prefix_part (a ∷ r) parts = (a ∷ r) ∷ parts

split-cancel_base :
    (scenario : Bytes) (user : ℤ) (token : Bytes)
    → Lacks colon scenario
    → Lacks colon token
    → split colon (
        codes "download"
        ++ colon
          ∷ (codes "cancel" ++ colon ∷ (scenario ++ colon ∷ (format_int user ++ colon ∷ token))))
      ≡ cancel_parts scenario user token
split-cancel_base scenario user token hs ht = rw (
  split_first colon (codes "download") _ (ground arith),
  split_first colon (codes "cancel") _ (ground arith),
  split_first colon scenario _ hs,
  split_first colon (format_int user) _ (number-Lacks user),
  split_whole colon token ht,
)

split-cancel_key :
    (p scenario : Bytes) (user : ℤ) (token : Bytes)
    → Lacks colon p
    → Lacks colon scenario
    → Lacks colon token
    → split colon (cancel_key (record { prefix = p }) scenario user token)
      ≡ with_prefix_part p (cancel_parts scenario user token)
unfolding cancel_key key
split-cancel_key [] scenario user token hp hs ht = split-cancel_base scenario user token hs ht
split-cancel_key (a ∷ r) scenario user token hp hs ht =
    rw (split_first colon (a ∷ r) _ hp)
      (ap (λ ps. (a ∷ r) ∷ ps) (split-cancel_base scenario user token hs ht))

-- A cancel flag is never kept under the key of a lock.
pub cancel_key-ne-lock_key :
    (c : Client) (scenario : Bytes) (u v : ℤ) (token : Bytes)
    → Lacks colon c.prefix
    → Lacks colon scenario
    → Lacks colon token
    → cancel_key c scenario u token ≢ lock_key c v
cancel_key-ne-lock_key c scenario u v token hp hs ht e = go c.prefix (
    sym (split-cancel_key c.prefix scenario u token hp hs ht)
    ∙ ap (split colon) e
    ∙ split-lock_key c.prefix v hp)
  where
    go :
        (p : Bytes)
        → with_prefix_part p (cancel_parts scenario u token) ≡ (elim p [
          | [] ↦ lock_prefix ∷ format_int v ∷ []
          | a ∷ r ↦ (a ∷ r) ∷ lock_prefix ∷ format_int v ∷ []
        ])
        → ⊥
    go [] k = cc k
    go (a ∷ r) k = cc k

-- The cancel flags of two downloads of a bot share a key only if the downloads agree in scenario,
-- user and token, if the prefix and none of the texts holds a colon and the ids are of int64.
pub cancel_key-injective :
    (c : Client) (scenario scenario' : Bytes) (u v : ℤ) (token token' : Bytes)
    → Lacks colon c.prefix
    → Lacks colon scenario × Lacks colon token
    → Lacks colon scenario' × Lacks colon token'
    → IsInt64 u
    → IsInt64 v
    → cancel_key c scenario u token ≡ cancel_key c scenario' v token'
    → (scenario ≡ scenario') × (u ≡ v) × (token ≡ token')
cancel_key-injective c scenario scenario' u v token token' hp h h' hu hv e = go c.prefix (
    sym (split-cancel_key c.prefix scenario u token hp h.0 h.1)
    ∙ ap (split colon) e
    ∙ split-cancel_key c.prefix scenario' v token' hp h'.0 h'.1)
  where
    go :
        (p : Bytes)
        → with_prefix_part p (cancel_parts scenario u token)
          ≡ with_prefix_part p (cancel_parts scenario' v token')
        → (scenario ≡ scenario') × (u ≡ v) × (token ≡ token')
    go [] k = (cc k, format_int-injective u v hu hv (cc k), cc k)
    go (a ∷ r) k = (cc k, format_int-injective u v hu hv (cc k), cc k)

-- Two locks hold the same value only for the same scenario and token, if no scenario holds a colon.
pub lock_value-injective :
    (scenario scenario' token token' : Bytes)
    → Lacks colon scenario
    → Lacks colon scenario'
    → lock_value scenario token ≡ lock_value scenario' token'
    → (scenario ≡ scenario') × (token ≡ token')
unfolding lock_value
lock_value-injective scenario scenario' token token' h h' e =
    let parts =
      sym (split_n2_first colon scenario token h)
      ∙ ap (split_n2 colon) e
      ∙ split_n2_first colon scenario' token' h' in
    (cc parts, cc parts)
