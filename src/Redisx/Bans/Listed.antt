-- ===== src/Redisx/Bans/Listed.antt =====
-- Banning is seen by the check, and the list is sorted.
use mathlib.Core.List.{Permᴰ}
use mathlib.Core.Path.{subst}
use saveinator.Prelude.{
  ℕ, zero, suc, ◌≤◌, ◌≡◌, ◌≢◌, refl, ap, ◌∙◌, Bool, true, false, List, [], ◌∷◌, some, arith, Bytes,
  contains, ℤ, pos, negsuc, ltb_ℤ, leb_ℤ, IsInt64, length, All, Option-cases, Bool-cases, inl, inr,
}
use saveinator.Text.Decimal.{format_int}
use saveinator.Text.Decimal.RoundTrip.{format_int-injective}
use saveinator.Redis.{Redis}
use saveinator.Redisx.Bans.{
  banned_users_key, parsed_ids, exchange, exchange_sort, ban_user, unban_user, is_user_banned,
  list_banned_users,
}

leb_ℤ_refl : (x : ℤ) → leb_ℤ x x ≡ true
leb_ℤ_refl (pos x) = ground arith
leb_ℤ_refl (negsuc x) = ground arith

Permᴰ_refl : (xs : List ℤ) → Permᴰ xs xs
Permᴰ_refl [] = Permᴰ.nil
Permᴰ_refl (x ∷ xs) = Permᴰ.cons refl (Permᴰ_refl xs)

exchange-Permᴰ : (x : ℤ) (ys : List ℤ) → Permᴰ (x ∷ ys) ((exchange x ys).0 ∷ (exchange x ys).1)
unfolding exchange
exchange-Permᴰ x [] = Permᴰ.cons refl Permᴰ.nil
exchange-Permᴰ x (y ∷ ys) = elim (Bool-cases (ltb_ℤ y x)) [
  | inl e ↦
      rw (e, exchange) (Permᴰ.trans (Permᴰ.cons refl (exchange-Permᴰ y ys)) (Permᴰ.swap refl refl))
  | inr e ↦
      rw (e, exchange)
        (Permᴰ.trans (Permᴰ.swap refl refl)
          (Permᴰ.trans (Permᴰ.cons refl (exchange-Permᴰ x ys)) (Permᴰ.swap refl refl)))
]

leb_ℤ_transitive : (a b c : ℤ) → leb_ℤ a b ≡ true → leb_ℤ b c ≡ true → leb_ℤ a c ≡ true
leb_ℤ_transitive (pos a) (pos b) (pos c) h k = ground arith
leb_ℤ_transitive (pos a) (pos b) (negsuc c) h k = ground arith
leb_ℤ_transitive (pos a) (negsuc b) c h k = ground arith
leb_ℤ_transitive (negsuc a) (pos b) (pos c) h k = ground arith
leb_ℤ_transitive (negsuc a) (pos b) (negsuc c) h k = ground arith
leb_ℤ_transitive (negsuc a) (negsuc b) (pos c) h k = ground arith
leb_ℤ_transitive (negsuc a) (negsuc b) (negsuc c) h k = ground arith

ltb-leb_ℤ :
    (a b : ℤ) → (ltb_ℤ a b ≡ true → leb_ℤ a b ≡ true) × (ltb_ℤ a b ≡ false → leb_ℤ b a ≡ true)
ltb-leb_ℤ (pos a) (pos b) = ground arith
ltb-leb_ℤ (pos a) (negsuc b) = ground arith
ltb-leb_ℤ (negsuc a) (pos b) = ground arith
ltb-leb_ℤ (negsuc a) (negsuc b) = ground arith

abbrev pub AtLeast : ℤ → List ℤ → Type 0
AtLeast x = All (λ y. leb_ℤ x y ≡ true)

AtLeast-transitive : (a b : ℤ) (ys : List ℤ) → leb_ℤ a b ≡ true → AtLeast b ys → AtLeast a ys
AtLeast-transitive a b [] h k = tt
AtLeast-transitive a b (y ∷ ys) h (k, ks) =
    (leb_ℤ_transitive a b y h k, AtLeast-transitive a b ys h ks)

-- what stands in front behind the inner loop is the least
exchange-AtLeast :
    (x : ℤ) (ys : List ℤ)
    → (leb_ℤ (exchange x ys).0 x ≡ true) × AtLeast (exchange x ys).0 (exchange x ys).1
unfolding exchange
exchange-AtLeast x [] = (leb_ℤ_refl x, tt)
exchange-AtLeast x (y ∷ ys) = elim (Bool-cases (ltb_ℤ y x)) [
  | inl e ↦
      let (low, all_low) = exchange-AtLeast y ys in
      let below = leb_ℤ_transitive (exchange y ys).0 y x low ((ltb-leb_ℤ y x).0 e) in
      rw (e, exchange) (below, (below, all_low))
  | inr e ↦
      let (low, all_low) = exchange-AtLeast x ys in
      let below = leb_ℤ_transitive (exchange x ys).0 x y low ((ltb-leb_ℤ y x).1 e) in
      rw (e, exchange) (low, (below, all_low))
]

All-Permᴰ : (P : ℤ → Type 0) {xs ys : List ℤ} → Permᴰ xs ys → All P xs → All P ys
All-Permᴰ P Permᴰ.nil h = tt
All-Permᴰ P (Permᴰ.cons e d) (p, h) = (subst P e p, All-Permᴰ P d h)
All-Permᴰ P (Permᴰ.swap e f) (p, (q, h)) = (subst P f q, (subst P e p, h))
All-Permᴰ P (Permᴰ.trans d f) h = All-Permᴰ P f (All-Permᴰ P d h)

length-exchange : (x : ℤ) (ys : List ℤ) → length (exchange x ys).1 ≡ length ys
unfolding exchange
length-exchange x [] = refl
length-exchange x (y ∷ ys) = elim (Bool-cases (ltb_ℤ y x)) [
  | inl e ↦ rw (e, exchange) (ap suc (length-exchange y ys))
  | inr e ↦ rw (e, exchange) (ap suc (length-exchange x ys))
]

exchange_sort-Permᴰ : (n : ℕ) (xs : List ℤ) → Permᴰ xs (exchange_sort n xs)
unfolding exchange_sort
exchange_sort-Permᴰ n [] = Permᴰ.nil
exchange_sort-Permᴰ zero (x ∷ xs) = Permᴰ_refl (x ∷ xs)
exchange_sort-Permᴰ (suc n) (x ∷ xs) =
    Permᴰ.trans (exchange-Permᴰ x xs) (Permᴰ.cons refl (exchange_sort-Permᴰ n (exchange x xs).1))

abbrev pub IsSorted : List ℤ → Type 0
IsSorted [] = Unit
IsSorted (x ∷ xs) = AtLeast x xs × IsSorted xs

exchange_sort-IsSorted : (n : ℕ) (xs : List ℤ) → length xs ≤ n → IsSorted (exchange_sort n xs)
unfolding exchange_sort
exchange_sort-IsSorted n [] h = tt
exchange_sort-IsSorted zero (x ∷ xs) h = absurd (omega arith)
exchange_sort-IsSorted (suc n) (x ∷ xs) h =
    let rest = (exchange x xs).1 in
    (
      All-Permᴰ (λ y. leb_ℤ (exchange x xs).0 y ≡ true) (exchange_sort-Permᴰ n rest)
          (exchange-AtLeast x xs).1,
      exchange_sort-IsSorted n rest (omega (arith, length-exchange x xs)),
    )

module _ (R : Redis) where
  -- A list of the banned users that the server gives has their ids in ascending order, and it has the
  -- ids of exactly the members that are numbers, each as often as it is a member.
  pub list_banned_users-IsSorted :
      (s : R.State) (ids : List ℤ)
      → list_banned_users R s ≡ some ids
      → IsSorted ids × Permᴰ (parsed_ids (R.members banned_users_key s)) ids
  unfolding list_banned_users
  list_banned_users-IsSorted s ids h = elim (Option-cases (R.smembers banned_users_key s)) [
    | inl e ↦ absurd (cc (rw (e, list_banned_users) at h))
    | inr (ms, e) ↦
        let out = parsed_ids ms in
        let same : exchange_sort (length out) out ≡ ids = cc (rw (e, list_banned_users) at h) in
        let members = R.smembers_lem banned_users_key s ms e in
        (
          subst IsSorted same (exchange_sort-IsSorted (length out) out (omega arith)),
          subst (λ xs. Permᴰ xs ids) (ap parsed_ids members)
              (subst (λ xs. Permᴰ out xs) same (exchange_sort-Permᴰ (length out) out)),
        )
  ]

  -- After an answered ban or unbanning, an answered check tells the user's new state, and what it
  -- tells of another user is that user's membership before. The ids are of int64.
  pub is_user_banned-ban :
      (user other : ℤ) (s : R.State) (b : Bool)
      → IsInt64 user
      → IsInt64 other
      → other ≢ user
      → ((ban_user R user s).0 ≡ true
          → (is_user_banned R user (ban_user R user s).1 ≡ some b → b ≡ true)
            × (is_user_banned R other (ban_user R user s).1 ≡ some b
                → b ≡ contains (R.members banned_users_key s) (format_int other)))
        × ((n : Bool)
            → (unban_user R user s).0 ≡ some n
            → (is_user_banned R user (unban_user R user s).1 ≡ some b → b ≡ false)
              × (is_user_banned R other (unban_user R user s).1 ≡ some b
                  → b ≡ contains (R.members banned_users_key s) (format_int other)))
  unfolding ban_user unban_user is_user_banned
  is_user_banned-ban user other s b iu io ne = (
    (λ ok.
        let law = λ (w : Bytes). R.sadd_lem banned_users_key (format_int user) w s ok in
        (
          (λ h.
              R.sismember_lem banned_users_key (format_int user) _ b h
              ∙ (law (format_int other)).0),
          (λ h.
              R.sismember_lem banned_users_key (format_int other) _ b h
              ∙ (law (format_int other)).1 apart),
        )),
    (λ n ok. elim (Option-cases (R.srem banned_users_key (format_int user) s).0) [
      | inl e ↦ absurd (cc (rw e at ok))
      | inr (k, e) ↦
          let law = R.srem_lem banned_users_key (format_int user) (format_int other) s k e in
          (
            (λ h. R.sismember_lem banned_users_key (format_int user) _ b h ∙ law.0),
            (λ h. R.sismember_lem banned_users_key (format_int other) _ b h ∙ law.1 apart),
          )
    ]),
  )
    where
      apart : format_int other ≢ format_int user
      apart e = ne (format_int-injective other user io iu e)
