-- ===== src/Dash/Sessions/Laws.antt =====
-- Issued sessions are found until they expire or are revoked.
use saveinator.Prelude.{
  ℕ, ◌+◌, ◌≤◌, ◌<◌, ◌≡◌, ◌≢◌, refl, ap, sym, ◌∙◌, Bool, true, not, [], ◌∷◌, Option, none, some,
  arith, Bytes, eq_bytes, eq_bytes_iff, eq_bytes_refl, ℤ, keep, if◌then◌else◌, Bool-cases,
  Option-cases, inl, inr,
}
use saveinator.Dash.Sessions.{
  SessionEntry, SessionManager, session_ttl, find, expired, revoke, cleanup, issue, lookup,
}

find-revoke_self : (token : Bytes) (m : SessionManager) → find token (revoke token m) ≡ none
unfolding find revoke
find-revoke_self token [] = refl
find-revoke_self token ((t, e) ∷ m) = ground (arith, find-revoke_self token m)

find-revoke_ne :
    (token other : Bytes) (m : SessionManager)
    → other ≢ token
    → find other (revoke token m) ≡ find other m
unfolding find revoke
find-revoke_ne token other [] ne = refl
find-revoke_ne token other ((t, e) ∷ m) ne = ground (
  arith,
  find-revoke_ne token other m ne,
  eq_bytes_iff token t,
  eq_bytes_iff other t,
  λ (p : token ≡ t) (q : other ≡ t). ne (q ∙ sym p),
)

-- what a look-up answers for an entry found
abbrev pub live : ℕ → Option SessionEntry → Option SessionEntry
live now none = none
live now (some e) = if expired now e then none else some e

pub lookup-live :
    (token : Bytes) (now : ℕ) (m : SessionManager)
    → (lookup token now m).0 ≡ live now (find token m)
unfolding lookup
lookup-live token now m = elim (Option-cases (find token m)) [
  | inl e ↦ rw (e, lookup) refl
  | inr (s, e) ↦ elim (Bool-cases (expired now s)) [
    | inl x ↦ rw (e, x, lookup) refl
    | inr x ↦ rw (e, x, lookup) refl
  ]
]

-- A revoked token is not found, and every other is found as before.
pub lookup-revoke :
    (token other : Bytes) (now : ℕ) (m : SessionManager)
    → ((lookup token now (revoke token m)).0 ≡ none)
      × (other ≢ token → (lookup other now (revoke token m)).0 ≡ (lookup other now m).0)
lookup-revoke token other now m = (
  lookup-live token now (revoke token m) ∙ ap (live now) (find-revoke_self token m),
  (λ ne.
      lookup-live other now (revoke token m)
      ∙ ap (live now) (find-revoke_ne token other m ne)
      ∙ sym (lookup-live other now m)),
)

-- no token stands twice
abbrev pub Distinct : SessionManager → Type 0
Distinct [] = Unit
Distinct ((t, e) ∷ m) = (find t m ≡ none) × Distinct m

find-keep :
    (p : Bytes × SessionEntry → Bool) (t : Bytes) (m : SessionManager)
    → find t m ≡ none
    → find t (keep p m) ≡ none
unfolding find
find-keep p t [] h = refl
find-keep p t ((u, e) ∷ m) h = ground (arith, find-keep p t m, h)

Distinct-keep :
    (p : Bytes × SessionEntry → Bool) (m : SessionManager) → Distinct m → Distinct (keep p m)
Distinct-keep p [] d = tt
Distinct-keep p ((t, e) ∷ m) (fresh, d) = elim (Bool-cases (p (t, e))) [
  | inl y ↦ rw (y, keep) (find-keep p t m fresh, Distinct-keep p m d)
  | inr n ↦ rw (n, keep) (Distinct-keep p m d)
]

live-cleanup :
    (other : Bytes) (now later : ℕ) (m : SessionManager)
    → Distinct m
    → now ≤ later
    → live later (find other (cleanup now m)) ≡ live later (find other m)
unfolding find cleanup
live-cleanup other now later [] d h = refl
live-cleanup other now later ((t, e) ∷ m) (fresh, d) h = elim (Bool-cases (eq_bytes other t)) [
  | inl y ↦
      let same : other ≡ t = (eq_bytes_iff other t).0 y in
      let gone : find other (cleanup now m) ≡ none =
        rw same (find-keep (λ (p : Bytes × SessionEntry). not (expired now p.1)) t m fresh) in
      elim (Bool-cases (expired now e)) [
        | inl x ↦ rw (x, y, gone, still_expired e x) refl
        | inr x ↦ rw (x, y) refl
      ]
  | inr n ↦ ground (arith, n, live-cleanup other now later m d h)
]
  where
    still_expired : (s : SessionEntry) → expired now s ≡ true → expired later s ≡ true
    still_expired s x = ground arith

pub Distinct-issue :
    (user : ℤ) (username first_name token : Bytes) (now : ℕ) (m : SessionManager)
    → Distinct m
    → Distinct (issue user username first_name (some token) now m).1
unfolding issue revoke cleanup
Distinct-issue user username first_name token now m d = (
  find-revoke_self token (cleanup now m),
  Distinct-keep (λ (p : Bytes × SessionEntry). not (eq_bytes token p.0)) _
      (Distinct-keep (λ (p : Bytes × SessionEntry). not (expired now p.1)) m d),
)

-- From its issue on, a session is found with what it was issued for until its lifetime is over,
-- and not after that; every other token is found as it would be without the issue. No token
-- stands twice in the manager.
pub lookup-issue :
    (user : ℤ) (username first_name token other : Bytes) (now later : ℕ) (m : SessionManager)
    → Distinct m
    → now ≤ later
    → (later ≤ now + session_ttl
        → (lookup token later (issue user username first_name (some token) now m).1).0
          ≡ some (record {
            user_id = user;
            username = username;
            first_name = first_name;
            expires = now + session_ttl;
          }))
      × (now + session_ttl < later
          → (lookup token later (issue user username first_name (some token) now m).1).0 ≡ none)
      × (other ≢ token
          → (lookup other later (issue user username first_name (some token) now m).1).0
            ≡ (lookup other later m).0)
lookup-issue user username first_name token other now later m d h = (
  (λ before. lookup-live token later _ ∙ ap (live later) found ∙ ground arith),
  (λ after. lookup-live token later _ ∙ ap (live later) found ∙ ground arith),
  (λ ne.
      lookup-live other later _
      ∙ ap (live later) (kept ne)
      ∙ live-cleanup other now later m d h
      ∙ sym (lookup-live other later m)),
)
  where
    found :
        find token (issue user username first_name (some token) now m).1
        ≡ some (record {
          user_id = user;
          username = username;
          first_name = first_name;
          expires = now + session_ttl;
        })
    found = unfold issue in unfold find in rw (eq_bytes_refl token) refl

    kept :
        other ≢ token
        → find other (issue user username first_name (some token) now m).1
          ≡ find other (cleanup now m)
    kept ne =
        unfold issue in
        unfold find in
        ground (arith, find-revoke_ne token other (cleanup now m) ne, eq_bytes_iff other token)
