-- ===== src/Dash/Server/Reach.antt =====
-- Whatever the requests and their order, a guarded handler runs only for an administrator.
use saveinator.Prelude.{
  ℕ, ◌⊎◌, ◌≡◌, refl, ap, sym, ◌∙◌, Bool, true, false, not, List, [], ◌∷◌, Option, none, some, arith,
  Bytes, codes, eq_bytes, is_empty, ℤ, pos, leb_ℤ, keep, All, Bool-cases, Option-cases, inl, inr,
}
use saveinator.Text.Decimal.{parse_int}
use saveinator.Dash.Sessions.{
  SessionEntry, SessionManager, find, expired, revoke, cleanup, issue, lookup,
}
use saveinator.Dash.Sessions.Laws.{live, lookup-live}
use saveinator.Dash.Auth.{is_stale, Refusal, Verdict, refused, claimed, signature, telegram_auth}
use saveinator.Dash.Auth.Sound.{telegram_auth_sound}
use saveinator.Dash.Server.{
  is_admin, auth_user, require_auth, handle_auth_logout, handle_auth_login, first_values,
  form_value, form_keys, admit,
}

Verdict-cases :
    (v : Verdict)
    → ((why : Refusal) × (v ≡ refused why))
      ⊎ ((id : ℤ) × (username : Bytes) × (first : Bytes) × (v ≡ claimed id username first))
Verdict-cases (refused why) = inl (why, refl)
Verdict-cases (claimed id username first) = inr (id, username, first, refl)

-- the states that the requests lead to from the empty manager
pub data Request : Type 0 where
  login : Option (List (Bytes × List Bytes)) → ℕ → Option Bytes → ℕ → Request
  logout : Option Bytes → Request
  guarded : Option Bytes → ℕ → Request

module _ (sha256 : Bytes → Bytes) (hmac : Bytes → Bytes → Bytes) (telegram_token : Bytes)
    (admin_ids : List ℤ) where
  unfoldable pub serve : Request → SessionManager → SessionManager
  serve (login post unix drawn now) m =
      (handle_auth_login sha256 hmac telegram_token admin_ids post unix drawn now m).1
  serve (logout cookie) m = (handle_auth_logout cookie m).1
  serve (guarded cookie now) m = (require_auth cookie now m).1

  pub data Reach : SessionManager → Type 0 where
    start : Reach []
    next : {m : SessionManager} → Reach m → (q : Request) → Reach (serve q m)

  abbrev pub IsAdmins : SessionManager → Type 0
  IsAdmins = All (λ (p : Bytes × SessionEntry). is_admin admin_ids p.1.user_id ≡ true)

  IsAdmins-keep :
      (p : Bytes × SessionEntry → Bool) (m : SessionManager) → IsAdmins m → IsAdmins (keep p m)
  IsAdmins-keep p [] h = tt
  IsAdmins-keep p (x ∷ m) (a, h) = elim (Bool-cases (p x)) [
    | inl y ↦ rw (y, keep) (a, IsAdmins-keep p m h)
    | inr n ↦ rw (n, keep) (IsAdmins-keep p m h)
  ]

  revoke-IsAdmins : (token : Bytes) (m : SessionManager) → IsAdmins m → IsAdmins (revoke token m)
  unfolding revoke
  revoke-IsAdmins token m h =
      IsAdmins-keep (λ (p : Bytes × SessionEntry). not (eq_bytes token p.0)) m h

  lookup-IsAdmins :
      (token : Bytes) (now : ℕ) (m : SessionManager) → IsAdmins m → IsAdmins (lookup token now m).1
  unfolding lookup
  lookup-IsAdmins token now m h = elim (Option-cases (find token m)) [
    | inl e ↦ rw (e, lookup) h
    | inr (s, e) ↦ elim (Bool-cases (expired now s)) [
      | inl x ↦ rw (e, x, lookup) (revoke-IsAdmins token m h)
      | inr x ↦ rw (e, x, lookup) h
    ]
  ]

  auth_user-IsAdmins :
      (cookie : Option Bytes) (now : ℕ) (m : SessionManager)
      → IsAdmins m
      → IsAdmins (auth_user cookie now m).1
  unfolding auth_user
  auth_user-IsAdmins none now m h = h
  auth_user-IsAdmins (some value) now m h = elim (Bool-cases (is_empty value)) [
    | inl e ↦ rw (e, auth_user) h
    | inr e ↦ rw (e, auth_user) (lookup-IsAdmins value now m h)
  ]

  issue-IsAdmins :
      (user : ℤ) (username first : Bytes) (drawn : Option Bytes) (now : ℕ) (m : SessionManager)
      → is_admin admin_ids user ≡ true
      → IsAdmins m
      → IsAdmins (issue user username first drawn now m).1
  unfolding issue cleanup
  issue-IsAdmins user username first none now m a h = h
  issue-IsAdmins user username first (some token) now m a h = (
    a,
    revoke-IsAdmins token _
        (IsAdmins-keep (λ (p : Bytes × SessionEntry). not (expired now p.1)) m h),
  )

  admit-IsAdmins :
      (v : Verdict) (drawn : Option Bytes) (now : ℕ) (m : SessionManager)
      → IsAdmins m
      → IsAdmins (admit sha256 hmac telegram_token admin_ids v drawn now m).1
  unfolding issue
  admit-IsAdmins (refused why) drawn now m h = h
  admit-IsAdmins (claimed user username first) none now m h =
      elim (Bool-cases (is_admin admin_ids user)) [
        | inl a ↦ rw a (issue-IsAdmins user username first none now m a h)
        | inr a ↦ rw a h
      ]
  admit-IsAdmins (claimed user username first) (some token) now m h =
      elim (Bool-cases (is_admin admin_ids user)) [
        | inl a ↦ rw a (issue-IsAdmins user username first (some token) now m a h)
        | inr a ↦ rw a h
      ]

  serve-IsAdmins : (q : Request) (m : SessionManager) → IsAdmins m → IsAdmins (serve q m)
  unfolding serve handle_auth_login handle_auth_logout require_auth
  serve-IsAdmins (login none unix drawn now) m h = h
  serve-IsAdmins (login (some post) unix drawn now) m h = admit-IsAdmins _ drawn now m h
  serve-IsAdmins (logout none) m h = h
  serve-IsAdmins (logout (some value)) m h = revoke-IsAdmins value m h
  serve-IsAdmins (guarded cookie now) m h = auth_user-IsAdmins cookie now m h

  Reach-IsAdmins : {m : SessionManager} → Reach m → IsAdmins m
  Reach-IsAdmins start = tt
  Reach-IsAdmins (next {m} r q) = serve-IsAdmins q m (Reach-IsAdmins r)

  find-IsAdmins :
      (token : Bytes) (m : SessionManager) (e : SessionEntry)
      → IsAdmins m
      → find token m ≡ some e
      → is_admin admin_ids e.user_id ≡ true
  unfolding find
  find-IsAdmins token [] e h f = cc
  find-IsAdmins token ((t, s) ∷ m) e (a, h) f = elim (Bool-cases (eq_bytes token t)) [
    | inl y ↦
        let same : s ≡ e = cc (rw (y, find) at f) in
        ap (λ (x : SessionEntry). is_admin admin_ids x.user_id) (sym same) ∙ a
    | inr n ↦ find-IsAdmins token m e h (rw (n, find) at f)
  ]

  live-some :
      (now : ℕ) (found : Option SessionEntry) (e : SessionEntry)
      → live now found ≡ some e
      → (found ≡ some e) × (expired now e ≡ false)
  live-some now none e h = cc
  live-some now (some s) e h = elim (Bool-cases (expired now s)) [
    | inl x ↦ absurd (cc (rw x at h))
    | inr x ↦ let same : s ≡ e = cc (rw x at h) in (ap some same, ap (expired now) (sym same) ∙ x)
  ]

  -- In every state that any sequence of logins, logouts and guarded requests leads to, a guarded handler
  -- runs only if the request's cookie names a session that has not expired and belongs to an
  -- administrator.
  pub require_auth-admin :
      {m : SessionManager} (cookie : Option Bytes) (now : ℕ)
      → Reach m
      → (require_auth cookie now m).0 ≡ true
      → (value : Bytes) × (e : SessionEntry) × (cookie ≡ some value)
        × (find value m ≡ some e)
        × (is_admin admin_ids e.user_id ≡ true)
        × (expired now e ≡ false)
  unfolding require_auth auth_user
  require_auth-admin none now r h = absurd cc
  require_auth-admin {m} (some value) now r h = elim (Bool-cases (is_empty value)) [
    | inl e ↦ absurd (cc (rw (e, require_auth) at h))
    | inr e ↦
        let h' = rw (e, require_auth) at h in
        elim (Option-cases (lookup value now m).0) [
          | inl missing ↦ absurd (cc (rw missing at h'))
          | inr (entry, found) ↦
              let (f, x) =
                live-some now (find value m) entry (sym (lookup-live value now m) ∙ found) in
              (value, entry, refl, f, find-IsAdmins value m entry (Reach-IsAdmins r) f, x)
        ]
  ]

  admit-issued :
      (id : ℤ) (username first : Bytes) (drawn : Option Bytes) (now : ℕ) (m : SessionManager)
      → is_admin admin_ids id ≡ true
      → (admit sha256 hmac telegram_token admin_ids
          (claimed id username first)
          drawn
          now
          m).0.status
        ≡ 200
      → ((token : Bytes) × (drawn ≡ some token))
        × ((admit sha256 hmac telegram_token admin_ids (claimed id username first) drawn now m).1
            ≡ (issue id username first drawn now m).1)
  unfolding issue
  admit-issued id username first none now m a h = absurd (omega (arith, rw a at h))
  admit-issued id username first (some token) now m a h = ((token, refl), rw a refl)

  -- A login that answers 200 was made with a form that is signed under the bot's token, whose date is a
  -- number that is not stale, and whose id is the positive number of an administrator; a token was
  -- drawn, and the sessions behind it are those with one issued for this id, under the form's names.
  pub handle_auth_login_sound :
      (post : List (Bytes × List Bytes)) (unix : ℕ) (drawn : Option Bytes) (now : ℕ)
      (m : SessionManager)
      → (handle_auth_login sha256 hmac telegram_token admin_ids
          (some post)
          unix
          drawn
          now
          m).0.status
        ≡ 200
      → (id : ℤ) × (form_value (first_values post) (codes "hash")
          ≡ signature sha256 hmac telegram_token
              (form_value (first_values post))
              (form_keys (first_values post)))
        × (parse_int (form_value (first_values post) (codes "id")) ≡ some id)
        × (leb_ℤ id (pos 0) ≡ false)
        × (is_admin admin_ids id ≡ true)
        × ((date : ℤ) × (parse_int (form_value (first_values post) (codes "auth_date")) ≡ some date)
            × (is_stale unix date ≡ false))
        × ((token : Bytes) × (drawn ≡ some token))
        × ((handle_auth_login sha256 hmac telegram_token admin_ids (some post) unix drawn now m).1
            ≡ (issue id
                (form_value (first_values post) (codes "username"))
                (form_value (first_values post) (codes "first_name"))
                drawn
                now
                m).1)
  unfolding handle_auth_login
  handle_auth_login_sound post unix drawn now m h =
      let form = first_values post in
      elim (Verdict-cases
        (telegram_auth sha256 hmac telegram_token (form_value form) (form_keys form) unix)) [
          | inl (why, e) ↦ absurd (omega (arith, rw (e, handle_auth_login) at h))
          | inr (id, username, first, e) ↦ elim (Bool-cases (is_admin admin_ids id)) [
            | inr a ↦ absurd (omega (arith, rw (e, a, handle_auth_login) at h))
            | inl a ↦
                let (sig, dated, named, positive, by_name, by_first) =
                  telegram_auth_sound sha256 hmac telegram_token (form_value form) (form_keys form)
                    unix id username first e in
                let (token, stored) =
                  admit-issued id username first drawn now m a (rw (e, handle_auth_login) at h) in
                (
                  id,
                  sig,
                  named,
                  positive,
                  a,
                  dated,
                  token,
                  rw (e, by_name, by_first, handle_auth_login) (rw (by_name, by_first) at stored),
                )
          ]
        ]
