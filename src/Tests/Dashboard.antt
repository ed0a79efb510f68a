-- ===== src/Tests/Dashboard.antt =====
-- The dashboard's sessions and logins at concrete requests. The two digests are stand-ins.
use mathlib.Core.List.{Permᴰ}
use saveinator.Prelude.{
  ◌≡◌, refl, true, false, List, [], ◌∷◌, ◌++◌, some, Bytes, codes, eq_bytes, ℤ, pos, leb_ℤ,
}
use saveinator.Text.Split.{join}
use saveinator.Text.Decimal.{parse_int, magnitude, signed}
use saveinator.Sorting.{sort, insert, leb_bytes}
use saveinator.Dash.Sessions.{
  SessionEntry, SessionManager, find, expired, issue, lookup, revoke, cleanup,
}
use saveinator.Dash.Auth.{is_stale, hex_encode, signed_keys, check_string, signature, telegram_auth}
use saveinator.Dash.Auth.Order.{telegram_auth-order}
use saveinator.Dash.Server.{
  is_admin, first_values, form_value, form_keys, auth_user, require_auth, handle_auth_login,
}
use saveinator.Dash.Server.Reach.{
  login, serve, start, next, require_auth-admin, handle_auth_login_sound,
}

abbrev digest : Bytes → Bytes
digest s = 1 ∷ []

abbrev mac : Bytes → Bytes → Bytes
mac k s = 171 ∷ []

abbrev post : List (Bytes × List Bytes)
post =
    (codes "id", codes "7" ∷ [])
    ∷ (codes "hash", codes "ab" ∷ [])
    ∷ (codes "auth_date", codes "100" ∷ [])
    ∷ (codes "username", codes "op" ∷ [])
    ∷ []

abbrev form : Bytes → Bytes
form = form_value (first_values post)

abbrev keys : List Bytes
keys = form_keys (first_values post)

abbrev admins : List ℤ
admins = pos 7 ∷ []

abbrev signed_in : SessionManager
signed_in = serve digest mac (codes "bot") admins (login (some post) 150 (some (codes "s")) 1000) []

telegram_auth-order_example :
    (check_string form (codes "id" ∷ codes "username" ∷ [])
      ≡ check_string form (codes "username" ∷ codes "id" ∷ []))
    × (telegram_auth digest mac (codes "bot") form (codes "id" ∷ codes "username" ∷ []) 150
        ≡ telegram_auth digest mac (codes "bot") form (codes "username" ∷ codes "id" ∷ []) 150)
telegram_auth-order_example =
    telegram_auth-order digest mac (codes "bot") form (codes "id" ∷ codes "username" ∷ [])
      (codes "username" ∷ codes "id" ∷ []) 150 (Permᴰ.swap refl refl)

-- The sorted lines of the signed fields.
check_string_lem :
    check_string form keys
    ≡ codes "auth_date=100" ++ 10 ∷ (codes "id=7" ++ 10 ∷ codes "username=op")
unfolding check_string signed_keys sort insert leb_bytes join form_value first_values eq_bytes
check_string_lem = refl

login_lem :
    (handle_auth_login digest mac
      (codes "bot")
      admins
      (some post)
      150
      (some (codes "s"))
      1000
      []).0.status
    ≡ 200
unfolding handle_auth_login issue is_admin telegram_auth signature hex_encode check_string is_stale
    form_value first_values eq_bytes parse_int magnitude signed
login_lem = refl

handle_auth_login_sound_example :
    (id : ℤ) × (form_value (first_values post) (codes "hash")
      ≡ signature digest mac
          (codes "bot")
          (form_value (first_values post))
          (form_keys (first_values post)))
    × (parse_int (form (codes "id")) ≡ some id)
    × (leb_ℤ id (pos 0) ≡ false)
    × (is_admin admins id ≡ true)
    × ((date : ℤ) × (parse_int (form (codes "auth_date")) ≡ some date)
        × (is_stale 150 date ≡ false))
    × ((token : Bytes) × (some (codes "s") ≡ some token))
    × ((handle_auth_login digest mac
          (codes "bot")
          admins
          (some post)
          150
          (some (codes "s"))
          1000
          []).1
        ≡ (issue id
            (form (codes "username"))
            (form (codes "first_name"))
            (some (codes "s"))
            1000
            []).1)
handle_auth_login_sound_example =
    handle_auth_login_sound digest mac (codes "bot") admins post 150 (some (codes "s")) 1000 []
      login_lem

guarded_lem : (require_auth (some (codes "s")) 2000 signed_in).0 ≡ true
unfolding require_auth auth_user lookup find serve handle_auth_login issue revoke cleanup is_admin
    telegram_auth signature hex_encode check_string is_stale form_value first_values eq_bytes
    parse_int magnitude signed
guarded_lem = refl

require_auth-admin_example :
    (value : Bytes) × (e : SessionEntry) × (some (codes "s") ≡ some value)
    × (find value signed_in ≡ some e)
    × (is_admin admins e.user_id ≡ true)
    × (expired 2000 e ≡ false)
require_auth-admin_example =
    require_auth-admin digest mac (codes "bot") admins (some (codes "s")) 2000
      (next start (login (some post) 150 (some (codes "s")) 1000)) guarded_lem
