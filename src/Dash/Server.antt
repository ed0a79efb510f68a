-- ===== src/Dash/Server.antt =====
-- Sessions behind the dashboard's requests: the handlers of go/internal/dash/auth.go and
-- `parseAdminIDs` of server.go. A handler's answer is its status and what it does to the cookie; the
-- form parsed by net/http, the token drawn and the times are arguments.
pub mod Reach
use saveinator.Prelude.{
  ℕ, Bool, true, false, ◌||◌, List, [], ◌∷◌, Option, none, some, Bytes, codes, eq_bytes, is_empty,
  ℤ, pos, eq_ℤ, ltb_ℤ, map, if◌then◌else◌,
}
use saveinator.Text.Split.{split}
use saveinator.Text.Trim.{trim_space}
use saveinator.Text.Decimal.{parse_int}
use saveinator.Dash.Sessions.{SessionEntry, SessionManager, issue, lookup, revoke}
use saveinator.Dash.Auth.{Verdict, refused, claimed, telegram_auth}

-- a number that is no positive `int64` is dropped
abbrev positive_ids : Option ℤ → List ℤ → List ℤ
positive_ids none ids = ids
positive_ids (some n) ids = if ltb_ℤ (pos 0) n then n ∷ ids else ids

abbrev ids_of_parts : List Bytes → List ℤ
ids_of_parts [] = []
ids_of_parts (part ∷ parts) =
    let ids = ids_of_parts parts in
    if is_empty (trim_space part) then ids else positive_ids (parse_int (trim_space part)) ids

unfoldable pub parse_admin_ids : Bytes → List ℤ
parse_admin_ids raw = ids_of_parts (split b',' raw)

unfoldable pub is_admin : List ℤ → ℤ → Bool
is_admin [] user_id = false
is_admin (id ∷ ids) user_id = eq_ℤ id user_id || is_admin ids user_id

pub data Cookie : Type 0 where
  unchanged : Cookie
  session : Bytes → Cookie
  cleared : Cookie

pub record Answer : Type 0 where
  pub status : ℕ
  pub cookie : Cookie

abbrev status_only : ℕ → Answer
status_only n = record { status = n; cookie = unchanged }

-- The first value of every field, in the order in which the form is walked.
abbrev pub Form : Type 0
Form = List (Bytes × Bytes)

unfoldable pub first_values : List (Bytes × List Bytes) → Form
first_values [] = []
first_values ((k, []) ∷ post) = first_values post
first_values ((k, v ∷ vs) ∷ post) = (k, v) ∷ first_values post

-- `form[k]`
unfoldable pub form_value : Form → Bytes → Bytes
form_value [] k = []
form_value ((j, v) ∷ form) k = let rest = form_value form k in if eq_bytes j k then v else rest

abbrev pub form_keys : Form → List Bytes
form_keys = map (λ (p : Bytes × Bytes). p.0)

-- The cookie's value, where there is one.
unfoldable pub auth_user : Option Bytes → ℕ → SessionManager → Option SessionEntry × SessionManager
auth_user none now m = (none, m)
auth_user (some value) now m = if is_empty value then (none, m) else lookup value now m

-- Whether the handler behind it runs; where it does not, the answer is 401.
unfoldable pub require_auth : Option Bytes → ℕ → SessionManager → Bool × SessionManager
require_auth cookie now m =
    let (user, m') = auth_user cookie now m in (elim user [ none ↦ false | some e ↦ true ], m')

-- The user that the answer names, where the session is valid.
unfoldable pub handle_auth_status :
    Option Bytes → ℕ → SessionManager → Option SessionEntry × SessionManager
unfolding auth_user
handle_auth_status cookie now m = auth_user cookie now m

unfoldable pub handle_auth_logout : Option Bytes → SessionManager → Answer × SessionManager
handle_auth_logout cookie m = (
  record { status = 200; cookie = cleared },
  elim cookie [ none ↦ m | some value ↦ revoke value m ],
)

module _ (sha256 : Bytes → Bytes) (hmac : Bytes → Bytes → Bytes) (telegram_token : Bytes)
    (admin_ids : List ℤ) where
  abbrev issued : Option Bytes × SessionManager → Answer × SessionManager
  issued (none, m) = (status_only 500, m)
  issued (some token, m) = (record { status = 200; cookie = session token }, m)

  abbrev pub admit : Verdict → Option Bytes → ℕ → SessionManager → Answer × SessionManager
  admit (refused why) drawn now m = (status_only 401, m)
  admit (claimed user_id username first_name) drawn now m =
      if is_admin admin_ids user_id
      then issued (issue user_id username first_name drawn now m)
      else (status_only 403, m)

  -- `none` is a body that `ParseForm` refuses.
  unfoldable pub handle_auth_login :
      Option (List (Bytes × List Bytes))
      → ℕ
      → Option Bytes
      → ℕ
      → SessionManager
      → Answer × SessionManager
  handle_auth_login none unix drawn now m = (status_only 400, m)
  handle_auth_login (some post) unix drawn now m =
      let form = first_values post in
      admit (telegram_auth sha256 hmac telegram_token (form_value form) (form_keys form) unix) drawn
        now m
