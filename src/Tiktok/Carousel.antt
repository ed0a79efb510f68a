-- ===== src/Tiktok/Carousel.antt =====
-- The button of a carousel's pictures and the session behind it: go/internal/tiktok/keyboard.go and
-- go/internal/tiktok/session.go. `encoding/json` is an argument.
pub mod RoundTrip
use saveinator.Prelude.{
  ℕ, ◌*◌, Bool, true, false, ◌&&◌, ◌||◌, not, List, [], ◌∷◌, ◌++◌, Option, none, some, Bytes, codes,
  eq_bytes, is_empty, ℤ, if◌then◌else◌, ◌>>=◌,
}
use saveinator.Text.Split.{split}
use saveinator.Text.Decimal.{format_int, parse_int}
use saveinator.Redis.{Redis}

abbrev pub colon : ℕ
colon = b':'

-- fmt.Sprintf("ttk:img:%d:%s", …)
unfoldable pub carousel_callback_data : ℤ → Bytes → Bytes
carousel_callback_data user_id token =
    codes "ttk" ++ (colon ∷ (codes "img" ++ (colon ∷ (format_int user_id ++ (colon ∷ token)))))

unfoldable pub carousel_of_parts : List Bytes → Option (ℤ × Bytes)
carousel_of_parts (tag ∷ kind ∷ id ∷ token ∷ []) =
    if not (eq_bytes tag (codes "ttk")) || not (eq_bytes kind (codes "img")) || is_empty token
    then none
    else (do user_id ← parse_int id; some (user_id, token))
carousel_of_parts _ = none

unfoldable pub parse_carousel_callback : Bytes → Option (ℤ × Bytes)
unfolding carousel_of_parts
parse_carousel_callback text = carousel_of_parts (split colon text)

pub record CarouselSession : Type 0 where
  pub user_id : ℤ
  pub url : Bytes
  pub chat_id : ℤ
  pub lang : Bytes
  pub title : Bytes
  pub author : Bytes
  pub token : Bytes

-- `sessionPrefix` and the token, and `sessionTTL` in seconds
unfoldable pub session_key : Bytes → Bytes
session_key token = codes "ttk_carousel" ++ (colon ∷ token)

abbrev pub session_ttl : ℕ
session_ttl = 15 * 60

-- `json.Marshal` and `json.Unmarshal` of a session; `none` is an error.
pub record Coding : Type 0 where
  pub marshal : CarouselSession → Option Bytes
  pub unmarshal : Bytes → Option CarouselSession

module _ (R : Redis) (J : Coding) where
  -- `false` is an error
  unfoldable pub save : CarouselSession → R.State → Bool × R.State
  save session r = elim (J.marshal session) [
    | none ↦ (false, r)
    | some body ↦ R.set (session_key session.token) body session_ttl r
  ]

  -- `none` is an error, `some none` no session
  unfoldable pub get : Bytes → R.State → Option (Option CarouselSession)
  get token r = elim (R.get (session_key token) r) [
    | none ↦ none
    | some none ↦ some none
    | some (some raw) ↦ elim (J.unmarshal raw) [ none ↦ none | some session ↦ some (some session) ]
  ]

  unfoldable pub delete : Bytes → R.State → Bool × R.State
  delete token r = R.del (session_key token) r
