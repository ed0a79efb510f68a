-- ===== src/Redisx/Client.antt =====
-- go/internal/redisx/client.go. A `Client` is its prefix; the connection is the section's parameter.
-- The token that `uuid.NewString` draws is an argument.
use saveinator.Prelude.{
  ℕ, ltb, Bool, true, false, List, [], ◌∷◌, ◌++◌, Option, none, some, Bytes, codes, eq_bytes,
  is_empty, length, take, ℤ, if◌then◌else◌,
}
use saveinator.Text.Split.{split_n2}
use saveinator.Text.Decimal.{format_int}
use saveinator.Redis.{Redis}

abbrev pub colon : ℕ
colon = b':'

pub record Client : Type 0 where
  pub prefix : Bytes

-- `WithPrefix` shares the connection.
unfoldable pub with_prefix : Client → Bytes → Client
with_prefix c prefix = record c { prefix = prefix }

unfoldable pub key : Client → Bytes → Bytes
key c base = if is_empty c.prefix then base else c.prefix ++ colon ∷ base

abbrev pub lock_prefix : Bytes
lock_prefix = codes "user_busy"

abbrev pub cancel_prefix : Bytes
cancel_prefix = codes "download:cancel"

-- fmt.Sprintf("%s:%d", lockPrefix, userID) under the prefix
unfoldable pub lock_key : Client → ℤ → Bytes
lock_key c user_id = key c (lock_prefix ++ colon ∷ format_int user_id)

-- fmt.Sprintf("%s:%s:%d:%s", cancelPrefix, scenario, userID, token) under the prefix
unfoldable pub cancel_key : Client → Bytes → ℤ → Bytes → Bytes
cancel_key c scenario user_id token =
    key c (cancel_prefix ++ colon ∷ (scenario ++ colon ∷ (format_int user_id ++ colon ∷ token)))

-- What a lock holds: `scenario + ":" + token`.
unfoldable pub lock_value : Bytes → Bytes → Bytes
lock_value scenario token = scenario ++ colon ∷ token

unfoldable pub dedup_key : Client → Bytes → Bytes
dedup_key c url_hash = key c (codes "dedup:" ++ take 12 url_hash)

pub data Acquired : Type 0 where
  acquired : Bytes → Acquired
  busy : Acquired
  failed : Acquired

pub record ActiveDownload : Type 0 where
  pub user_id : ℤ
  pub scenario : Bytes
  pub token : Bytes

-- `strings.SplitN(val, ":", 2)`: two parts, the second not empty.
unfoldable pub active_of_parts : ℤ → List Bytes → Option ActiveDownload
active_of_parts user_id (scenario ∷ (c ∷ token) ∷ []) =
    some (record { user_id = user_id; scenario = scenario; token = c ∷ token })
active_of_parts user_id _ = none

module _ (R : Redis) (c : Client) where
  unfoldable pub acquire_user_lock : ℤ → Bytes → Bytes → ℕ → R.State → Acquired × R.State
  acquire_user_lock user_id scenario token ttl s =
      let (reply, s') = R.setnx (lock_key c user_id) (lock_value scenario token) ttl s in
      (elim reply [ none ↦ failed | some ok ↦ if ok then acquired token else busy ], s')

  -- the Lua text of `releaseScript`: compare, then delete
  unfoldable pub release_script : Bytes → Bytes → R.State → ℕ × R.State
  release_script k v s = elim (R.text k s) [
    | none ↦ (0, s)
    | some held ↦ if eq_bytes held v then (1, R.removed k s) else (0, s)
  ]

  -- `true` is no error
  unfoldable pub release_user_lock : ℤ → Bytes → Bytes → R.State → Bool × R.State
  release_user_lock user_id scenario token s =
      let (reply, s') =
        R.eval (release_script (lock_key c user_id) (lock_value scenario token)) s in
      (elim reply [ none ↦ false | some n ↦ true ], s')

  unfoldable pub force_release_user_lock : ℤ → R.State → Bool × R.State
  force_release_user_lock user_id s = R.del (lock_key c user_id) s

  unfoldable pub allow_url_dedup : Bytes → ℕ → R.State → Option Bool × R.State
  allow_url_dedup url_hash window s =
      if ltb (length url_hash) 12
      then (some true, s)
      else R.setnx (dedup_key c url_hash) (codes "1") window s

  -- The outer `none` is an error, the inner one no download.
  unfoldable pub get_active_download : ℤ → R.State → Option (Option ActiveDownload)
  get_active_download user_id s = elim (R.get (lock_key c user_id) s) [
    | none ↦ none
    | some reply ↦ elim reply [
      | none ↦ some none
      | some val ↦ some (active_of_parts user_id (split_n2 colon val))
    ]
  ]

  unfoldable pub set_download_cancelled : Bytes → ℤ → Bytes → ℕ → R.State → Bool × R.State
  set_download_cancelled scenario user_id token ttl s =
      R.set (cancel_key c scenario user_id token) (codes "1") ttl s

  unfoldable pub is_download_cancelled : Bytes → ℤ → Bytes → R.State → Option Bool
  is_download_cancelled scenario user_id token s = R.exists (cancel_key c scenario user_id token) s

  -- The key of a release lock is not prefixed.
  unfoldable pub try_acquire_release_lock : Bytes → ℕ → R.State → Option Bool × R.State
  try_acquire_release_lock k ttl s = R.setnx k (codes "1") ttl s

  unfoldable pub release_release_lock : Bytes → R.State → Bool × R.State
  release_release_lock k s = R.del k s
