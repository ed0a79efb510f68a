-- ===== src/Runtime/Config/Load/Required.antt =====
-- When a configuration is loaded, and what holds of it.
use saveinator.Prelude.{
  ◌≡◌, ◌≢◌, ◌⊎◌, refl, sym, ap, ◌∙◌, Bool, true, false, ◌&&◌, not, arith, Bytes, codes, is_empty,
  Bool-cases, inl, inr, if◌then◌else◌,
}
use saveinator.Text.Search.{has_prefix}
use saveinator.Text.Trim.{trim_space}
use saveinator.Runtime.Config.{Settings}
use saveinator.Runtime.Config.Load.{
  Environment, env_bool, normalize_postgres_url, read_settings, enable_spotify, enable_yandex,
  prepared, with_url, Loaded, loaded, missing_bot_token, missing_internal_token, load,
}

-- A configuration is refused exactly without a bot token, or, with one, if the download API is enabled
-- without its token, each with its own error; otherwise the prepared settings are
-- loaded.
load-cases :
    (E : Environment)
    → ((is_empty (E (codes "BOT_TOKEN")) ≡ true) × (load E ≡ missing_bot_token))
      ⊎ (((is_empty (E (codes "BOT_TOKEN")) ≡ false)
            × (env_bool E (codes "DOWNLOAD_API_ENABLED") true ≡ true)
            × (is_empty (E (codes "INTERNAL_API_TOKEN")) ≡ true)
            × (load E ≡ missing_internal_token))
          ⊎ ((is_empty (E (codes "BOT_TOKEN")) ≡ false)
              × ((env_bool E (codes "DOWNLOAD_API_ENABLED") true ≡ false)
                  ⊎ (is_empty (E (codes "INTERNAL_API_TOKEN")) ≡ false))
              × (load E ≡ loaded (prepared E))))
unfolding load read_settings
load-cases E = elim (Bool-cases (is_empty (E (codes "BOT_TOKEN")))) [
  | inl e ↦ inl (e, rw (e, load))
  | inr e ↦ elim (Bool-cases (env_bool E (codes "DOWNLOAD_API_ENABLED") true)) [
    | inr e1 ↦ inr (inr (e, inl e1, rw (e, e1, load)))
    | inl e1 ↦ elim (Bool-cases (is_empty (E (codes "INTERNAL_API_TOKEN")))) [
      | inl e2 ↦ inr (inl (e, e1, e2, rw (e, e1, e2, load)))
      | inr e2 ↦ inr (inr (e, inr e2, rw (e, e1, e2, load)))
    ]
  ]
]

abbrev settings_or : Settings → Loaded → Settings
settings_or s (loaded t) = t
settings_or s _ = s

loaded-injective : {s t : Settings} → loaded s ≡ loaded t → s ≡ t
loaded-injective {s} h = ap (settings_or s) h

no_bot_token : (s : Settings) → missing_bot_token ≢ loaded s
no_bot_token s h = cc

no_internal_token : (s : Settings) → missing_internal_token ≢ loaded s
no_internal_token s h = cc

load-prepared : (E : Environment) (s : Settings) → load E ≡ loaded s → prepared E ≡ s
load-prepared E s h = elim (load-cases E) [
  | inl (_, e) ↦ absurd (no_bot_token s (sym e ∙ h))
  | inr (inl (_, _, _, e)) ↦ absurd (no_internal_token s (sym e ∙ h))
  | inr (inr (_, _, e)) ↦ loaded-injective (sym e ∙ h)
]

normalize-scheme :
    (raw : Bytes) → has_prefix (normalize_postgres_url raw) (codes "postgresql://") ≡ false
unfolding normalize_postgres_url has_prefix
normalize-scheme raw =
    elim (Bool-cases (has_prefix (trim_space raw) (codes "postgresql+asyncpg://"))) [
      | inl e ↦ rw (e, normalize_postgres_url)
      | inr e ↦ elim (Bool-cases (has_prefix (trim_space raw) (codes "postgresql://"))) [
        | inl e1 ↦ rw (e, e1, normalize_postgres_url)
        | inr e1 ↦ rw (e, e1, normalize_postgres_url) e1
      ]
    ]

enable_yandex-spotify :
    (E : Environment) (s : Settings)
    → ((enable_yandex E s).spotify_enabled ≡ s.spotify_enabled)
      × ((enable_yandex E s).database_url ≡ s.database_url)
unfolding enable_yandex
enable_yandex-spotify E s =
    elim (Bool-cases
      (not (is_empty s.yandex_music_access_token) && is_empty (E (codes "YANDEX_MUSIC_ENABLED")))) [
        | inl e ↦ rw (e, enable_yandex) (refl, refl)
        | inr e ↦ rw (e, enable_yandex) (refl, refl)
      ]

-- a service that its own credentials enable where its switch is unset
abbrev pub enabled_by : Bool → Bool → Bool → Bool
enabled_by unset credentials switch = if unset then credentials else switch

enable_yandex-yandex :
    (E : Environment) (s : Settings)
    → (enable_yandex E s).yandex_music_enabled ≡ (
        if not (is_empty s.yandex_music_access_token) && is_empty (E (codes "YANDEX_MUSIC_ENABLED"))
        then true
        else s.yandex_music_enabled)
unfolding enable_yandex
enable_yandex-yandex E s =
    elim (Bool-cases
      (not (is_empty s.yandex_music_access_token) && is_empty (E (codes "YANDEX_MUSIC_ENABLED")))) [
        | inl e ↦ rw (e, enable_yandex)
        | inr e ↦ rw (e, enable_yandex)
      ]

enable_spotify-fields :
    (E : Environment) (s : Settings)
    → ((enable_spotify E s).spotify_enabled ≡ (
        if not (is_empty s.spotify_client_id)
          && not (is_empty s.spotify_client_secret)
          && is_empty (E (codes "SPOTIFY_ENABLED"))
        then true
        else s.spotify_enabled))
      × ((enable_spotify E s).yandex_music_access_token ≡ s.yandex_music_access_token)
      × ((enable_spotify E s).yandex_music_enabled ≡ s.yandex_music_enabled)
      × ((enable_spotify E s).database_url ≡ s.database_url)
unfolding enable_spotify
enable_spotify-fields E s =
    elim (Bool-cases (
      not (is_empty s.spotify_client_id)
      && not (is_empty s.spotify_client_secret)
      && is_empty (E (codes "SPOTIFY_ENABLED")))) [
        | inl e ↦ rw (e, enable_spotify) (refl, refl, refl, refl)
        | inr e ↦ rw (e, enable_spotify) (refl, refl, refl, refl)
      ]

env_bool_unset :
    (E : Environment) (key : Bytes) (fallback : Bool)
    → is_empty (E key) ≡ true
    → env_bool E key fallback ≡ fallback
unfolding env_bool
env_bool_unset E key fallback h = rw (h, env_bool)

-- the two ways of writing the rule
gate :
    (id secret unset switch : Bool)
    → (unset ≡ true → switch ≡ false)
    → (if not id && not secret && unset then true else switch)
      ≡ enabled_by unset (not id && not secret) switch
gate id secret unset switch h = ground (arith, h)

gate_one :
    (token unset switch : Bool)
    → (unset ≡ true → switch ≡ false)
    → (if not token && unset then true else switch) ≡ enabled_by unset (not token) switch
gate_one token unset switch h = ground (arith, h)

prepared_spotify :
    (E : Environment)
    → (prepared E).spotify_enabled
      ≡ enabled_by
          (is_empty (E (codes "SPOTIFY_ENABLED")))
          (not (is_empty (E (codes "SPOTIFY_CLIENT_ID")))
            && not (is_empty (E (codes "SPOTIFY_CLIENT_SECRET"))))
          (env_bool E (codes "SPOTIFY_ENABLED") false)
unfolding prepared read_settings with_url
prepared_spotify E =
    (enable_yandex-spotify E (enable_spotify E (with_url (read_settings E)))).0
    ∙ (enable_spotify-fields E (with_url (read_settings E))).0
    ∙ gate _ _ _ _ (env_bool_unset E (codes "SPOTIFY_ENABLED") false)

prepared_yandex :
    (E : Environment)
    → (prepared E).yandex_music_enabled
      ≡ enabled_by
          (is_empty (E (codes "YANDEX_MUSIC_ENABLED")))
          (not (is_empty (E (codes "YANDEX_MUSIC_ACCESS_TOKEN"))))
          (env_bool E (codes "YANDEX_MUSIC_ENABLED") false)
unfolding prepared read_settings with_url
prepared_yandex E =
    let s = with_url (read_settings E) in
    let unset = is_empty (E (codes "YANDEX_MUSIC_ENABLED")) in
    let (_, token, switch, _) = enable_spotify-fields E s in
    enable_yandex-yandex E (enable_spotify E s)
    ∙ ap
        (λ t. if not (is_empty t) && unset then true else (enable_spotify E s).yandex_music_enabled)
        token
    ∙ ap (λ b. if not (is_empty s.yandex_music_access_token) && unset then true else b) switch
    ∙ gate_one _ _ _ (env_bool_unset E (codes "YANDEX_MUSIC_ENABLED") false)

-- Settings that are loaded have Spotify enabled as its switch says where that is set, and by both
-- credentials where it is not; Yandex Music likewise with its token; and the database's URL
-- does not begin with "postgresql://".
pub load-loaded :
    (E : Environment) (s : Settings)
    → load E ≡ loaded s
    → (s.spotify_enabled
        ≡ enabled_by
            (is_empty (E (codes "SPOTIFY_ENABLED")))
            (not (is_empty (E (codes "SPOTIFY_CLIENT_ID")))
              && not (is_empty (E (codes "SPOTIFY_CLIENT_SECRET"))))
            (env_bool E (codes "SPOTIFY_ENABLED") false))
      × (s.yandex_music_enabled
          ≡ enabled_by
              (is_empty (E (codes "YANDEX_MUSIC_ENABLED")))
              (not (is_empty (E (codes "YANDEX_MUSIC_ACCESS_TOKEN"))))
              (env_bool E (codes "YANDEX_MUSIC_ENABLED") false))
      × (has_prefix s.database_url (codes "postgresql://") ≡ false)
unfolding prepared with_url
load-loaded E s h =
    let same = load-prepared E s h in
    let base = with_url (read_settings E) in
    let (_, _, _, kept) = enable_spotify-fields E base in
    let url = (enable_yandex-spotify E (enable_spotify E base)).1 ∙ kept in
    (
      sym (ap (λ x. x.spotify_enabled) same) ∙ prepared_spotify E,
      sym (ap (λ x. x.yandex_music_enabled) same) ∙ prepared_yandex E,
      ap (λ u. has_prefix u (codes "postgresql://")) (sym (ap (λ x. x.database_url) same) ∙ url)
          ∙ normalize-scheme (read_settings E).database_url,
    )
