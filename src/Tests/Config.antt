-- ===== src/Tests/Config.antt =====
-- A configuration from a small environment.
use saveinator.Prelude.{◌≡◌, refl, false, ◌&&◌, not, codes, eq_bytes, is_empty, [], if◌then◌else◌}
use saveinator.Text.Search.{has_prefix}
use saveinator.Runtime.Config.Load.{Environment, env_bool, loaded, load, prepared, read_settings}
use saveinator.Runtime.Config.Load.Required.{load-loaded, enabled_by}

-- the two tokens that are required
abbrev small : Environment
small key =
    if eq_bytes key (codes "BOT_TOKEN")
    then codes "b"
    else if eq_bytes key (codes "INTERNAL_API_TOKEN")
    then codes "i"
    else []

small_lem : load small ≡ loaded (prepared small)
unfolding load read_settings env_bool eq_bytes
small_lem = refl

load-loaded_example :
    ((prepared small).spotify_enabled
      ≡ enabled_by
          (is_empty (small (codes "SPOTIFY_ENABLED")))
          (not (is_empty (small (codes "SPOTIFY_CLIENT_ID")))
            && not (is_empty (small (codes "SPOTIFY_CLIENT_SECRET"))))
          (env_bool small (codes "SPOTIFY_ENABLED") false))
    × ((prepared small).yandex_music_enabled
        ≡ enabled_by
            (is_empty (small (codes "YANDEX_MUSIC_ENABLED")))
            (not (is_empty (small (codes "YANDEX_MUSIC_ACCESS_TOKEN"))))
            (env_bool small (codes "YANDEX_MUSIC_ENABLED") false))
    × (has_prefix (prepared small).database_url (codes "postgresql://") ≡ false)
load-loaded_example = load-loaded small (prepared small) small_lem
