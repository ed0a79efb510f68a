-- ===== src/Runtime/Lookup.antt =====
-- The look-ups of the registry: go/internal/runtime/registry.go.
use saveinator.Prelude.{List, [], ◌∷◌, Option, none, some, Bytes, eq_bytes, if◌then◌else◌}
use saveinator.Runtime.Setting.{Setting}
use saveinator.Runtime.Registry.{settings}

-- `byKey`, filled in order: of two settings with one key the later stays.
unfoldable pub lookup_in : List Setting → Bytes → Option Setting
lookup_in [] k = none
lookup_in (s ∷ ss) k = elim (lookup_in ss k) [
  | none ↦ if eq_bytes k s.redis_key then some s else none
  | some t ↦ some t
]

unfoldable pub lookup : Bytes → Option Setting
unfolding lookup_in
lookup = lookup_in settings

unfoldable pub service_settings_in : List Setting → Bytes → List Setting
service_settings_in [] service = []
service_settings_in (s ∷ ss) service =
    let rest = service_settings_in ss service in
    if eq_bytes s.service service then s ∷ rest else rest

unfoldable pub service_settings : Bytes → List Setting
unfolding service_settings_in
service_settings = service_settings_in settings
