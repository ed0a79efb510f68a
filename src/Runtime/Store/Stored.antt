-- ===== src/Runtime/Store/Stored.antt =====
-- Setting a value and reading it.
use saveinator.Prelude.{
  ◌≡◌, ◌≢◌, ◌⊎◌, ap, sym, ◌∙◌, true, false, Option, none, some, Bytes, Option-cases, inl, inr,
}
use saveinator.Redis.{Redis}
use saveinator.Runtime.Setting.{Setting}
use saveinator.Runtime.Config.{Settings}
use saveinator.Runtime.Value.{Value}
use saveinator.Runtime.Lookup.{lookup}
use saveinator.Runtime.Check.{parse, serialise, deserialise}
use saveinator.Runtime.Default.{default_from_config}
use saveinator.Runtime.Store.{
  runtime_settings_key, runtime_delete, runtime_delete_all, current_value, set_value, reset,
  reset_all,
}
use saveinator.Runtime.Store.Laws.{deserialise-serialise}
use saveinator.Runtime.Store.Defaults.{lookup_sound}

module _ (R : Redis) (cfg : Option Settings) where
  abbrev pub stored_field : Bytes → R.State → Option Bytes
  stored_field k s = R.field runtime_settings_key k s

  -- What a setting's value is: what is stored, or the default where nothing is or nothing answers.
  current-stored :
      (def : Setting) (s : R.State) (raw : Bytes)
      → stored_field def.redis_key s ≡ some raw
      → (current_value R cfg def s ≡ deserialise raw def)
        ⊎ (R.hget runtime_settings_key def.redis_key s ≡ none)
  unfolding current_value
  current-stored def s raw h = elim (Option-cases (R.hget runtime_settings_key def.redis_key s)) [
    | inl e ↦ inr e
    | inr (v, e) ↦
        let value = R.hget_lem runtime_settings_key def.redis_key s v e ∙ h in
        inl (rw (e ∙ ap some value, current_value))
  ]

  current-missing :
      (def : Setting) (s : R.State)
      → stored_field def.redis_key s ≡ none
      → current_value R cfg def s ≡ default_from_config cfg def
  unfolding current_value
  current-missing def s h = elim (Option-cases (R.hget runtime_settings_key def.redis_key s)) [
    | inl e ↦ rw (e, current_value)
    | inr (v, e) ↦
        let value = R.hget_lem runtime_settings_key def.redis_key s v e ∙ h in
        rw (e ∙ ap some value, current_value)
  ]

  set_value_known :
      (k : Bytes) (v : Value) (def : Setting) (s : R.State)
      → lookup k ≡ some def
      → set_value R cfg k v s ≡ R.hset runtime_settings_key k (serialise v def) s
  unfolding set_value
  set_value_known k v def s found = rw (found, set_value)

  -- the same of a store whose field holds the written value
  current-serialised :
      (k raw : Bytes) (def : Setting) (s : R.State)
      → def.redis_key ≡ k
      → stored_field k s ≡ some (serialise (parse def raw) def)
      → (current_value R cfg def s ≡ parse def raw) ⊎ (R.hget runtime_settings_key k s ≡ none)
  current-serialised k raw def s key held =
      elim (current-stored def s (serialise (parse def raw) def)
        (ap (λ j. stored_field j s) key ∙ held)) [
          | inl e ↦ inl (e ∙ deserialise-serialise def raw)
          | inr e ↦ inr (ap (λ j. R.hget runtime_settings_key j s) (sym key) ∙ e)
        ]

  -- A value read from an administrator's text and set without an error is the current value behind
  -- that, unless the server does not answer the reading; and no other field of the settings changes.
  pub current-set_value :
      (k raw : Bytes) (def : Setting) (s : R.State)
      → lookup k ≡ some def
      → (set_value R cfg k (parse def raw) s).0 ≡ true
      → ((current_value R cfg def (set_value R cfg k (parse def raw) s).1 ≡ parse def raw)
          ⊎ (R.hget runtime_settings_key k (set_value R cfg k (parse def raw) s).1 ≡ none))
        × ((j : Bytes)
            → j ≢ k
            → stored_field j (set_value R cfg k (parse def raw) s).1 ≡ stored_field j s)
  current-set_value k raw def s found ok =
      let step = set_value_known k (parse def raw) def s found in
      let text = serialise (parse def raw) def in
      let ok' = rw step at ok in
      rw step (
        current-serialised k raw def (R.hset runtime_settings_key k text s).1
            (lookup_sound k def found).0 (R.hset_lem runtime_settings_key k text k s ok').0,
        (λ j ne. (R.hset_lem runtime_settings_key k text j s ok').1 ne),
      )

  -- After a reset without an error, of the setting or of all settings, the current value of the
  -- setting is its default; and the setting of a key that the registry lacks is refused, and
  -- nothing changes.
  pub current-reset :
      (def : Setting) (s : R.State)
      → ((reset R cfg def.redis_key s).0 ≡ true
          → current_value R cfg def (reset R cfg def.redis_key s).1 ≡ default_from_config cfg def)
        × ((reset_all R cfg s).0 ≡ true
            → current_value R cfg def (reset_all R cfg s).1 ≡ default_from_config cfg def)
        × ((k : Bytes) (v : Value) → lookup k ≡ none → set_value R cfg k v s ≡ (false, s))
  unfolding reset reset_all runtime_delete runtime_delete_all
  current-reset def s = (
    (λ ok.
        current-missing def _ (R.hdel_lem runtime_settings_key def.redis_key def.redis_key s ok).0),
    (λ ok. current-missing def _ (
        ap (stored_field def.redis_key) (R.del_lem runtime_settings_key s ok)
        ∙ R.field-removed runtime_settings_key def.redis_key s)),
    (λ k v missing. unfold set_value in rw (missing, set_value)),
  )
