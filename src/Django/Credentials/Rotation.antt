-- ===== src/Django/Credentials/Rotation.antt =====
-- Credentials that a provider rotates after the settings of its connection were changed.
use bapp_connectors.Registry.Creation.{effective_config_valid}
use bapp_connectors.Django.Credentials.Merging.{
  Distinct, Undeclared, get-update, over, validate_settings-put,
}
use bapp_connectors.Django.Credentials.{
  Saved, get_manifest, persist_rotated_credentials, rotated_at, save_settings, update_checked,
  update_settings, validate_account_settings,
}
use bapp_connectors.Registry.{AdapterClass, Registry, effective_config, get_adapter_class}
use bapp_connectors.Manifest.{
  ProviderManifest, Setting, SettingError, apply_defaults, text, validate_settings,
}
use bapp_connectors.Base.Dict.{Dict, get, get-put, put}
use bapp_connectors.Effect.{Outcome, map_ok, ok, raise}
use bapp_connectors.Base.{
  List, String, [], ap, if◌then◌else◌, refl, some, sym, ℕ, ◌==◌, ◌∙◌, ◌∷◌, ◌≡◌, string_key,
}
use mathlib.Core.Path.{subst}

module _ {ℓ} {A W J : Type ℓ} (describe : SettingError → String) (now : ℕ)
    (adapters : Registry A W J) where
  -- What a change of settings leads to, by the errors that the manifest finds in them.
  abbrev pub Updated :
      Dict String Setting → List SettingError → Saved → Outcome (Unit {0}) × Saved → Type 0
  Updated config [] s (ok _, s') =
      (s' ≡ save_settings now config s) × (s'.row.credentials ≡ s.row.credentials)
  Updated config (e ∷ errors) s (raise _, s') = s' ≡ s
  Updated _ _ _ _ = ⊥

  update_checked-Updated :
      (config : Dict String Setting) (errors : List SettingError) (s : Saved)
      → Updated config errors s (update_checked describe now config (ok errors) s)
  unfolding update_checked save_settings
  update_checked-Updated config [] s = (refl, refl)
  update_checked-Updated config (e ∷ errors) s = refl

  manifest_found :
      (family provider : String) (cls : AdapterClass A W J) (m : ProviderManifest)
      → get_adapter_class family provider adapters ≡ ok (cls, m)
      → get_manifest family provider adapters ≡ ok m
  unfolding get_manifest
  manifest_found family provider cls m found = ap (map_ok (λ entry. entry.1)) found

  update_settings_checked :
      (config : Dict String Setting) (s : Saved) (cls : AdapterClass A W J) (m : ProviderManifest)
      → get_adapter_class s.object.provider_family s.object.provider_name adapters ≡ ok (cls, m)
      → update_settings describe now adapters config s
        ≡ update_checked describe now config (ok (validate_settings m.settings config)) s
  unfolding update_settings validate_account_settings
  update_settings_checked config s cls m found =
      ap
        (λ o.
          update_checked describe now config
            (map_ok (λ (x : ProviderManifest). validate_settings x.settings config) o) s)
        (manifest_found s.object.provider_family s.object.provider_name cls m found)

  -- Settings are changed exactly when the provider's manifest finds no error in them; otherwise it
  -- raises and neither the object nor its row changes. Credentials never change.
  pub update_settings-Updated :
      (config : Dict String Setting) (s : Saved) (cls : AdapterClass A W J) (m : ProviderManifest)
      → get_adapter_class s.object.provider_family s.object.provider_name adapters ≡ ok (cls, m)
      → Updated config
          (validate_settings m.settings config)
          s
          (update_settings describe now adapters config s)
  update_settings-Updated config s cls m found =
      subst (Updated config (validate_settings m.settings config) s)
        (sym (update_settings_checked config s cls m found))
        (update_checked-Updated config (validate_settings m.settings config) s)

  accepted_settings :
      (config : Dict String Setting) (errors : List SettingError) (s s' : Saved)
      → update_checked describe now config (ok errors) s ≡ (ok tt, s')
      → (errors ≡ []) × (s' ≡ save_settings now config s)
  unfolding update_checked
  accepted_settings config [] s s' h = (refl, sym (ap (λ p. p.1) h))
  accepted_settings config (e ∷ errors) s s' h = absurd cc

  -- When a change of settings was accepted and then the provider rotates credentials, provided that no
  -- field of the manifest is named as the stamp and that no key of the rotated credentials is repeated:
  -- the registry takes the settings of the row as they are, with defaults; each of them is as it was
  -- changed, but for the stamp; and each credential of the row is the rotated one, or the one that was
  -- there.
  pub update_settings-persist :
      (config : Dict String Setting) (s s' : Saved) (cls : AdapterClass A W J)
      (m : ProviderManifest) (later : ℕ) (now_text : String) (patch : Dict String String)
      (j k : String)
      → get_adapter_class s.object.provider_family s.object.provider_name adapters ≡ ok (cls, m)
      → update_settings describe now adapters config s ≡ (ok tt, s')
      → Distinct patch
      → Undeclared rotated_at m.settings
      → let row = (persist_rotated_credentials later now_text patch s').row in
        (effective_config describe m.settings row.config
          ≡ ok (apply_defaults m.settings row.config))
        × (get j row.config ≡ (if rotated_at == j then some (text now_text) else get j config))
        × (get k row.credentials ≡ over (get k patch) (get k s.object.credentials))
  unfolding persist_rotated_credentials save_settings
  update_settings-persist config s s' cls m later now_text patch j k found done distinct
        undeclared =
      let (valid, saved) =
        accepted_settings config (validate_settings m.settings config) s s'
          (sym (update_settings_checked config s cls m found) ∙ done) in
      rw saved (
        effective_config_valid describe m.settings (put rotated_at (text now_text) config)
            (validate_settings-put rotated_at (text now_text) m.settings config undeclared ∙ valid),
        get-put rotated_at j (text now_text) config,
        get-update k s.object.credentials patch distinct,
      )
