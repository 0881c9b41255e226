-- ===== src/Registry/Creation.antt =====
-- The adapters that core/registry.py makes.
use bapp_connectors.Base.{All, List, String, [], false, refl, ◌≡◌, string_key}
use bapp_connectors.Registry.{
  Builder, Construction, Registered, Registry, config_or_error, effective_config,
}
use bapp_connectors.Manifest.{
  ProviderManifest, Setting, SettingError, SettingsField, apply_defaults, validate_settings,
}
use bapp_connectors.Base.Dict.{Dict, get}
use bapp_connectors.Registry.Wiring.{IsClientOf}
use bapp_connectors.Effect.{ok}
use bapp_connectors.Manifest.Settings.{Kept, lacks, undefaulted}

module _ {ℓ} {W J : Type ℓ} (b : Builder W) (credentials : Dict String String)
    (config : Dict String Setting) where
  -- A constructor's arguments that satisfy the manifest.
  abbrev pub Satisfies : ProviderManifest → Construction W J → Type ℓ
  Satisfies m con =
      (con.credentials ≡ credentials)
      × All (λ f. lacks credentials f ≡ false) m.auth.required_fields
      × (validate_settings m.settings config ≡ [])
      × ((k : String) → Kept (get k config) (get k con.config))
      × All (λ f. undefaulted con.config f ≡ false) m.settings
      × IsClientOf b m credentials con.http_client

module _ {ℓ} {A W J : Type ℓ} (b : Builder W) (credentials : Dict String String)
    (config : Dict String Setting) where
  abbrev Made : Registered A W J → A → Type ℓ
  Made entry a =
      (con : Construction W J) × (entry.0.init con ≡ ok a)
      × Satisfies b credentials config entry.1 con

-- settings without errors are taken with defaults
pub effective_config_valid :
    (describe : SettingError → String) (fields : List SettingsField) (config : Dict String Setting)
    → validate_settings fields config ≡ []
    → effective_config describe fields config ≡ ok (apply_defaults fields config)
unfolding effective_config config_or_error
effective_config_valid describe fields config h = rw h refl
