-- ===== src/Django/Credentials.antt =====
-- packages/django/src/django_bapp_connectors/services/connection.py: the credentials and settings of a
-- connection. The object in memory and its row are two records, of which a save writes the listed
-- fields; the columns that nothing here writes are left out. `timezone.now()` is a number, and a text.
pub mod Merging
pub mod Rotation
pub mod Tests
use bapp_connectors.Base.{List, String, [], ℕ, ◌<>◌, string_key}
use bapp_connectors.Base.Dict.{Dict, put, update}
use bapp_connectors.Effect.{Action, Outcome, map_ok, ok, raise}
use bapp_connectors.Manifest.{ProviderManifest, Setting, SettingError, text, validate_settings}
use bapp_connectors.Registry.{
  Registry, configuration_failure, descriptions, get_adapter_class, join,
}

pub record Account : Type 0 where
  pub provider_family : String
  pub provider_name : String
  pub credentials : Dict String String
  pub config : Dict String Setting
  pub updated_at : ℕ

pub record Saved : Type 0 where
  pub object : Account
  pub row : Account

abbrev pub rotated_at : String
rotated_at = "credentials_rotated_at"

unfoldable pub persist_rotated_credentials : ℕ → String → Dict String String → Saved → Saved
persist_rotated_credentials now now_text patch s =
    let credentials = update s.object.credentials patch in
    let config = put rotated_at (text now_text) s.object.config in
    record {
      object = record s.object { credentials = credentials; config = config; updated_at = now };
      row = record s.row { credentials = credentials; config = config; updated_at = now };
    }

unfoldable pub rotate_credentials : ℕ → Dict String String → Saved → Saved
rotate_credentials now new_credentials s = record {
  object = record s.object { credentials = new_credentials; updated_at = now };
  row = record s.row { credentials = new_credentials; updated_at = now };
}

pub save_settings : ℕ → Dict String Setting → Saved → Saved
save_settings now config s = record {
  object = record s.object { config = config; updated_at = now };
  row = record s.row { config = config; updated_at = now };
}

update_checked :
    (SettingError → String)
    → ℕ
    → Dict String Setting
    → Outcome (List SettingError)
    → Action Saved (Unit {0})
unfolding save_settings
update_checked describe now config (ok []) s = (ok tt, save_settings now config s)
update_checked describe now config (ok errors) s = (
  raise (configuration_failure ("Invalid settings: " <> join "; " (descriptions describe errors))),
  s,
)
update_checked describe now config (raise e) s = (raise e, s)

module _ {ℓ} {A W J : Type ℓ} where
  unfoldable pub get_manifest : String → String → Registry A W J → Outcome ProviderManifest
  unfolding get_adapter_class
  get_manifest family provider adapters =
      map_ok (λ entry. entry.1) (get_adapter_class family provider adapters)

  unfoldable pub validate_account_settings :
      Registry A W J → Account → Dict String Setting → Outcome (List SettingError)
  unfolding get_manifest validate_settings
  validate_account_settings adapters account config =
      map_ok (λ m. validate_settings m.settings config)
        (get_manifest account.provider_family account.provider_name adapters)

  unfoldable pub update_settings :
      (SettingError → String) → ℕ → Registry A W J → Dict String Setting → Action Saved (Unit {0})
  unfolding update_checked validate_account_settings
  update_settings describe now adapters config s =
      update_checked describe now config (validate_account_settings adapters s.object config) s
