-- ===== src/Django/Credentials/Tests.antt =====
-- Credentials and settings of the connection to a registered shop.
use bapp_connectors.Base.{String, [], refl, some, ◌∷◌, ◌≡◌, string_key}
use bapp_connectors.Base.Dict.{Dict, get}
use bapp_connectors.Effect.{ok}
use bapp_connectors.Manifest.{Setting, apply_defaults, text}
use bapp_connectors.Registry.{effective_config, get_adapter_class}
use bapp_connectors.Registry.Tests.{adapters, toy_class, toy_manifest}
use bapp_connectors.Django.Credentials.{
  Account, Saved, persist_rotated_credentials, rotated_at, save_settings, update_settings,
}
use bapp_connectors.Django.Credentials.Rotation.{update_settings-persist}

abbrev shop_account : Account
shop_account = record {
  provider_family = "shop";
  provider_name = "woo";
  credentials = ("token", "old") ∷ [];
  config = [];
  updated_at = 0;
}

abbrev saved : Saved
saved = record { object = shop_account; row = shop_account }

abbrev euro : Dict String Setting
euro = ("currency", text "EUR") ∷ []

abbrev changed : Saved
changed = save_settings 1 euro saved

abbrev patch : Dict String String
patch = ("token", "new") ∷ []

change_accepted : update_settings (λ e. "invalid") 1 adapters euro saved ≡ (ok tt, changed)
unfolding update_settings get_adapter_class
change_accepted = refl

-- Settings that another process has saved since the object was loaded are lost.
stale_settings_test :
    (persist_rotated_credentials 2 "now" patch
      (record { object = shop_account; row = changed.row })).row.config
    ≡ (rotated_at, text "now") ∷ []
unfolding persist_rotated_credentials
stale_settings_test = refl

registered : get_adapter_class "shop" "woo" adapters ≡ ok (toy_class, toy_manifest)
unfolding get_adapter_class
registered = refl

update_settings-persist_example :
    let row = (persist_rotated_credentials 2 "now" patch changed).row in
    (effective_config (λ e. "invalid") toy_manifest.settings row.config
      ≡ ok (apply_defaults toy_manifest.settings row.config))
    × (get "currency" row.config ≡ some (text "EUR"))
    × (get "token" row.credentials ≡ some "new")
update_settings-persist_example =
    update_settings-persist (λ e. "invalid") 1 adapters euro saved changed toy_class toy_manifest 2
      "now" patch "currency" "token" registered change_accepted (refl, tt) (refl, tt)
