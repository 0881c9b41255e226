-- ===== src/Registry/Tests.antt =====
-- A registry with one class.
use bapp_connectors.Base.{String, [], false, refl, true, ℕ, ◌==◌, ◌∷◌, ◌≡◌, ◌⊎◌, string_key}
use bapp_connectors.Base.Int.{pos}
use bapp_connectors.Base.Dict.{Dict}
use bapp_connectors.Errors.{Exn}
use bapp_connectors.Effect.{ok, raise}
use bapp_connectors.Http.Retry.{exponential}
use bapp_connectors.Manifest.{ProviderManifest, bearer_strategy, shop, text, validate_credentials}
use bapp_connectors.Registry.{
  AdapterClass, Builder, Registry, configuration_failure, create_adapter, get_adapter_class,
  manifest_of, register,
}
use bapp_connectors.Registry.Keys.{Found, IsSound, register-Found}

abbrev pub toy_manifest : ProviderManifest
toy_manifest = record {
  name = "woo";
  family = shop;
  base_url = "https://woo.example";
  auth = record {
    strategy = bearer_strategy;
    required_fields = record { name = "token"; required = true } ∷ [];
  };
  settings =
      record {
        name = "currency";
        required = false;
        default = text "RON";
        choices = [];
        choices_source = "";
      }
      ∷ [];
  capabilities = "BulkUpsert" ∷ [];
  rate_limit = record { requests_per_second = 10000; burst = 10 };
  retry = record {
    max_retries = 3;
    backoff = exponential;
    base_delay = pos 1000;
    max_delay = pos 60000;
    retryable_status_codes = [];
    non_retryable_status_codes = [];
  };
}

-- An adapter that is the name of its provider.
abbrev pub toy_class : AdapterClass String ℕ String
toy_class = record {
  class_name = "WooAdapter";
  manifest = manifest_of toy_manifest;
  implements = λ cap. cap == "BulkUpsert";
  init = λ con. ok con.http_client.provider_name;
}

register-Found_example :
    ((e : Exn) × (register toy_class [] ≡ (raise e, [])))
    ⊎ ((m : ProviderManifest) × IsSound toy_class m
        × Found "shop" "woo" toy_class m [] (register toy_class []).1)
register-Found_example = register-Found toy_class [] "shop" "woo" refl

abbrev pub adapters : Registry String ℕ String
adapters = ("shop.woo", (toy_class, toy_manifest)) ∷ []

abbrev builder : Builder ℕ
builder = record { now = 0; waiting = λ limiter w. w; describe = λ e. "invalid" }

abbrev credentials : Dict String String
credentials = ("token", "t") ∷ []

credential_missing :
    create_adapter builder "shop" "woo" [] [] adapters
    ≡ raise (configuration_failure "Missing credential fields: token")
unfolding create_adapter get_adapter_class validate_credentials
credential_missing = refl
