-- ===== src/Registry.antt =====
-- core/registry.py. An adapter class is its name, what its attribute `manifest` holds, the capabilities
-- that it implements, and its constructor. The clock and the waiting of a limiter are arguments.
pub mod Keys
pub mod Wiring
pub mod Creation
pub mod Tests
use bapp_connectors.Base.{
  Bool, List, Option, String, [], if◌then◌else◌, none, some, text_or_empty, ℕ, ◌<>◌, ◌∷◌,
  string_key,
}
use bapp_connectors.Base.Dict.{Dict, get, put}
use bapp_connectors.Errors.{Exn, configuration_error, connector, exception, new_error}
use bapp_connectors.Effect.{Action, Outcome, ok, raise, throw}
use bapp_connectors.Http.Auth.{Auth, basic_auth, bearer_auth, new_token_auth, no_auth}
use bapp_connectors.Http.Retry.{RetryPolicy, default_policy}
use bapp_connectors.Http.Client.{Client, new_client}
use bapp_connectors.Manifest.{
  AuthStrategy, ProviderManifest, RetryConfig, Setting, SettingError, SettingsField, apply_defaults,
  basic_strategy, bearer_strategy, family_value, token_strategy, validate, validate_credentials,
  validate_settings,
}
use bapp_connectors.Http.RateLimit.{RateLimiter, new_limiter}

pub data ManifestAttribute : Type 0 where
  absent : ManifestAttribute
  other_object : ManifestAttribute
  manifest_of : ProviderManifest → ManifestAttribute

-- What a constructor is called with; `http_client` is made by the registry.
pub record Construction {ℓ} (W J : Type ℓ) : Type ℓ where
  pub credentials : Dict String String
  pub http_client : Client W J
  pub config : Dict String Setting

pub record AdapterClass {ℓ} (A W J : Type ℓ) : Type ℓ where
  pub class_name : String
  pub manifest : ManifestAttribute
  pub implements : String → Bool
  pub init : Construction W J → Outcome A

-- What is registered has a manifest of the right class, which stands beside it.
abbrev pub Registered {ℓ} : Type ℓ → Type ℓ → Type ℓ → Type ℓ
Registered A W J = AdapterClass A W J × ProviderManifest

abbrev pub Registry {ℓ} : Type ℓ → Type ℓ → Type ℓ → Type ℓ
Registry A W J = Dict String (Registered A W J)

abbrev pub registry_key : String → String → String
registry_key family provider = family <> "." <> provider

abbrev pub configuration_failure : String → Exn
configuration_failure message = connector (new_error configuration_error message none)

-- `'; '.join(texts)` with its separator
abbrev pub join : String → List String → String
join separator [] = ""
join separator (s ∷ []) = s
join separator (s ∷ texts) = s <> separator <> join separator texts

-- the first declared capability that the class does not implement
pub first_missing : (String → Bool) → List String → Option String
first_missing implements [] = none
first_missing implements (cap ∷ capabilities) =
    let rest = first_missing implements capabilities in if implements cap then rest else some cap

module _ {ℓ} {A W J : Type ℓ} where
  add_class : AdapterClass A W J → ProviderManifest → Action (Registry A W J) (Unit {0})
  add_class cls m adapters =
      (ok tt, put (registry_key (family_value m.family) m.name) (cls, m) adapters)

  check_capabilities :
      AdapterClass A W J → ProviderManifest → Option String → Action (Registry A W J) (Unit {0})
  unfolding add_class
  check_capabilities cls m none adapters = add_class cls m adapters
  check_capabilities cls m (some cap) adapters = (
    raise (
        configuration_failure (
          "Adapter " <> cls.class_name <> " declares capability " <> cap
          <> " but does not implement it.")),
    adapters,
  )

  check_manifest :
      AdapterClass A W J → ProviderManifest → List String → Action (Registry A W J) (Unit {0})
  unfolding check_capabilities first_missing
  check_manifest cls m [] = check_capabilities cls m (first_missing cls.implements m.capabilities)
  check_manifest cls m errors = throw (
      configuration_failure ("Invalid manifest for " <> cls.class_name <> ": " <> join "; " errors))

  register_with : AdapterClass A W J → ManifestAttribute → Action (Registry A W J) (Unit {0})
  unfolding check_manifest validate
  register_with cls absent =
      throw (configuration_failure ("Adapter " <> cls.class_name <> " has no manifest attribute."))
  register_with cls other_object = throw (
      configuration_failure
        ("Adapter " <> cls.class_name <> ".manifest must be a ProviderManifest instance."))
  register_with cls (manifest_of m) = check_manifest cls m (validate m)

  unfoldable pub register : AdapterClass A W J → Action (Registry A W J) (Unit {0})
  unfolding register_with
  register cls = register_with cls cls.manifest

  abbrev pub class_or_error : String → Option (Registered A W J) → Outcome (Registered A W J)
  class_or_error key none =
      raise (configuration_failure ("No adapter registered for '" <> key <> "'."))
  class_or_error key (some entry) = ok entry

  unfoldable pub get_adapter_class : String → String → Registry A W J → Outcome (Registered A W J)
  get_adapter_class family provider adapters =
      let key = registry_key family provider in class_or_error key (get key adapters)

-- `_build_auth`
unfoldable pub build_auth : AuthStrategy → Dict String String → Auth
build_auth basic_strategy credentials =
    basic_auth (text_or_empty (get "username" credentials))
      (text_or_empty (get "password" credentials))
build_auth bearer_strategy credentials = bearer_auth (text_or_empty (get "token" credentials))
build_auth token_strategy credentials = new_token_auth (text_or_empty (get "token" credentials))
build_auth _ credentials = no_auth

pub retry_policy_of : RetryConfig → RetryPolicy
retry_policy_of r = record default_policy {
  max_retries = r.max_retries;
  backoff = r.backoff;
  base_delay = r.base_delay;
  max_delay = r.max_delay;
  retryable_status_codes = r.retryable_status_codes;
  non_retryable_status_codes = r.non_retryable_status_codes;
}

-- What the registry takes from elsewhere: the monotonic clock, the waiting of a limiter, and the text of
-- an error about a setting, in which Python prints the choices.
pub record Builder {ℓ} (W : Type ℓ) : Type ℓ where
  pub now : ℕ
  pub waiting : RateLimiter → W → W
  pub describe : SettingError → String

abbrev pub descriptions : (SettingError → String) → List SettingError → List String
descriptions describe [] = []
descriptions describe (e ∷ errors) = describe e ∷ descriptions describe errors

pub config_or_error :
    (SettingError → String)
    → List SettingsField
    → Dict String Setting
    → List SettingError
    → Outcome (Dict String Setting)
unfolding apply_defaults
config_or_error describe fields config [] = ok (apply_defaults fields config)
config_or_error describe fields config errors =
    raise (configuration_failure ("Invalid settings: " <> join "; " (descriptions describe errors)))

-- a manifest without fields takes every setting as it is
pub effective_config :
    (SettingError → String)
    → List SettingsField
    → Dict String Setting
    → Outcome (Dict String Setting)
unfolding config_or_error validate_settings
effective_config describe fields config =
    config_or_error describe fields config (validate_settings fields config)

pub http_client_of {ℓ} :
    {W J : Type ℓ} → Builder W → ProviderManifest → Dict String String → RateLimiter → Client W J
unfolding build_auth new_client retry_policy_of
http_client_of b m credentials limiter =
    new_client m.base_url (some (build_auth m.auth.strategy credentials))
      (some (retry_policy_of m.retry)) (some (b.waiting limiter)) 10 m.name none ""

module _ {ℓ} {A W J : Type ℓ} (b : Builder W) where
  -- with the limiter, where the rate is positive
  construct :
      Registered A W J → Dict String String → Dict String Setting → Option RateLimiter → Outcome A
  unfolding http_client_of
  construct (cls, m) credentials config none =
      raise (exception "requests_per_second must be positive")
  construct (cls, m) credentials config (some limiter) = cls.init (record {
    credentials = credentials;
    http_client = http_client_of b m credentials limiter;
    config = config;
  })

  construct_with : Registered A W J → Dict String String → Outcome (Dict String Setting) → Outcome A
  unfolding construct new_limiter
  construct_with (cls, m) credentials (raise e) = raise e
  construct_with (cls, m) credentials (ok config) =
      construct (cls, m) credentials config
        (new_limiter m.rate_limit.requests_per_second m.rate_limit.burst b.now)

  check_credentials :
      Registered A W J → Dict String String → Dict String Setting → List String → Outcome A
  unfolding construct_with effective_config
  check_credentials (cls, m) credentials config [] =
      construct_with (cls, m) credentials (effective_config b.describe m.settings config)
  check_credentials (cls, m) credentials config missing =
      raise (configuration_failure ("Missing credential fields: " <> join ", " missing))

  create_with : Outcome (Registered A W J) → Dict String String → Dict String Setting → Outcome A
  unfolding check_credentials validate_credentials
  create_with (raise e) credentials config = raise e
  create_with (ok (cls, m)) credentials config =
      check_credentials (cls, m) credentials config
        (validate_credentials m.auth.required_fields credentials)

  -- an absent `config` is an empty one
  unfoldable pub create_adapter :
      String → String → Dict String String → Dict String Setting → Registry A W J → Outcome A
  unfolding create_with get_adapter_class
  create_adapter family provider credentials config adapters =
      create_with (get_adapter_class family provider adapters) credentials config
