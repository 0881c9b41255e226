-- ===== src/Manifest.antt =====
-- core/manifest.py with AuthStrategy and ProviderFamily of core/types.py: what the registry reads of a
-- provider's manifest, and the checks of credentials and settings. Fields that only a form shows are
-- left out. A value of a setting is a text, a truth value or a number, or null.
pub mod Settings
use bapp_connectors.Base.{
  Bool, List, Option, String, [], false, if◌then◌else◌, none, not, some, str, text_or_empty, true,
  truthy, ℕ, ◌&&◌, ◌++◌, ◌==◌, ◌||◌, ◌∷◌, string_key,
}
use bapp_connectors.Base.Int.{ℤ}
use bapp_connectors.Base.Dict.{Dict, contains, get, put}
use bapp_connectors.Http.Retry.{BackoffStrategy}

pub data ProviderFamily : Type 0 where
  shop courier payment messaging email storage llm feed social ads network hosting dns appstore erp
        devops monitoring accounting :
      ProviderFamily

abbrev pub family_value : ProviderFamily → String
family_value shop = "shop"
family_value courier = "courier"
family_value payment = "payment"
family_value messaging = "messaging"
family_value email = "email"
family_value storage = "storage"
family_value llm = "llm"
family_value feed = "feed"
family_value social = "social"
family_value ads = "ads"
family_value network = "network"
family_value hosting = "hosting"
family_value dns = "dns"
family_value appstore = "appstore"
family_value erp = "erp"
family_value devops = "devops"
family_value monitoring = "monitoring"
family_value accounting = "accounting"

pub data AuthStrategy : Type 0 where
  none_strategy basic_strategy token_strategy bearer_strategy api_key_strategy oauth2_strategy
        custom_strategy :
      AuthStrategy

pub data Setting : Type 0 where
  null : Setting
  text : String → Setting
  flag : Bool → Setting
  number : ℕ → Setting

-- `str(value)`
abbrev setting_text : Setting → String
unfolding str
setting_text null = "None"
setting_text (text s) = s
setting_text (flag true) = "True"
setting_text (flag false) = "False"
setting_text (number n) = str n

pub record CredentialField : Type 0 where
  pub name : String
  pub required : Bool

pub record SettingsField : Type 0 where
  pub name : String
  pub required : Bool
  pub default : Setting
  pub choices : List String
  pub choices_source : String

pub record AuthConfig : Type 0 where
  pub strategy : AuthStrategy
  pub required_fields : List CredentialField

-- The rate, a float in the code, is in thousandths of a request each second, the unit of a limiter's
-- rate: 1.5 requests each second are 1500.
pub record RateLimitConfig : Type 0 where
  pub requests_per_second : ℕ
  pub burst : ℕ

pub record RetryConfig : Type 0 where
  pub max_retries : ℕ
  pub backoff : BackoffStrategy
  pub base_delay : ℤ
  pub max_delay : ℤ
  pub retryable_status_codes : List ℕ
  pub non_retryable_status_codes : List ℕ

-- `settings` is the list of fields of the SettingsConfig; a capability goes by the name of its class.
pub record ProviderManifest : Type 0 where
  pub name : String
  pub family : ProviderFamily
  pub base_url : String
  pub auth : AuthConfig
  pub settings : List SettingsField
  pub capabilities : List String
  pub rate_limit : RateLimitConfig
  pub retry : RetryConfig

-- a family is never empty
unfoldable pub validate : ProviderManifest → List String
validate m =
    (if truthy m.name then [] else "Manifest must have a name." ∷ [])
    ++ (if truthy m.base_url then [] else "Manifest must declare a base_url." ∷ [])

-- the names of the required fields that have no value
unfoldable pub validate_credentials : List CredentialField → Dict String String → List String
validate_credentials [] credentials = []
validate_credentials (f ∷ fields) credentials =
    let rest = validate_credentials fields credentials in
    if f.required && not (truthy (text_or_empty (get f.name credentials)))
    then f.name ∷ rest
    else rest

abbrev pub value_or_null : Option Setting → Setting
value_or_null none = null
value_or_null (some v) = v

abbrev pub is_null : Setting → Bool
is_null null = true
is_null _ = false

-- `value is None or value == ""`
abbrev pub is_blank : Setting → Bool
is_blank null = true
is_blank (text s) = not (truthy s)
is_blank _ = false

pub is_choice : String → List String → Bool
is_choice s [] = false
is_choice s (t ∷ choices) = s == t || is_choice s choices

abbrev is_empty_list : List String → Bool
is_empty_list [] = true
is_empty_list _ = false

pub is_invalid : SettingsField → Setting → Bool
unfolding is_choice setting_text
is_invalid f v =
    not (is_null v)
    && not (is_empty_list f.choices)
    && not (truthy f.choices_source)
    && not (is_choice (setting_text v) f.choices)

-- an error of `validate_settings`, in place of its text
pub data SettingError : Type 0 where
  missing_setting : String → SettingError
  invalid_setting : String → Setting → List String → SettingError

unfoldable pub validate_settings : List SettingsField → Dict String Setting → List SettingError
unfolding is_invalid
validate_settings [] config = []
validate_settings (f ∷ fields) config =
    let v = value_or_null (get f.name config) in
    (if f.required && is_blank v then missing_setting f.name ∷ [] else [])
    ++ (if is_invalid f v then invalid_setting f.name v f.choices ∷ [] else [])
    ++ validate_settings fields config

-- `if f.name not in result and f.default is not None`
pub with_default : SettingsField → Dict String Setting → Dict String Setting
with_default f config =
    if not (contains f.name config) && not (is_null f.default)
    then put f.name f.default config
    else config

unfoldable pub apply_defaults : List SettingsField → Dict String Setting → Dict String Setting
unfolding with_default
apply_defaults [] config = config
apply_defaults (f ∷ fields) config = apply_defaults fields (with_default f config)
