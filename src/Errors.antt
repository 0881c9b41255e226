-- ===== src/Errors.antt =====
-- core/errors.py: the error hierarchy of the connectors, and the exceptions that the code catches.
-- A class is a constructor; an instance is a record, since its class, its message and the attributes
-- that the constructors set are all that the code reads. Durations are whole milliseconds.
use bapp_connectors.Base.{ℕ, String, Bool, true, false, Option, none, some}
use bapp_connectors.Base.Int.{ℤ}

pub data ErrorClass : Type 0 where
  connector_error authentication_error configuration_error validation_error rate_limit_error
        provider_error permanent_provider_error unsupported_feature_error webhook_verification_error
        connection_test_error :
      ErrorClass

-- the class attribute `retryable`
unfoldable pub class_retryable : ErrorClass → Bool
class_retryable rate_limit_error = true
class_retryable provider_error = true
class_retryable _ = false

pub record ConnectorError : Type 0 where
  pub kind : ErrorClass
  pub message : String
  pub retryable : Bool
  pub status_code : Option ℕ
  pub retry_after : Option ℤ

-- `ConnectorError.__init__`: a `retryable` argument overrides the class attribute.
unfoldable pub new_error : ErrorClass → String → Option Bool → ConnectorError
unfolding class_retryable
new_error kind message override = record {
  kind = kind;
  message = message;
  retryable = elim override [ none ↦ class_retryable kind | some r ↦ r ];
  status_code = none;
  retry_after = none;
}

-- `RateLimitError.__init__`
unfoldable pub new_rate_limit_error : String → Option ℤ → ConnectorError
unfolding new_error
new_rate_limit_error message retry_after =
    let base = new_error rate_limit_error message none in record base { retry_after = retry_after }

-- `ProviderError.__init__`, `PermanentProviderError.__init__` and the keyword arguments of the others
unfoldable pub new_status_error : ErrorClass → String → ℕ → ConnectorError
unfolding new_error
new_status_error kind message status =
    let base = new_error kind message none in record base { status_code = some status }

-- The classes of `requests.exceptions` that the code names, and any other subclass of
-- `RequestException`.
pub data RequestsClass : Type 0 where
  connection_error timeout read_timeout request_exception : RequestsClass

-- `issubclass`: `ReadTimeout` is a `Timeout`.
unfoldable pub requests_subclass : RequestsClass → RequestsClass → Bool
requests_subclass connection_error connection_error = true
requests_subclass timeout timeout = true
requests_subclass read_timeout timeout = true
requests_subclass read_timeout read_timeout = true
requests_subclass _ request_exception = true
requests_subclass _ _ = false

-- An exception: a connector's, one of `requests`, or any other with its text.
pub data Exn : Type 0 where
  connector : ConnectorError → Exn
  requests_error : RequestsClass → String → Exn
  exception : String → Exn

-- `str(e)`
abbrev pub text_of : Exn → String
text_of (connector e) = e.message
text_of (requests_error c message) = message
text_of (exception message) = message

-- `getattr(e, "retryable", False)`
abbrev pub retryable_attr : Exn → Bool
retryable_attr (connector e) = e.retryable
retryable_attr _ = false

abbrev pub is_authentication_class : ErrorClass → Bool
is_authentication_class authentication_error = true
is_authentication_class _ = false

-- `isinstance(e, AuthenticationError)`
abbrev pub is_authentication_error : Exn → Bool
is_authentication_error (connector e) = is_authentication_class e.kind
is_authentication_error _ = false
