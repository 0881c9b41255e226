-- ===== src/Http/Message.antt =====
-- What passes between `ResilientHttpClient` and the outside world. The session of `requests`, the
-- clock, `time.sleep`, `urljoin`, `float` and the JSON decoder are not code of the repository: they
-- are the fields of `Transport`, over a state `W` of the outside world. Clock readings are whole
-- milliseconds. The headers and keyword arguments of a request are dicts that the context of the
-- callbacks shares with the request itself, so a callback may change them: that is `Wire`.
use bapp_connectors.Base.{Bool, Option, String, none, some, ℕ}
use bapp_connectors.Base.Int.{ℤ}
use bapp_connectors.Errors.{Exn}
use bapp_connectors.Effect.{Action}
use bapp_connectors.Http.Auth.{Headers}

-- What the code reads of a `requests.Response`. `header` is its case-insensitive header lookup.
pub record Response {ℓ} (J : Type ℓ) : Type ℓ where
  pub status_code : ℕ
  pub is_ok : Bool
  pub text : String
  pub header : String → Option String
  pub json : Option J

-- The keyword arguments of a call: `timeout`, `auth`, `log_body`, and those passed on untouched.
pub record Kwargs {ℓ} (J : Type ℓ) : Type ℓ where
  pub timeout : Option ℕ
  pub auth : Option (Option (String × String))
  pub log_body : Bool
  pub rest : J

pub record Wire {ℓ} (J : Type ℓ) : Type ℓ where
  pub headers : Headers
  pub timeout : ℕ
  pub rest : J

-- `RequestContext`, without the two dicts
pub record RequestContext {ℓ} : Type ℓ where
  pub method : String
  pub url : String
  pub started_at : ℕ
  pub provider : String
  pub log_body : Bool

pub record ResponseContext {ℓ} (J : Type ℓ) : Type ℓ where
  pub request : RequestContext {ℓ}
  pub status_code : ℕ
  pub duration_ms : ℕ
  pub response : Response J

pub record ErrorContext {ℓ} : Type ℓ where
  pub request : RequestContext {ℓ}
  pub error : Exn

pub record Transport {ℓ} (W J : Type ℓ) : Type ℓ where
  pub request : String → String → Option (String × String) → Wire J → Action W (Response J)
  pub monotonic : W → ℕ × W
  pub sleep : ℤ → W → W
  pub urljoin : String → String → String
  pub parse_float : String → Option ℤ

-- What a call returns: the raw response, decoded JSON, or the text.
pub data Body {ℓ} (J : Type ℓ) : Type ℓ where
  raw : Response J → Body J
  decoded : J → Body J
  plain : String → Body J

-- `_process_response`: the decoded JSON, or the text where that fails
unfoldable pub process_response {ℓ} : {J : Type ℓ} → Response J → Body J
process_response response = elim response.json [ some j ↦ decoded j | none ↦ plain response.text ]
