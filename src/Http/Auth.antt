-- ===== src/Http/Auth.antt =====
-- core/http/auth.py: the strategies that put credentials on a request. A class is a constructor;
-- `BearerAuth` is a `TokenAuth` with its prefix.
use bapp_connectors.Base.{Option, String, if◌then◌else◌, none, some, truthy, ◌<>◌, string_key}
use bapp_connectors.Base.Dict.{Dict, put, update}

abbrev pub Headers : Type 0
Headers = Dict String String

pub data Auth : Type 0 where
  no_auth : Auth
  basic_auth : String → String → Auth
  token_auth : String → String → String → Auth
  api_key_auth : String → String → Auth
  multi_header_auth : Headers → Auth

-- `TokenAuth(token)` and `BearerAuth(token)`, with the default header
abbrev pub new_token_auth : String → Auth
new_token_auth token = token_auth token "" "Authorization"

abbrev pub bearer_auth : String → Auth
bearer_auth token = token_auth token "Bearer" "Authorization"

unfoldable pub apply_to_headers : Auth → Headers → Headers
apply_to_headers no_auth headers = headers
apply_to_headers (basic_auth username password) headers = headers
apply_to_headers (token_auth token prefix_text header) headers =
    if truthy prefix_text
    then put header (prefix_text <> " " <> token) headers
    else put header token headers
apply_to_headers (api_key_auth key header) headers = put header key headers
apply_to_headers (multi_header_auth more) headers = update headers more

-- `get_auth`: the user name and password of `HTTPBasicAuth`
unfoldable pub get_auth : Auth → Option (String × String)
get_auth (basic_auth username password) = some (username, password)
get_auth _ = none
