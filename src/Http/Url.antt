-- ===== src/Http/Url.antt =====
-- The string methods that core/http/client.py applies to a base URL and a path.
use Prim.Native.Char.{code}
use bapp_connectors.Base.{Bool, String, false, if◌then◌else◌, nat_eq, not, true, truthy, ◌&&◌}

-- `s.rstrip("/")` and `s.lstrip("/")`
unfoldable pub rstrip_slash : String → String
rstrip_slash String.[] = ""
rstrip_slash (String.◌∷◌ c s) =
    let rest = rstrip_slash s in
    if nat_eq (code c) b'/' && not (truthy rest) then "" else String.◌∷◌ c rest

unfoldable pub lstrip_slash : String → String
lstrip_slash String.[] = ""
lstrip_slash (String.◌∷◌ c s) =
    let rest = lstrip_slash s in if nat_eq (code c) b'/' then rest else String.◌∷◌ c s

unfoldable pub starts_with : String → String → Bool
starts_with s String.[] = true
starts_with String.[] _ = false
starts_with (String.◌∷◌ c s) (String.◌∷◌ d t) = nat_eq (code c) (code d) && starts_with s t
