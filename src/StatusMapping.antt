-- ===== src/StatusMapping.antt =====
-- core/status_mapping.py: the statuses of orders and their names at a provider.
pub mod Overrides
pub mod Tests
use bapp_connectors.Base.{
  Bool, List, Option, String, [], if◌then◌else◌, none, some, ◌==◌, ◌∷◌, string_key,
}
use bapp_connectors.Base.Dict.{Dict, get, put}

pub data OrderStatus : Type 0 where
  pending accepted processing shipped delivered cancelled returned refunded : OrderStatus

-- the value of a member of the enum
unfoldable pub value : OrderStatus → String
value pending = "pending"
value accepted = "accepted"
value processing = "processing"
value shipped = "shipped"
value delivered = "delivered"
value cancelled = "cancelled"
value returned = "returned"
value refunded = "refunded"

abbrev all_statuses : List OrderStatus
all_statuses =
    pending ∷ accepted ∷ processing ∷ shipped ∷ delivered ∷ cancelled ∷ returned ∷ refunded ∷ []

find_status : String → List OrderStatus → Option OrderStatus
unfolding value
find_status text [] = none
find_status text (s ∷ rest) =
    let later = find_status text rest in if value s == text then some s else later

-- `OrderStatus(text)`, where `none` is a ValueError
unfoldable pub order_status : String → Option OrderStatus
unfolding find_status
order_status text = find_status text all_statuses

same_status : OrderStatus → OrderStatus → Bool
unfolding value
same_status s t = value s == value t

pub record StatusMapper : Type 0 where
  pub inbound : Dict String OrderStatus
  pub outbound : List (OrderStatus × String)

-- the dict whose keys are statuses
get_outbound : OrderStatus → List (OrderStatus × String) → Option String
unfolding same_status
get_outbound s [] = none
get_outbound s ((t, raw) ∷ d) =
    let later = get_outbound s d in if same_status t s then some raw else later

put_outbound : OrderStatus → String → List (OrderStatus × String) → List (OrderStatus × String)
unfolding same_status
put_outbound s raw [] = (s, raw) ∷ []
put_outbound s raw ((t, old) ∷ d) =
    let later = put_outbound s raw d in if same_status t s then (t, raw) ∷ d else (t, old) ∷ later

-- the loops over a tenant's overrides; an unknown status is skipped
set_known : String → Option OrderStatus → Dict String OrderStatus → Dict String OrderStatus
set_known raw none d = d
set_known raw (some status) d = put raw status d

override_inbound : Dict String OrderStatus → Dict String String → Dict String OrderStatus
unfolding order_status set_known
override_inbound d [] = d
override_inbound d ((raw, text) ∷ config) =
    override_inbound (set_known raw (order_status text) d) config

set_known_outbound :
    Option OrderStatus → String → List (OrderStatus × String) → List (OrderStatus × String)
unfolding put_outbound
set_known_outbound none raw d = d
set_known_outbound (some status) raw d = put_outbound status raw d

override_outbound : List (OrderStatus × String) → Dict String String → List (OrderStatus × String)
unfolding order_status set_known_outbound
override_outbound d [] = d
override_outbound d ((text, raw) ∷ config) =
    override_outbound (set_known_outbound (order_status text) raw d) config

abbrev or_no_overrides : Option (Dict String String) → Dict String String
or_no_overrides none = []
or_no_overrides (some config) = config

unfoldable pub new_mapper :
    Dict String OrderStatus
    → List (OrderStatus × String)
    → Option (Dict String String)
    → Option (Dict String String)
    → StatusMapper
unfolding override_inbound override_outbound
new_mapper default_inbound default_outbound config_inbound config_outbound = record {
  inbound = override_inbound default_inbound (or_no_overrides config_inbound);
  outbound = override_outbound default_outbound (or_no_overrides config_outbound);
}

abbrev pub or_default : OrderStatus → Option OrderStatus → OrderStatus
or_default fallback none = fallback
or_default fallback (some s) = s

unfoldable pub to_framework : StatusMapper → String → OrderStatus → OrderStatus
to_framework m raw_status fallback = or_default fallback (get raw_status m.inbound)

unfoldable pub to_provider : StatusMapper → OrderStatus → Option String
unfolding get_outbound
to_provider m status = get_outbound status m.outbound
