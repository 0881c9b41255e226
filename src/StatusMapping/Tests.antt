-- ===== src/StatusMapping/Tests.antt =====
-- The status mapping of core/status_mapping.py on a concrete shop.
use bapp_connectors.Base.{String, [], none, refl, some, ◌∷◌, ◌≡◌, string_key}
use bapp_connectors.Base.Dict.{Dict, get}
use bapp_connectors.StatusMapping.{
  OrderStatus, new_mapper, or_default, order_status, pending, processing, shipped, to_framework,
}
use bapp_connectors.StatusMapping.Overrides.{first_of, overridden, to_framework_lem}

abbrev defaults : Dict String OrderStatus
defaults = ("wc-shipped", shipped) ∷ ("processing", processing) ∷ []

-- One override counts, and one names no status.
abbrev overrides : Dict String String
overrides = ("wc-shipped", "delivered") ∷ ("processing", "on its way") ∷ []

to_framework_lem_example :
    to_framework (new_mapper defaults [] (some overrides) none) "wc-shipped" pending
    ≡ or_default pending (first_of (overridden overrides "wc-shipped") (get "wc-shipped" defaults))
to_framework_lem_example =
    to_framework_lem defaults [] overrides none "wc-shipped" pending (refl, (refl, tt))

unknown_text_skipped :
    to_framework (new_mapper defaults [] (some overrides) none) "processing" pending ≡ processing
unfolding to_framework new_mapper order_status
unknown_text_skipped = refl
