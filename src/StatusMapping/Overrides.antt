-- ===== src/StatusMapping/Overrides.antt =====
-- How a tenant's overrides stand over the defaults in core/status_mapping.py.
use mathlib.Core.Path.{subst}
use bapp_connectors.Base.{
  Bool, List, Option, String, [], ap, arith, false, if◌then◌else◌, none, refl, some, string_key,
  sym, true, ◌==◌, ◌∙◌, ◌∷◌, ◌≡◌,
}
use bapp_connectors.Base.Dict.{Dict, contains, get, get-put}
use bapp_connectors.StatusMapping.{
  OrderStatus, new_mapper, or_default, order_status, override_inbound, set_known, to_framework,
}

-- A dict holds a key once.
abbrev pub DistinctKeys : Dict String String → Type 0
DistinctKeys [] = Unit
DistinctKeys ((key, text) ∷ d) = (contains key d ≡ false) × DistinctKeys d

abbrev pub named : Option String → Option OrderStatus
named none = none
named (some text) = order_status text

-- the status that the overrides give a raw status: only a text that names a status counts
abbrev pub overridden : Dict String String → String → Option OrderStatus
overridden config raw = named (get raw config)

abbrev pub first_of : Option OrderStatus → Option OrderStatus → Option OrderStatus
first_of none o = o
first_of (some s) o = some s

get-set_known :
    (raw key : String) (o : Option OrderStatus) (d : Dict String OrderStatus)
    → get raw (set_known key o d) ≡ (if key == raw then first_of o (get raw d) else get raw d)
unfolding set_known
get-set_known raw key none d = ground arith
get-set_known raw key (some s) d = ground (arith, get-put key raw s d)

named-if :
    (b : Bool) (text : String) (o : Option String)
    → named (if b then some text else o) ≡ (if b then order_status text else named o)
named-if true text o = refl
named-if false text o = refl

named_missing :
    (o : Option String) → elim o [ none ↦ false | some _ ↦ true ] ≡ false → named o ≡ none
named_missing none h = refl
named_missing (some text) h = cc

first_of_assoc :
    (same : Bool) (o p q : Option OrderStatus)
    → (same ≡ true → p ≡ none)
    → first_of p (if same then first_of o q else q) ≡ first_of (if same then o else p) q
first_of_assoc true o p q h = rw (h refl) refl
first_of_assoc false o p q h = refl

get-override_inbound :
    (raw : String) (config : Dict String String) (d : Dict String OrderStatus)
    → DistinctKeys config
    → get raw (override_inbound d config) ≡ first_of (overridden config raw) (get raw d)
unfolding override_inbound
get-override_inbound raw [] d h = refl
get-override_inbound raw ((key, text) ∷ config) d h =
    let o = order_status text in
    get-override_inbound raw config (set_known key o d) h.1
    ∙ ap (λ x. first_of (overridden config raw) x) (get-set_known raw key o d)
    ∙ first_of_assoc (key == raw) o (overridden config raw) (get raw d) (λ same.
      named_missing (get raw config)
        (subst (λ k. contains k config ≡ false) ((string_key.same_iff key raw).0 same) h.0))
    ∙ ap (λ x. first_of x (get raw d)) (sym (named-if (key == raw) text (get raw config)))

-- A raw status means what the tenant's overrides say, where they give it a text that names a status;
-- else what the provider's defaults say, and where they say nothing, the caller's fallback.
pub to_framework_lem :
    (default_inbound : Dict String OrderStatus) (default_outbound : List (OrderStatus × String))
    (config : Dict String String) (config_outbound : Option (Dict String String)) (raw : String)
    (fallback : OrderStatus)
    → DistinctKeys config
    → to_framework
        (new_mapper default_inbound default_outbound (some config) config_outbound)
        raw
        fallback
      ≡ or_default fallback (first_of (overridden config raw) (get raw default_inbound))
unfolding to_framework new_mapper
to_framework_lem default_inbound default_outbound config config_outbound raw fallback h =
    ap (λ x. or_default fallback x) (get-override_inbound raw config default_inbound h)
