-- ===== src/Registry/Keys.antt =====
-- The keys of core/registry.py: a family and a provider's name with a dot between them.
use Prim.Native.Char.{Char, code}
use text.Mathlib.TextLemmas.{cons-append, nil-append}
use bapp_connectors.Base.{
  Bool, Bool-cases, List, Option, String, [], ap, arith, false, if◌then◌else◌, inl, inr, nat_eq,
  none, refl, some, string_key, sym, true, ◌&&◌, ◌<>◌, ◌==◌, ◌||◌, ◌∙◌, ◌∷◌, ◌≡◌, ◌⊎◌,
}
use bapp_connectors.Registry.{
  AdapterClass, ManifestAttribute, Registry, absent, add_class, check_capabilities, check_manifest,
  class_or_error, first_missing, get_adapter_class, manifest_of, other_object, register,
  register_with, registry_key,
}
use bapp_connectors.Base.Dict.{get, get-put, put}
use bapp_connectors.Effect.{Outcome, ok, raise}
use bapp_connectors.Manifest.{
  ProviderFamily, ProviderManifest, accounting, ads, appstore, courier, devops, dns, email, erp,
  family_value, feed, hosting, llm, messaging, monitoring, network, payment, shop, social, storage,
  validate,
}
use bapp_connectors.Errors.{Exn}

abbrev has_dot : String → Bool
has_dot String.[] = false
has_dot (String.◌∷◌ c s) = nat_eq (code c) 46 || has_dot s

abbrev pub NoDot : String → Type 0
NoDot s = has_dot s ≡ false

abbrev tail_of : String → String
tail_of String.[] = ""
tail_of (String.◌∷◌ c s) = s

abbrev head_of : Char → String → Char
head_of c String.[] = c
head_of c (String.◌∷◌ d s) = d

key_nil : (n : String) → registry_key "" n ≡ String.◌∷◌ "." n
key_nil n = nil-append ("." <> n) ∙ cons-append "." "" n ∙ ap (λ s. String.◌∷◌ "." s) (nil-append n)

key_cons :
    (c : Char) (f n : String) → registry_key (String.◌∷◌ c f) n ≡ String.◌∷◌ c (registry_key f n)
key_cons c f n = cons-append c f ("." <> n)

key_injective :
    (f g n m : String) → NoDot f → NoDot g → registry_key f n ≡ registry_key g m → (f ≡ g) × (n ≡ m)
key_injective String.[] String.[] n m hf hg e = (refl, ap tail_of (sym (key_nil n) ∙ e ∙ key_nil m))
key_injective String.[] (String.◌∷◌ c g) n m hf hg e =
    let dot : nat_eq (code c) 46 ≡ true =
      ap (λ x. nat_eq (code x) 46) (sym (ap (head_of c) (sym (key_nil n) ∙ e ∙ key_cons c g m))) in
    absurd (ground arith)
key_injective (String.◌∷◌ c f) String.[] n m hf hg e =
    let dot : nat_eq (code c) 46 ≡ true =
      ap (λ x. nat_eq (code x) 46) (ap (head_of c) (sym (key_cons c f n) ∙ e ∙ key_nil m)) in
    absurd (ground arith)
key_injective (String.◌∷◌ c f) (String.◌∷◌ d g) n m hf hg e =
    let (same, rest) =
      key_injective f g n m (ground arith) (ground arith)
        (ap tail_of (sym (key_cons c f n) ∙ e ∙ key_cons d g m)) in
    (cons_eq (ap (head_of c) (sym (key_cons c f n) ∙ e ∙ key_cons d g m)) same, rest)
  where
    cons_eq : c ≡ d → f ≡ g → String.◌∷◌ c f ≡ String.◌∷◌ d g
    cons_eq p q = cc

family-NoDot : (f : ProviderFamily) → NoDot (family_value f)
family-NoDot shop = refl
family-NoDot courier = refl
family-NoDot payment = refl
family-NoDot messaging = refl
family-NoDot email = refl
family-NoDot storage = refl
family-NoDot llm = refl
family-NoDot feed = refl
family-NoDot social = refl
family-NoDot ads = refl
family-NoDot network = refl
family-NoDot hosting = refl
family-NoDot dns = refl
family-NoDot appstore = refl
family-NoDot erp = refl
family-NoDot devops = refl
family-NoDot monitoring = refl
family-NoDot accounting = refl

keys_agree :
    (f n g m : String)
    → NoDot f
    → NoDot g
    → (registry_key f n == registry_key g m) ≡ (f == g && n == m)
keys_agree f n g m hf hg = elim (Bool-cases (registry_key f n == registry_key g m)) [
  | inl same ↦
      let (p, q) =
        key_injective f g n m hf hg
          ((string_key.same_iff (registry_key f n) (registry_key g m)).0 same) in
      let a = (string_key.same_iff f g).1 p in
      let b = (string_key.same_iff n m).1 q in same ∙ sym (and_true a b)
  | inr differ ↦ elim (Bool-cases (f == g && n == m)) [
    | inr neither ↦ differ ∙ sym neither
    | inl both ↦
        let p = (string_key.same_iff f g).0 (ground arith) in
        let q = (string_key.same_iff n m).0 (ground arith) in
        absurd (
          impossible
            (sym ((string_key.same_iff (registry_key f n) (registry_key g m)).1 (cc)) ∙ differ))
  ]
]
  where
    impossible : true ≡ false → ⊥
    impossible e = cc

    and_true : f == g ≡ true → n == m ≡ true → (f == g && n == m) ≡ true
    and_true a b = ground arith

module _ {ℓ} {A W J : Type ℓ} where
  -- what is found under a name after a class has been put under its own
  abbrev pub Found :
      String
      → String
      → AdapterClass A W J
      → ProviderManifest
      → Registry A W J
      → Registry A W J
      → Type ℓ
  Found family provider cls m adapters adapters' = get_adapter_class family provider adapters' ≡ (
      if family_value m.family == family && m.name == provider
      then ok (cls, m)
      else get_adapter_class family provider adapters)

  added : AdapterClass A W J → ProviderManifest → Registry A W J → Registry A W J
  added cls m adapters = put (registry_key (family_value m.family) m.name) (cls, m) adapters

  added-Found :
      (family provider : String) (m : ProviderManifest) (cls : AdapterClass A W J)
      (adapters : Registry A W J)
      → NoDot family
      → Found family provider cls m adapters (added cls m adapters)
  unfolding get_adapter_class added
  added-Found family provider m cls adapters h =
      ap (class_or_error key) (get-put own key (cls, m) adapters)
      ∙ by_test (own == key) (family_value m.family == family && m.name == provider)
          (keys_agree (family_value m.family) m.name family provider (family-NoDot m.family) h)
    where
      key : String
      key = registry_key family provider

      own : String
      own = registry_key (family_value m.family) m.name

      by_test :
          (b c : Bool)
          → b ≡ c
          → class_or_error key (if b then some (cls, m) else get key adapters)
            ≡ (if c then ok (cls, m) else class_or_error key (get key adapters))
      by_test true true e = refl
      by_test false false e = refl
      by_test true false e = cc
      by_test false true e = cc

  -- what was checked of a class that is registered
  abbrev pub IsSound : AdapterClass A W J → ProviderManifest → Type 0
  IsSound cls m =
      (cls.manifest ≡ manifest_of m)
      × (validate m ≡ [])
      × (first_missing cls.implements m.capabilities ≡ none)

  register_cases :
      (cls : AdapterClass A W J) (adapters : Registry A W J)
      → ((e : Exn) × (register cls adapters ≡ (raise e, adapters)))
        ⊎ ((m : ProviderManifest) × IsSound cls m
            × (register cls adapters ≡ (ok tt, added cls m adapters)))
  unfolding register register_with check_manifest check_capabilities add_class added
  register_cases cls adapters = by_manifest cls.manifest refl
    where
      Cases : Outcome (Unit {0}) × Registry A W J → Type ℓ
      Cases r =
          ((e : Exn) × (r ≡ (raise e, adapters)))
          ⊎ ((m : ProviderManifest) × IsSound cls m × (r ≡ (ok tt, added cls m adapters)))

      by_capabilities :
          (m : ProviderManifest) (cap : Option String)
          → cls.manifest ≡ manifest_of m
          → validate m ≡ []
          → first_missing cls.implements m.capabilities ≡ cap
          → Cases (check_capabilities cls m cap adapters)
      by_capabilities m none p q r = inr (m, (p, q, r), refl)
      by_capabilities m (some cap) p q r = inl (_, refl)

      by_errors :
          (m : ProviderManifest) (errors : List String)
          → cls.manifest ≡ manifest_of m
          → validate m ≡ errors
          → Cases (check_manifest cls m errors adapters)
      by_errors m [] p q = by_capabilities m (first_missing cls.implements m.capabilities) p q refl
      by_errors m (error ∷ errors) p q = inl (_, refl)

      by_manifest :
          (x : ManifestAttribute) → cls.manifest ≡ x → Cases (register_with cls x adapters)
      by_manifest absent p = inl (_, refl)
      by_manifest other_object p = inl (_, refl)
      by_manifest (manifest_of m) p = by_errors m (validate m) p refl

  -- Registering a class either raises and leaves the registry as it was, or the class has a
  -- manifest without errors and implements what that declares, and then looking up any provider under
  -- a family without a dot finds the class if it has the family and the name of its manifest, and
  -- what was found before if not.
  pub register-Found :
      (cls : AdapterClass A W J) (adapters : Registry A W J) (family provider : String)
      → NoDot family
      → ((e : Exn) × (register cls adapters ≡ (raise e, adapters)))
        ⊎ ((m : ProviderManifest) × IsSound cls m
            × Found family provider cls m adapters (register cls adapters).1)
  register-Found cls adapters family provider h = elim (register_cases cls adapters) [
    | inl refused ↦ inl refused
    | inr (m, sound, e) ↦ inr (
      m,
      sound,
      ap (λ r. get_adapter_class family provider r.1) e
          ∙ added-Found family provider m cls adapters h,
    )
  ]
