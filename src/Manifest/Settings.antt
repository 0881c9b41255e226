-- ===== src/Manifest/Settings.antt =====
-- What the checks of core/manifest.py say of credentials and settings.
use bapp_connectors.Base.{
  All, Bool, Bool-cases, List, Option, Option-cases, String, [], ap, arith, false, if◌then◌else◌,
  inl, inr, none, not, refl, some, string_key, text_or_empty, true, truthy, ◌&&◌, ◌==◌, ◌∙◌, ◌∷◌,
  ◌≡◌,
}
use bapp_connectors.Base.Dict.{Dict, contains, get, get-put, put, same_refl}
use bapp_connectors.Manifest.{
  CredentialField, Setting, SettingsField, apply_defaults, is_null, validate_credentials,
  with_default,
}

-- the required fields that lack a value
abbrev pub lacks : Dict String String → CredentialField → Bool
lacks credentials f = f.required && not (truthy (text_or_empty (get f.name credentials)))

pub credentials_complete :
    (fields : List CredentialField) (credentials : Dict String String)
    → validate_credentials fields credentials ≡ []
    → All (λ f. lacks credentials f ≡ false) fields
unfolding validate_credentials
credentials_complete [] credentials h = tt
credentials_complete (f ∷ fields) credentials h =
    by_test (lacks credentials f) refl (credentials_complete fields credentials) h
  where
    by_test :
        (b : Bool)
        → lacks credentials f ≡ b
        → (validate_credentials fields credentials ≡ []
            → All (λ f. lacks credentials f ≡ false) fields)
        → (if b
            then f.name ∷ validate_credentials fields credentials
            else validate_credentials fields credentials)
          ≡ []
        → (lacks credentials f ≡ false) × All (λ f. lacks credentials f ≡ false) fields
    by_test true e next h = cc
    by_test false e next h = (e, next h)

-- A setting that was given is kept.
abbrev pub Kept : Option Setting → Option Setting → Type 0
Kept none o = Unit
Kept (some v) o = o ≡ some v

contains-some :
    (k : String) (v : Setting) (config : Dict String Setting)
    → get k config ≡ some v
    → contains k config ≡ true
contains-some k v config h = rw (contains, h) refl

contains-none :
    (k : String) (config : Dict String Setting) → get k config ≡ none → contains k config ≡ false
contains-none k config h = rw (contains, h) refl

with_default_keeps :
    (f : SettingsField) (config : Dict String Setting) (k : String) (v : Setting)
    → get k config ≡ some v
    → get k (with_default f config) ≡ some v
unfolding with_default
with_default_keeps f config k v h =
    elim (Bool-cases (not (contains f.name config) && not (is_null f.default))) [
      | inr stays ↦ rw stays h
      | inl added ↦ rw added (
          get-put f.name k f.default config ∙ elim (Bool-cases (f.name == k)) [
            | inr other ↦ rw other h
            | inl same ↦
                let there =
                  contains-some f.name v config
                    (ap (λ j. get j config) ((string_key.same_iff f.name k).0 same) ∙ h) in
                absurd (ground (arith, there, added))
          ])
    ]

pub apply_defaults_keeps :
    (fields : List SettingsField) (config : Dict String Setting) (k : String) (v : Setting)
    → get k config ≡ some v
    → get k (apply_defaults fields config) ≡ some v
unfolding apply_defaults
apply_defaults_keeps [] config k v h = h
apply_defaults_keeps (f ∷ fields) config k v h =
    apply_defaults_keeps fields (with_default f config) k v (with_default_keeps f config k v h)

-- a field with a default that has no setting
abbrev pub undefaulted : Dict String Setting → SettingsField → Bool
undefaulted config f = not (is_null f.default) && not (contains f.name config)

with_default_fills :
    (f : SettingsField) (config : Dict String Setting)
    → undefaulted (with_default f config) f ≡ false
unfolding with_default
with_default_fills f config =
    elim (Bool-cases (not (contains f.name config) && not (is_null f.default))) [
      | inr stays ↦ rw stays (ground arith)
      | inl added ↦
          let there =
            contains-some f.name f.default (put f.name f.default config)
              (get-put f.name f.name f.default config ∙ rw (same_refl f.name) refl) in
          rw added (ground (arith, there))
    ]

fill_stays :
    (f : SettingsField) (fields : List SettingsField) (config : Dict String Setting)
    → undefaulted config f ≡ false
    → undefaulted (apply_defaults fields config) f ≡ false
fill_stays f fields config h = elim (Option-cases (get f.name config)) [
  | inl absent ↦ let missing = contains-none f.name config absent in ground (arith, missing, h)
  | inr (v, there) ↦
      let kept =
        contains-some f.name v (apply_defaults fields config)
          (apply_defaults_keeps fields config f.name v there) in
      ground (arith, kept)
]

pub apply_defaults_fills :
    (fields : List SettingsField) (config : Dict String Setting)
    → All (λ f. undefaulted (apply_defaults fields config) f ≡ false) fields
unfolding apply_defaults
apply_defaults_fills [] config = tt
apply_defaults_fills (f ∷ fields) config = (
  fill_stays f fields (with_default f config) (with_default_fills f config),
  apply_defaults_fills fields (with_default f config),
)

pub Kept-apply_defaults :
    (config : Dict String Setting) (fields : List SettingsField) (k : String)
    → Kept (get k config) (get k (apply_defaults fields config))
Kept-apply_defaults config fields k = by_value (get k config) refl
  where
    by_value :
        (o : Option Setting) → get k config ≡ o → Kept o (get k (apply_defaults fields config))
    by_value none e = tt
    by_value (some v) e = apply_defaults_keeps fields config k v e
