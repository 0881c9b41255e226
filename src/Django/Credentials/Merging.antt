-- ===== src/Django/Credentials/Merging.antt =====
-- Dicts that are merged, and settings that a stamp is added to.
use bapp_connectors.Base.{
  Bool, Bool-cases, List, Option, String, [], ap, false, if◌then◌else◌, inl, inr, none, refl, some,
  string_key, sym, true, ◌==◌, ◌∙◌, ◌∷◌, ◌≡◌,
}
use bapp_connectors.Base.Dict.{Dict, contains, get, get-put, put, update}
use bapp_connectors.Manifest.{Setting, SettingsField, validate_settings}

abbrev pub Distinct : Dict String String → Type 0
Distinct [] = Unit
Distinct ((k, v) ∷ d) = (contains k d ≡ false) × Distinct d

abbrev pub over : Option String → Option String → Option String
over none o = o
over (some v) o = some v

absent_none :
    (o : Option String)
    → (elim o as (λ x. Bool) [ none ↦ false | some _ ↦ true ]) ≡ false
    → o ≡ none
absent_none none h = refl
absent_none (some v) h = absurd cc

get-none : (j k : String) (d : Dict String String) → contains j d ≡ false → j ≡ k → get k d ≡ none
get-none j k d h e = ap (λ n. get n d) (sym e) ∙ absent_none (get j d) h

pub get-update :
    (k : String) (d patch : Dict String String)
    → Distinct patch
    → get k (update d patch) ≡ over (get k patch) (get k d)
get-update k d [] h = refl
get-update k d ((j, v) ∷ patch) h = elim (Bool-cases (j == k)) [
  | inl same ↦
      let e : j ≡ k = (string_key.same_iff j k).0 same in
      get-update k (put j v d) patch h.1
      ∙ ap (λ o. over (get k patch) o) (get-put j k v d)
      ∙ rw (get-none j k patch h.0 e, same) refl
  | inr other ↦
      get-update k (put j v d) patch h.1
      ∙ ap (λ o. over (get k patch) o) (get-put j k v d)
      ∙ rw other refl
]

-- the name of no field
abbrev pub Undeclared : String → List SettingsField → Type 0
Undeclared name [] = Unit
Undeclared name (f ∷ fields) = ((name == f.name) ≡ false) × Undeclared name fields

pub validate_settings-put :
    (name : String) (v : Setting) (fields : List SettingsField) (config : Dict String Setting)
    → Undeclared name fields
    → validate_settings fields (put name v config) ≡ validate_settings fields config
unfolding validate_settings
validate_settings-put name v [] config h = refl
validate_settings-put name v (f ∷ fields) config h =
    let same : get f.name (put name v config) ≡ get f.name config =
      get-put name f.name v config ∙ ap (λ t. if t then some v else get f.name config) h.0 in
    rw (same, validate_settings-put name v fields config h.1) refl
