-- ===== src/Pricing/CustomerKey.antt =====
-- core/pricing/customer_key.py. `str.upper`, which works on all of Unicode, is an argument.
use Prim.Native.Char.{code}
use bapp_connectors.Base.{
  Bool, Bool-cases, String, ap, arith, if◌then◌else◌, inl, inr, leb, not, refl, true, ℕ, ◌&&◌, ◌||◌,
  ◌∙◌, ◌≡◌, string_key,
}

abbrev pub is_digit : ℕ → Bool
is_digit n = leb 48 n && leb n 57

abbrev pub is_capital : ℕ → Bool
is_capital n = leb 65 n && leb n 90

abbrev pub is_small : ℕ → Bool
is_small n = leb 97 n && leb n 122

-- `ch.isascii() and ch.isalnum()`
abbrev is_kept : ℕ → Bool
is_kept n = is_digit n || is_capital n || is_small n

abbrev is_letter : ℕ → Bool
is_letter n = is_capital n || is_small n

pub compact : String → String
compact String.[] = ""
compact (String.◌∷◌ c s) =
    let rest = compact s in if is_kept (code c) then String.◌∷◌ c rest else rest

-- `isdigit` of a text of ASCII characters
unfoldable pub all_digits : String → Bool
all_digits String.[] = true
all_digits (String.◌∷◌ c s) = is_digit (code c) && all_digits s

pub drop_country : String → String
unfolding all_digits
drop_country String.[] = ""
drop_country (String.◌∷◌ c String.[]) = String.◌∷◌ c ""
drop_country (String.◌∷◌ c (String.◌∷◌ d String.[])) = String.◌∷◌ c (String.◌∷◌ d "")
drop_country (String.◌∷◌ c (String.◌∷◌ d (String.◌∷◌ e s))) =
    let rest = String.◌∷◌ e s in
    if is_letter (code c) && is_letter (code d) && all_digits rest
    then rest
    else String.◌∷◌ c (String.◌∷◌ d rest)

unfoldable pub normalise_customer_key : (String → String) → String → String
unfolding compact drop_country
normalise_customer_key upper raw = drop_country (compact (upper raw))

-- Only digits and capital letters.
abbrev pub is_key : String → Bool
is_key String.[] = true
is_key (String.◌∷◌ c s) = (is_digit (code c) || is_capital (code c)) && is_key s

-- No small letters, other than beyond ASCII.
abbrev pub has_no_small : String → Bool
has_no_small String.[] = true
has_no_small (String.◌∷◌ c s) = not (is_small (code c)) && has_no_small s

compact-is_key : (s : String) → has_no_small s ≡ true → is_key (compact s) ≡ true
unfolding compact
compact-is_key String.[] h = refl
compact-is_key (String.◌∷◌ c s) h = ground (arith, compact-is_key s)

compact_id : (s : String) → is_key s ≡ true → compact s ≡ s
unfolding compact
compact_id String.[] h = refl
compact_id (String.◌∷◌ c s) h = ground (arith, compact_id s)

drop_country-is_key : (s : String) → is_key s ≡ true → is_key (drop_country s) ≡ true
unfolding drop_country
drop_country-is_key String.[] h = refl
drop_country-is_key (String.◌∷◌ c String.[]) h = h
drop_country-is_key (String.◌∷◌ c (String.◌∷◌ d String.[])) h = h
drop_country-is_key (String.◌∷◌ c (String.◌∷◌ d (String.◌∷◌ e s))) h =
    elim (Bool-cases (is_letter (code c) && is_letter (code d) && all_digits (String.◌∷◌ e s))) [
      | inl short ↦ rw short (ground arith)
      | inr long ↦ rw long h
    ]

drop_country_digits : (s : String) → all_digits s ≡ true → drop_country s ≡ s
unfolding drop_country
drop_country_digits String.[] h = refl
drop_country_digits (String.◌∷◌ c String.[]) h = refl
drop_country_digits (String.◌∷◌ c (String.◌∷◌ d String.[])) h = refl
drop_country_digits (String.◌∷◌ c (String.◌∷◌ d (String.◌∷◌ e s))) h =
    elim (Bool-cases (is_letter (code c) && is_letter (code d) && all_digits (String.◌∷◌ e s))) [
      | inl short ↦ absurd (ground arith)
      | inr long ↦ rw long refl
    ]

drop_country_twice : (s : String) → drop_country (drop_country s) ≡ drop_country s
unfolding drop_country
drop_country_twice String.[] = refl
drop_country_twice (String.◌∷◌ c String.[]) = refl
drop_country_twice (String.◌∷◌ c (String.◌∷◌ d String.[])) = refl
drop_country_twice (String.◌∷◌ c (String.◌∷◌ d (String.◌∷◌ e s))) =
    elim (Bool-cases (is_letter (code c) && is_letter (code d) && all_digits (String.◌∷◌ e s))) [
      | inl short ↦ rw short (drop_country_digits (String.◌∷◌ e s) (ground arith))
      | inr long ↦ rw (long, drop_country, long) refl
    ]

module _ (upper : String → String)
    -- `str.upper` leaves no small letter of ASCII, and capital letters and digits as they are
    (no_small : (s : String) → has_no_small (upper s) ≡ true)
    (same : (s : String) → is_key s ≡ true → upper s ≡ s) where
  -- Provided that `str.upper` leaves no small letter of ASCII and keeps capital letters and digits, the
  -- key of a customer has only capital letters and digits of ASCII and is its own key.
  pub normalise_customer_key-is_key :
      (raw : String)
      → let key = normalise_customer_key upper raw in
        (is_key key ≡ true) × (normalise_customer_key upper key ≡ key)
  unfolding normalise_customer_key
  normalise_customer_key-is_key raw =
      let kept = compact (upper raw) in
      let key = drop_country kept in
      let good = drop_country-is_key kept (compact-is_key (upper raw) (no_small raw)) in
      (
        good,
        ap (λ s. drop_country (compact s)) (same key good)
            ∙ ap drop_country (compact_id key good)
            ∙ drop_country_twice kept,
      )
