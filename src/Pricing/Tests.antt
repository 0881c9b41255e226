-- ===== src/Pricing/Tests.antt =====
-- Prices at 19% and customer keys, and witnesses of their theorems.
use Prim.Native.Char.{Char, code}
use bapp_connectors.Base.{
  Bool-cases, String, arith, false, if◌then◌else◌, inl, inr, nat_eq, refl, true, ◌*◌, ◌+◌, ◌||◌,
  ◌≡◌, ◌≤◌,
}
use bapp_connectors.Pricing.{Amount, quantize, to_gross, to_net}
use bapp_connectors.Pricing.RoundTrip.{cents, to_net-to_gross}
use bapp_connectors.Pricing.CustomerKey.{
  has_no_small, is_capital, is_digit, is_key, is_small, normalise_customer_key,
  normalise_customer_key-is_key,
}

abbrev vat : Amount
vat = record { units = 19; scale = 100 }

gross_test : to_gross (cents 1000) vat ≡ cents 1190
unfolding to_gross quantize
gross_test = refl

-- A gross price of three cents comes back as four.
gross_again_test : to_gross (to_net (cents 3) vat) vat ≡ cents 4
unfolding to_gross to_net quantize
gross_again_test = refl

to_net-to_gross_example :
    let g = to_gross (to_net (cents 1234) vat) vat in
    (to_net (to_gross (cents 1234) vat) vat ≡ cents 1234)
    × (g.scale ≡ 100)
    × (2 * (g.units * 100) ≤ 2 * (1234 * 100) + (2 * 100 + 19))
    × (2 * (1234 * 100) ≤ 2 * (g.units * 100) + (2 * 100 + 19))
to_net-to_gross_example = to_net-to_gross vat (omega arith) 1234

-- `str.upper` on texts that have no small letters but r and o
abbrev upper_char : Char → Char
upper_char c = if nat_eq (code c) 114 then "R" else if is_small (code c) then "O" else c

abbrev upper_ro : String → String
upper_ro String.[] = ""
upper_ro (String.◌∷◌ c s) = String.◌∷◌ (upper_char c) (upper_ro s)

upper_char-is_small : (c : Char) → is_small (code (upper_char c)) ≡ false
upper_char-is_small c = elim (Bool-cases (nat_eq (code c) 114)) [
  | inl r ↦ rw r refl
  | inr other ↦ elim (Bool-cases (is_small (code c))) [
    | inl small ↦ rw (other, small) refl
    | inr big ↦ rw (other, big) big
  ]
]

upper_char_same : (c : Char) → is_digit (code c) || is_capital (code c) ≡ true → upper_char c ≡ c
upper_char_same c h = ground arith

upper_ro-has_no_small : (s : String) → has_no_small (upper_ro s) ≡ true
upper_ro-has_no_small String.[] = refl
upper_ro-has_no_small (String.◌∷◌ c s) = rw (upper_char-is_small c) (upper_ro-has_no_small s)

upper_ro_same : (s : String) → is_key s ≡ true → upper_ro s ≡ s
upper_ro_same String.[] h = refl
upper_ro_same (String.◌∷◌ c s) h =
    let first : is_digit (code c) || is_capital (code c) ≡ true = ground arith in
    let rest : is_key s ≡ true = ground arith in
    rw (upper_char_same c first, upper_ro_same s rest) refl

customer_key_test : normalise_customer_key upper_ro "ro 12-34" ≡ "1234"
unfolding normalise_customer_key
customer_key_test = refl

normalise_customer_key-is_key_example :
    let key = normalise_customer_key upper_ro "ro 12-34" in
    (is_key key ≡ true) × (normalise_customer_key upper_ro key ≡ key)
normalise_customer_key-is_key_example =
    normalise_customer_key-is_key upper_ro upper_ro-has_no_small upper_ro_same "ro 12-34"
