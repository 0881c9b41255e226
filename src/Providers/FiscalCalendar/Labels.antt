-- ===== src/Providers/FiscalCalendar/Labels.antt =====
-- The labels of months, printed and read.
use Prim.Native.Char.{code}
use bapp_connectors.Base.{
  String, ap, arith, if◌then◌else◌, leb, refl, some, suc, sym, true, zero, ℕ, ◌%◌, ◌&&◌, ◌*◌, ◌+◌,
  ◌-◌, ◌/◌, ◌<◌, ◌∙◌, ◌≡◌, ◌≤◌, string_key,
}
use bapp_connectors.Effect.{Outcome, bind_ok, map_ok, ok, raise}
use bapp_connectors.Providers.FiscalCalendar.{
  after_dash, after_year, apple_report_date, check_month, digit_char, fiscal_year_of, label,
  label_year, parse_label, period_from_apple_report_date, period_label, report_label, take_digits,
  to_end,
}

digit_code : (k : ℕ) → k < 10 → code (digit_char k) ≡ 48 + k
digit_code zero h = refl
digit_code (suc zero) h = refl
digit_code (suc (suc zero)) h = refl
digit_code (suc (suc (suc zero))) h = refl
digit_code (suc (suc (suc (suc zero)))) h = refl
digit_code (suc (suc (suc (suc (suc zero))))) h = refl
digit_code (suc (suc (suc (suc (suc (suc zero)))))) h = refl
digit_code (suc (suc (suc (suc (suc (suc (suc zero))))))) h = refl
digit_code (suc (suc (suc (suc (suc (suc (suc (suc zero)))))))) h = refl
digit_code (suc (suc (suc (suc (suc (suc (suc (suc (suc zero))))))))) h = refl
digit_code (suc (suc (suc (suc (suc (suc (suc (suc (suc (suc n)))))))))) h =
    absurd (omega (arith, h))

take_digits-digit_char :
    (j n k : ℕ) (s : String)
    → k < 10
    → take_digits (suc j) n (String.◌∷◌ (digit_char k) s) ≡ take_digits j (n * 10 + k) s
unfolding take_digits
take_digits-digit_char j n k s h =
    let e = digit_code k h in
    let test : leb 48 (code (digit_char k)) && leb (code (digit_char k)) 57 ≡ true =
      ground (arith, e) in
    rw test (ap (λ d. take_digits j (n * 10 + d) s) (omega (arith, e)))

take_digits_end : (n : ℕ) (s : String) → take_digits zero n s ≡ some (n, s)
unfolding take_digits
take_digits_end n s = refl

year_digits :
    (y : ℕ) (s : String)
    → y < 10000
    → take_digits 4 0 (
        String.◌∷◌ (digit_char (y / 1000)) (
          String.◌∷◌
            (digit_char (y / 100 % 10))
            (String.◌∷◌ (digit_char (y / 10 % 10)) (String.◌∷◌ (digit_char (y % 10)) s))))
      ≡ some (y, s)
year_digits y s h =
    take_digits-digit_char 3 0 (y / 1000) _ (omega (arith, h))
    ∙ take_digits-digit_char 2 _ (y / 100 % 10) _ (omega arith)
    ∙ take_digits-digit_char 1 _ (y / 10 % 10) _ (omega arith)
    ∙ take_digits-digit_char 0 _ (y % 10) s (omega arith)
    ∙ take_digits_end _ s
    ∙ ap (λ n. some (n, s)) (omega (arith, h))

month_digits :
    (m : ℕ)
    → m < 100
    → take_digits 2 0 (String.◌∷◌ (digit_char (m / 10)) (String.◌∷◌ (digit_char (m % 10)) ""))
      ≡ some (m, "")
month_digits m h =
    take_digits-digit_char 1 0 (m / 10) _ (omega (arith, h))
    ∙ take_digits-digit_char 0 _ (m % 10) "" (omega arith)
    ∙ take_digits_end _ ""
    ∙ ap (λ n. some (n, "")) (omega (arith, h))

pub parse_label-label : (y m : ℕ) → y < 10000 → 1 ≤ m → m ≤ 12 → parse_label (label y m) ≡ ok (y, m)
unfolding parse_label label check_month after_year after_dash to_end
parse_label-label y m hy lo hi =
    ap (λ o. check_month (after_year o)) (year_digits y _ hy)
    ∙ ap (λ o. check_month (to_end y o)) (month_digits m (omega (arith, hi)))
    ∙ ground arith

-- A label is read back as its year and month, so labels of different months differ.
pub label_inj :
    (y m z n : ℕ)
    → y < 10000
    → z < 10000
    → (1 ≤ m) × (m ≤ 12)
    → (1 ≤ n) × (n ≤ 12)
    → label y m ≡ label z n
    → m ≡ n
label_inj y m z n hy hz hm hn e = ap (month_of 0) (
    sym (parse_label-label y m hy hm.0 hm.1)
    ∙ ap parse_label e
    ∙ parse_label-label z n hz hn.0 hn.1)
  where
    month_of : ℕ → Outcome (ℕ × ℕ) → ℕ
    month_of other (ok p) = p.1
    month_of other (raise e) = other

-- the month of a fiscal year that begins in October
abbrev pub fiscal_index : ℕ → ℕ
fiscal_index m = if leb 10 m then m - 9 else m + 3

fiscal_index_range : (m : ℕ) → 1 ≤ m → m ≤ 12 → (1 ≤ fiscal_index m) × (fiscal_index m ≤ 12)
fiscal_index_range m lo hi = ground arith

fiscal_year_of-le : (y m : ℕ) → fiscal_year_of (y, m) ≤ y + 1
fiscal_year_of-le y m = ground arith

report_label_lem :
    (y m : ℕ)
    → 1 ≤ m
    → m ≤ 12
    → report_label (y, m) ≡ label (fiscal_year_of (y, m)) (fiscal_index m)
report_label_lem y m lo hi = ap (label (fiscal_year_of (y, m))) (ground arith)

period_label_lem :
    (y m : ℕ) → 1 ≤ m → m ≤ 12 → period_label (fiscal_year_of (y, m), fiscal_index m) ≡ label y m
period_label_lem y m lo hi =
    let same : (fiscal_index m + 8) % 12 + 1 ≡ m = ground arith in
    ap (λ k. label (label_year (fiscal_year_of (y, m)) k) k) same
    ∙ ap (λ z. label z m) (ground arith)

-- For every month of a year up to 9998: the report date that Apple is asked for reads back as the same
-- period, and it is the month's place in a fiscal year that begins in October.
pub apple_report_date_back :
    (y m : ℕ)
    → y < 9999
    → 1 ≤ m
    → m ≤ 12
    → (apple_report_date (label y m) ≡ ok (label (fiscal_year_of (y, m)) (fiscal_index m)))
      × (bind_ok period_from_apple_report_date (apple_report_date (label y m)) ≡ ok (label y m))
unfolding apple_report_date period_from_apple_report_date
apple_report_date_back y m hy lo hi =
    let date = label (fiscal_year_of (y, m)) (fiscal_index m) in
    let range = fiscal_index_range m lo hi in
    let asked : apple_report_date (label y m) ≡ ok date =
      ap (map_ok report_label) (parse_label-label y m (omega (arith, hy)) lo hi)
      ∙ ap ok (report_label_lem y m lo hi) in
    let read : parse_label date ≡ ok (fiscal_year_of (y, m), fiscal_index m) =
      parse_label-label (fiscal_year_of (y, m)) (fiscal_index m)
        (omega (arith, fiscal_year_of-le y m, hy)) range.0 range.1 in
    (
      asked,
      ap (bind_ok period_from_apple_report_date) asked
          ∙ ap (map_ok period_label) read
          ∙ ap ok (period_label_lem y m lo hi),
    )
