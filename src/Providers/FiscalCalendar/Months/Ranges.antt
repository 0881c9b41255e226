-- ===== src/Providers/FiscalCalendar/Months/Ranges.antt =====
-- Every day has its fiscal month.
use mathlib.Core.Path.{subst}
use bapp_connectors.Base.{
  Bool, List, String, ap, arith, false, if◌then◌else◌, inl, inr, ltb, none, refl, some, sym, true,
  ℕ, ◌+◌, ◌-◌, ◌<◌, ◌∙◌, ◌≡◌, ◌≤◌, string_key,
}
use bapp_connectors.Base.Dict.{get}
use bapp_connectors.Errors.{exception}
use bapp_connectors.Effect.{Outcome, bind_ok, map_ok, ok, raise}
use bapp_connectors.Providers.FiscalCalendar.{
  Date, FiscalMonths, fiscal_months, fiscal_period_for, fiscal_range, fiscal_start, fiscal_year_end,
  fiscal_year_for, fiscal_year_of, label, label_months, label_year, months_from, ordinal, period_in,
  range_in, value_error, weeks_for, weeks_of_year, with_extra_week,
}
use bapp_connectors.Providers.FiscalCalendar.Dates.{
  InYear, IsDate, fiscal_start_lem, year_length, year_of-InYear,
}
use bapp_connectors.Providers.FiscalCalendar.Labels.{parse_label-label}
use bapp_connectors.Providers.FiscalCalendar.Months.{
  AreMonths, Fits, days, has_month_range, label_year-le, months-Found,
}

abbrev fiscal_weeks : Bool → List ℕ
fiscal_weeks long = if long then with_extra_week 2 weeks_of_year else weeks_of_year

weeks_for_lem : (long : Bool) → weeks_for (days (fiscal_weeks long)) ≡ ok (fiscal_weeks long)
unfolding weeks_for
weeks_for_lem true = refl
weeks_for_lem false = refl

-- the months of a year that is found long or short
fiscal_months_lem :
    (y : ℕ) (long : Bool)
    → 2009 ≤ y
    → fiscal_year_end (y + 1) ≡ fiscal_year_end y + days (fiscal_weeks long)
    → fiscal_months (y + 1)
      ≡ ok (months_from (y + 1) (fiscal_year_end y + 1) label_months (fiscal_weeks long))
unfolding fiscal_months
fiscal_months_lem y long h e =
    let year = y + 1 in
    let first = fiscal_year_end y + 1 in
    let months : ℕ → ℕ → Outcome FiscalMonths =
      λ s n. map_ok (months_from year s label_months) (weeks_for n) in
    let late : ltb year 2010 ≡ false = ground arith in
    let weeks : fiscal_year_end year + 1 - first ≡ days (fiscal_weeks long) = omega (arith, e) in
    ap
      (λ t.
        if t
        then value_error
        else months (fiscal_start year) (fiscal_year_end year + 1 - fiscal_start year))
      late
    ∙ ap (λ s. months s (fiscal_year_end year + 1 - s)) (fiscal_start_lem y)
    ∙ ap (months first) weeks
    ∙ ap (map_ok (months_from year first label_months)) (weeks_for_lem long)

label_months-AreMonths : AreMonths label_months
label_months-AreMonths = ground arith

fits : (long : Bool) → Fits label_months (fiscal_weeks long)
fits true = ground arith
fits false = ground arith

year_weeks :
    (y : ℕ)
    → 1 ≤ y
    → (long : Bool) × (fiscal_year_end (y + 1) ≡ fiscal_year_end y + days (fiscal_weeks long))
year_weeks y h = elim (year_length y h) [ inl short ↦ (false, short) | inr long ↦ (true, long) ]

range_in_lem : (p : String) (l : FiscalMonths) (r : ℕ × ℕ) → get p l ≡ some r → range_in p l ≡ ok r
unfolding range_in
range_in_lem p l r e =
    ap
      (λ o. elim o as (λ x. Outcome (ℕ × ℕ)) [ some range ↦ ok range | none ↦ raise (exception p) ])
      e

-- A period of which the day is one of the days.
abbrev pub HasDay : ℕ → Outcome String → Type 0
HasDay n found =
    (period : String) × (start : ℕ) × (end : ℕ) × (found ≡ ok period)
    × (fiscal_range period ≡ ok (start, end))
    × (start ≤ n)
    × (n ≤ end)

year_of_label : (y m : ℕ) → fiscal_year_of (label_year (y + 1) m, m) ≡ y + 1
year_of_label y m = ground arith

fiscal_range_lem :
    (y m : ℕ) (l : FiscalMonths) (r : ℕ × ℕ)
    → y + 1 < 10000
    → (1 ≤ m) × (m ≤ 12)
    → fiscal_months (y + 1) ≡ ok l
    → get (label (label_year (y + 1) m) m) l ≡ some r
    → fiscal_range (label (label_year (y + 1) m) m) ≡ ok r
unfolding fiscal_range
fiscal_range_lem y m l r h hm months found =
    let period = label (label_year (y + 1) m) m in
    let z = label_year (y + 1) m in
    ap (bind_ok (λ p. bind_ok (range_in period) (fiscal_months (fiscal_year_of p))))
      (parse_label-label z m (omega (arith, label_year-le (y + 1) m, h)) hm.0 hm.1)
    ∙ ap (λ year. bind_ok (range_in period) (fiscal_months year)) (year_of_label y m)
    ∙ ap (bind_ok (range_in period)) months
    ∙ range_in_lem period l r found

period_found :
    (y n : ℕ)
    → 2009 ≤ y
    → y + 1 < 10000
    → fiscal_year_end y < n
    → n ≤ fiscal_year_end (y + 1)
    → HasDay n (bind_ok (period_in n) (fiscal_months (y + 1)))
period_found y n h bound lo hi =
    let (long, e) = year_weeks y (omega (arith, h)) in
    let months = fiscal_months_lem y long h e in
    let (m, start, end, has, period, found, from, until) =
      months-Found (y + 1) n bound (fiscal_year_end y + 1) label_months (fiscal_weeks long)
        label_months-AreMonths (fits long) (omega (arith, lo)) (omega (arith, hi, e)) in
    let hm = has_month_range m label_months label_months-AreMonths has in
    (
      label (label_year (y + 1) m) m,
      start,
      end,
      ap (bind_ok (period_in n)) months ∙ period,
      fiscal_range_lem y m _ (start, end) bound hm months found,
      from,
      until,
    )

day_found :
    (y n : ℕ)
    → 2010 ≤ y
    → y < 10000
    → InYear n y
    → HasDay n (
        bind_ok
          (λ z. bind_ok (period_in n) (fiscal_months z))
          (if ltb y 2010 then value_error else ok y))
day_found y n h bound i =
    let late : ltb y 2010 ≡ false = ground arith in
    let back : y - 1 + 1 ≡ y = omega (arith, h) in
    subst
      (λ (t : Bool).
        HasDay n (
          bind_ok (λ z. bind_ok (period_in n) (fiscal_months z)) (if t then value_error else ok y)))
      (sym late)
      (subst (λ k. HasDay n (bind_ok (period_in n) (fiscal_months k))) back
        (period_found (y - 1) n (omega (arith, h)) (omega (arith, bound, h)) i.0
          (omega (arith, i, ap fiscal_year_end back))))

-- For every day of the years 2010 to 9998: a fiscal period is found, and the day lies in the range of
-- days that its label stands for.
pub fiscal_range-fiscal_period_for :
    (d : Date) → 2010 ≤ d.year → d.year < 9999 → IsDate d → HasDay (ordinal d) (fiscal_period_for d)
unfolding fiscal_period_for fiscal_year_for
fiscal_range-fiscal_period_for d lo hi v =
    let n = ordinal d in
    let y = if ltb (fiscal_year_end d.year) n then d.year + 1 else d.year in
    day_found y n (ground arith) (ground arith) (year_of-InYear d (omega (arith, lo)) v)
