-- ===== src/Providers/FiscalCalendar.antt =====
-- src/bapp_connectors/providers/appstore/apple/fiscal_calendar.py. A date is its year and the day of
-- the year, and the result of a date computation is an ordinal (`date.toordinal`). Years run up to
-- 9999, and the texts of periods are in ASCII.
pub mod Dates
pub mod Labels
pub mod Months
pub mod Periods
pub mod Tests
use bapp_connectors.Base.{
  Bool, List, Option, String, [], if◌then◌else◌, leb, length, ltb, nat_eq, none, not, some, suc,
  zero, ℕ, ◌%◌, ◌&&◌, ◌*◌, ◌+◌, ◌-◌, ◌/◌, ◌||◌, ◌∷◌, string_key,
}
use Prim.Native.Char.{Char, code}
use bapp_connectors.Base.Dict.{Dict, get}
use bapp_connectors.Errors.{exception}
use bapp_connectors.Effect.{Outcome, bind_ok, map_ok, ok, raise}

pub is_leap : ℕ → Bool
is_leap y = nat_eq (y % 4) 0 && (not (nat_eq (y % 100) 0) || nat_eq (y % 400) 0)

pub record Date : Type 0 where
  pub year : ℕ
  pub day_of_year : ℕ

pub days_in_year : ℕ → ℕ
unfolding is_leap
days_in_year y = if is_leap y then 366 else 365

-- the days of the years before
pub days_before_year : ℕ → ℕ
days_before_year year = let y = year - 1 in y * 365 + y / 4 - y / 100 + y / 400

pub ordinal : Date → ℕ
unfolding days_before_year
ordinal d = days_before_year d.year + d.day_of_year

-- Monday is 0
abbrev pub weekday : ℕ → ℕ
weekday n = (n + 6) % 7

-- `date(fiscal_year, 9, 30)`
pub september_30 : ℕ → ℕ
unfolding days_before_year days_in_year
september_30 year = days_before_year year + (days_in_year year - 92)

-- the last Saturday of September; 2 stands for -5 modulo 7
unfoldable pub fiscal_year_end : ℕ → ℕ
unfolding september_30
fiscal_year_end year = let last = september_30 year in last - (weekday last + 2) % 7

abbrev pub weeks_of_year : List ℕ
weeks_of_year = 5 ∷ 4 ∷ 4 ∷ 5 ∷ 4 ∷ 4 ∷ 5 ∷ 4 ∷ 4 ∷ 5 ∷ 4 ∷ 4 ∷ []

abbrev pub label_months : List ℕ
label_months = 10 ∷ 11 ∷ 12 ∷ 1 ∷ 2 ∷ 3 ∷ 4 ∷ 5 ∷ 6 ∷ 7 ∷ 8 ∷ 9 ∷ []

-- one week more at an index
abbrev pub with_extra_week : ℕ → List ℕ → List ℕ
with_extra_week n [] = []
with_extra_week zero (w ∷ weeks) = (w + 1) ∷ weeks
with_extra_week (suc n) (w ∷ weeks) = w ∷ with_extra_week n weeks

abbrev pub digit_char : ℕ → Char
digit_char zero = "0"
digit_char (suc zero) = "1"
digit_char (suc (suc zero)) = "2"
digit_char (suc (suc (suc zero))) = "3"
digit_char (suc (suc (suc (suc zero)))) = "4"
digit_char (suc (suc (suc (suc (suc zero))))) = "5"
digit_char (suc (suc (suc (suc (suc (suc zero)))))) = "6"
digit_char (suc (suc (suc (suc (suc (suc (suc zero))))))) = "7"
digit_char (suc (suc (suc (suc (suc (suc (suc (suc zero)))))))) = "8"
digit_char _ = "9"

-- `f"{year:04d}-{month:02d}"`, of a year below 10000 and a month below 100
pub label : ℕ → ℕ → String
label year month = String.◌∷◌ (digit_char (year / 1000)) (
    String.◌∷◌ (digit_char (year / 100 % 10)) (
      String.◌∷◌ (digit_char (year / 10 % 10)) (
        String.◌∷◌ (digit_char (year % 10)) (
          String.◌∷◌ "-"
            (String.◌∷◌ (digit_char (month / 10)) (String.◌∷◌ (digit_char (month % 10)) ""))))))

-- the digits at the start of a text, as many as asked, and what follows
pub take_digits : ℕ → ℕ → String → Option (ℕ × String)
take_digits zero n s = some (n, s)
take_digits (suc k) n String.[] = none
take_digits (suc k) n (String.◌∷◌ c s) =
    let rest = take_digits k (n * 10 + (code c - 48)) s in
    if leb 48 (code c) && leb (code c) 57 then rest else none

-- nothing may follow the month
pub to_end : ℕ → Option (ℕ × String) → Option (ℕ × ℕ)
to_end year none = none
to_end year (some (month, String.[])) = some (year, month)
to_end year (some (month, String.◌∷◌ _ _)) = none

pub after_dash : ℕ → String → Option (ℕ × ℕ)
unfolding take_digits to_end
after_dash year String.[] = none
after_dash year (String.◌∷◌ c s) =
    let found = to_end year (take_digits 2 0 s) in if nat_eq (code c) 45 then found else none

pub after_year : Option (ℕ × String) → Option (ℕ × ℕ)
unfolding after_dash
after_year none = none
after_year (some (year, s)) = after_dash year s

abbrev value_error {ℓ} : {A : Type ℓ} → Outcome A
value_error = raise (exception "ValueError")

pub check_month : Option (ℕ × ℕ) → Outcome (ℕ × ℕ)
check_month none = value_error
check_month (some (year, month)) =
    if leb 1 month && leb month 12 then ok (year, month) else value_error

-- `_parse_label`, with the form that `_PERIOD_RE` asks for
unfoldable pub parse_label : String → Outcome (ℕ × ℕ)
unfolding check_month after_year take_digits
parse_label text = check_month (after_year (take_digits 4 0 text))

abbrev pub fiscal_year_of : ℕ × ℕ → ℕ
fiscal_year_of (year, month) = if leb 10 month then year + 1 else year

abbrev pub report_label : ℕ × ℕ → String
report_label (year, month) = label (fiscal_year_of (year, month)) ((month + 2) % 12 + 1)

unfoldable pub apple_report_date : String → Outcome String
unfolding label parse_label
apple_report_date period = map_ok report_label (parse_label period)

abbrev pub label_year : ℕ → ℕ → ℕ
label_year fiscal_year month = if leb 10 month then fiscal_year - 1 else fiscal_year

abbrev pub period_label : ℕ × ℕ → String
period_label (fiscal_year, month_index) =
    let month = (month_index + 8) % 12 + 1 in label (label_year fiscal_year month) month

unfoldable pub period_from_apple_report_date : String → Outcome String
unfolding label parse_label
period_from_apple_report_date report_date = map_ok period_label (parse_label report_date)

-- The months of a year by their labels, with the ordinals of their first and last days.
abbrev pub FiscalMonths : Type 0
FiscalMonths = Dict String (ℕ × ℕ)

-- the loop over the months and their weeks
pub months_from : ℕ → ℕ → List ℕ → List ℕ → FiscalMonths
unfolding label
months_from fiscal_year cursor (month ∷ months) (weeks ∷ more) =
    (label (label_year fiscal_year month) month, (cursor, cursor + 7 * weeks - 1))
    ∷ months_from fiscal_year (cursor + 7 * weeks) months more
months_from fiscal_year cursor _ _ = []

pub fiscal_start : ℕ → ℕ
unfolding fiscal_year_end
fiscal_start fiscal_year = fiscal_year_end (fiscal_year - 1) + 1

-- the weeks of the months of a year of a length in days
pub weeks_for : ℕ → Outcome (List ℕ)
weeks_for length =
    if nat_eq length 371
    then ok (with_extra_week 2 weeks_of_year)
    else if nat_eq length 364
    then ok weeks_of_year
    else value_error

-- `fiscal_months`, of `_fiscal_months`
unfoldable pub fiscal_months : ℕ → Outcome FiscalMonths
unfolding months_from fiscal_start fiscal_year_end weeks_for
fiscal_months fiscal_year =
    if ltb fiscal_year 2010
    then value_error
    else map_ok (months_from fiscal_year (fiscal_start fiscal_year) label_months)
        (weeks_for (fiscal_year_end fiscal_year + 1 - fiscal_start fiscal_year))

pub range_in : String → FiscalMonths → Outcome (ℕ × ℕ)
range_in period months = elim (get period months) [
  | some range ↦ ok range
  | none ↦ raise (exception period)
]

unfoldable pub fiscal_range : String → Outcome (ℕ × ℕ)
unfolding parse_label fiscal_months range_in
fiscal_range period =
    bind_ok (λ p. bind_ok (range_in period) (fiscal_months (fiscal_year_of p))) (parse_label period)

unfoldable pub fiscal_year_for : Date → Outcome ℕ
unfolding ordinal fiscal_year_end
fiscal_year_for day =
    let fiscal_year =
      if ltb (fiscal_year_end day.year) (ordinal day) then day.year + 1 else day.year in
    if ltb fiscal_year 2010 then value_error else ok fiscal_year

-- the loop of `fiscal_period_for`
pub period_in : ℕ → FiscalMonths → Outcome String
period_in day [] = raise (exception "AssertionError")
period_in day ((period, (start, end)) ∷ months) =
    let rest = period_in day months in if leb start day && leb day end then ok period else rest

unfoldable pub fiscal_period_for : Date → Outcome String
unfolding fiscal_year_for fiscal_months period_in ordinal
fiscal_period_for day =
    bind_ok (λ y. bind_ok (period_in (ordinal day)) (fiscal_months y)) (fiscal_year_for day)
