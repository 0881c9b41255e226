-- ===== src/Providers/FiscalCalendar/Periods.antt =====
-- The periods between two days, and the day of payment, of appstore/apple/fiscal_calendar.py.
use bapp_connectors.Base.{
  List, Option, String, [], if◌then◌else◌, leb, ltb, none, some, suc, zero, ℕ, ◌&&◌, ◌++◌, ◌+◌, ◌-◌,
  ◌∷◌, string_key,
}
use bapp_connectors.Effect.{Outcome, bind_ok, map_ok, ok, raise}
use bapp_connectors.Providers.FiscalCalendar.{
  Date, FiscalMonths, fiscal_months, fiscal_range, fiscal_year_for, ordinal,
}

-- the months that have a day from the first to the last
pub meeting : ℕ → ℕ → FiscalMonths → List String
meeting first last [] = []
meeting first last ((period, (start, end)) ∷ months) =
    let rest = meeting first last months in
    if leb first end && leb start last then period ∷ rest else rest

-- the loop over the years, of which there are as many as counted
pub periods_from : ℕ → ℕ → ℕ → ℕ → Outcome (List String)
unfolding fiscal_months meeting
periods_from first last zero year = ok []
periods_from first last (suc n) year =
    let rest = periods_from first last n (year + 1) in
    bind_ok (λ months. map_ok (λ periods. meeting first last months ++ periods) rest)
      (fiscal_months year)

unfoldable pub fiscal_periods_between : Date → Date → Outcome (List String)
unfolding fiscal_year_for periods_from ordinal
fiscal_periods_between start end =
    if ltb (ordinal end) (ordinal start)
    then ok []
    else bind_ok
        (λ y.
          bind_ok (λ z. periods_from (ordinal start) (ordinal end) (z + 1 - y) y)
            (fiscal_year_for end))
        (fiscal_year_for start)

-- `none` where the period is invalid
unfoldable pub payment_date : String → Option ℕ
unfolding fiscal_range
payment_date period = elim (fiscal_range period) [
  | ok (start, end) ↦ some (end + 33)
  | raise _ ↦ none
]
