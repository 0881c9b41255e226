-- ===== src/Providers/FiscalCalendar/Tests.antt =====
-- The fiscal calendar of 2026, and witnesses of its theorems.
use bapp_connectors.Providers.FiscalCalendar.{
  Date, apple_report_date, fiscal_period_for, label, ordinal, period_from_apple_report_date,
}
use bapp_connectors.Providers.FiscalCalendar.Periods.{fiscal_periods_between, payment_date}
use bapp_connectors.Base.{[], arith, refl, some, ◌∷◌, ◌≡◌, string_key}
use bapp_connectors.Effect.{bind_ok, ok}
use bapp_connectors.Providers.FiscalCalendar.Dates.{IsDate, days_in_year_range}
use bapp_connectors.Providers.FiscalCalendar.Labels.{apple_report_date_back}
use bapp_connectors.Providers.FiscalCalendar.Months.Ranges.{HasDay, fiscal_range-fiscal_period_for}

-- the 31st of January 2026
abbrev january_31 : Date
january_31 = record { year = 2026; day_of_year = 31 }

january_31_period : fiscal_period_for january_31 ≡ ok "2026-01"
unfolding fiscal_period_for
january_31_period = refl

-- 33 days after the 31st of January
payment_date_test :
    payment_date "2026-01" ≡ some (ordinal (record { year = 2026; day_of_year = 64 }))
unfolding payment_date ordinal
payment_date_test = refl

-- from the 31st of January to the 1st of March 2026
periods_test :
    fiscal_periods_between january_31 (record { year = 2026; day_of_year = 60 })
    ≡ ok ("2026-01" ∷ "2026-02" ∷ "2026-03" ∷ [])
unfolding fiscal_periods_between
periods_test = refl

apple_report_date_back_example :
    (apple_report_date "2026-01" ≡ ok "2026-04")
    × (bind_ok period_from_apple_report_date (apple_report_date "2026-01") ≡ ok "2026-01")
unfolding label
apple_report_date_back_example =
    apple_report_date_back 2026 1 (omega arith) (omega arith) (omega arith)

january_31-IsDate : IsDate january_31
january_31-IsDate = (omega arith, omega (arith, days_in_year_range 2026))

fiscal_range-fiscal_period_for_example : HasDay (ordinal january_31) (fiscal_period_for january_31)
fiscal_range-fiscal_period_for_example =
    fiscal_range-fiscal_period_for january_31 (omega arith) (omega arith) january_31-IsDate
