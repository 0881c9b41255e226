-- ===== src/Providers/FiscalCalendar/Dates.antt =====
-- The ends of the fiscal years, on the calendar.
use bapp_connectors.Base.{
  Bool-cases, ap, arith, if◌then◌else◌, inl, inr, ltb, ltb→lt, refl, ℕ, ◌+◌, ◌-◌, ◌<◌, ◌≡◌, ◌≤◌,
  ◌⊎◌, string_key,
}
use bapp_connectors.Providers.FiscalCalendar.{
  Date, days_before_year, days_in_year, fiscal_start, fiscal_year_end, is_leap, ordinal,
  september_30, weekday,
}

abbrev pub IsDate : Date → Type 0
IsDate d = (1 ≤ d.day_of_year) × (d.day_of_year ≤ days_in_year d.year)

pub days_in_year_range : (y : ℕ) → (365 ≤ days_in_year y) × (days_in_year y ≤ 366)
unfolding days_in_year
days_in_year_range y = ground arith

days_before_year_next :
    (y : ℕ) → 1 ≤ y → days_before_year (y + 1) ≡ days_before_year y + days_in_year y
unfolding days_before_year days_in_year is_leap
days_before_year_next y h = ground arith

-- a Saturday, of the last seven days of September
year_end_range :
    (y : ℕ)
    → 1 ≤ y
    → (fiscal_year_end y ≤ september_30 y)
      × (september_30 y < fiscal_year_end y + 7)
      × (weekday (fiscal_year_end y) ≡ 5)
unfolding fiscal_year_end september_30
year_end_range y h = omega (arith, days_in_year_range y)

september_30_lem : (y : ℕ) → september_30 y ≡ days_before_year y + (days_in_year y - 92)
unfolding september_30
september_30_lem y = refl

pub fiscal_start_lem : (y : ℕ) → fiscal_start (y + 1) ≡ fiscal_year_end y + 1
unfolding fiscal_start
fiscal_start_lem y = ap (λ n. fiscal_year_end n + 1) (omega arith)

-- A fiscal year has 52 or 53 weeks.
pub year_length :
    (y : ℕ)
    → 1 ≤ y
    → (fiscal_year_end (y + 1) ≡ fiscal_year_end y + 364)
      ⊎ (fiscal_year_end (y + 1) ≡ fiscal_year_end y + 371)
year_length y h = omega (
  arith,
  year_end_range y,
  year_end_range (y + 1),
  september_30_lem y,
  september_30_lem (y + 1),
  days_before_year_next y,
  days_in_year_range y,
  days_in_year_range (y + 1),
)

ordinal_lem : (d : Date) → ordinal d ≡ days_before_year d.year + d.day_of_year
unfolding ordinal
ordinal_lem d = refl

-- A day lies after the end of the fiscal year before its own, and not after the end of its own.
abbrev pub InYear : ℕ → ℕ → Type 0
InYear n y = (fiscal_year_end (y - 1) < n) × (n ≤ fiscal_year_end y)

pub year_of-InYear :
    (d : Date)
    → 2 ≤ d.year
    → IsDate d
    → InYear (ordinal d) (if ltb (fiscal_year_end d.year) (ordinal d) then d.year + 1 else d.year)
year_of-InYear d h v = elim (Bool-cases (ltb (fiscal_year_end y) (ordinal d))) [
  | inl after ↦ rw after (
    omega (arith, ltb→lt _ _ after, ap fiscal_year_end same_after),
    omega (
      arith,
      ordinal_lem d,
      v,
      days_before_year_next y,
      year_end_range (y + 1),
      september_30_lem (y + 1),
      days_in_year_range (y + 1),
    ),
  )
  | inr before ↦ rw before (
    omega (
      arith,
      ordinal_lem d,
      v,
      year_end_range (y - 1),
      september_30_lem (y - 1),
      days_before_year_next (y - 1),
      ap days_before_year same_before,
      days_in_year_range (y - 1),
    ),
    ground arith,
  )
]
  where
    y : ℕ
    y = d.year

    same_after : y + 1 - 1 ≡ y
    same_after = omega arith

    same_before : y - 1 + 1 ≡ y
    same_before = omega (arith, h)
