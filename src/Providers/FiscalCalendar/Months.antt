-- ===== src/Providers/FiscalCalendar/Months.antt =====
-- The search for the month of a day.
pub mod Ranges
use mathlib.Core.Path.{subst}
use bapp_connectors.Base.{
  Bool, Bool-cases, List, String, [], ap, arith, false, if◌then◌else◌, inl, inr, leb, ltb, nat_eq,
  none, refl, some, string_key, sym, true, ℕ, ◌&&◌, ◌*◌, ◌+◌, ◌-◌, ◌<◌, ◌==◌, ◌||◌, ◌∙◌, ◌∷◌, ◌≡◌,
  ◌≤◌,
}
use bapp_connectors.Providers.FiscalCalendar.Dates.{
  InYear, IsDate, fiscal_start_lem, year_length, year_of-InYear,
}
use bapp_connectors.Providers.FiscalCalendar.Labels.{label_inj, parse_label-label}
use bapp_connectors.Providers.FiscalCalendar.{
  Date, FiscalMonths, fiscal_months, fiscal_period_for, fiscal_range, fiscal_start, fiscal_year_end,
  fiscal_year_for, fiscal_year_of, label, label_months, label_year, months_from, ordinal, period_in,
  range_in, value_error, weeks_for, weeks_of_year, with_extra_week,
}
use bapp_connectors.Effect.{Outcome, bind_ok, map_ok, ok, raise}
use bapp_connectors.Base.Dict.{get, same_refl}
use bapp_connectors.Errors.{exception}

abbrev has_month : ℕ → List ℕ → Bool
has_month m [] = false
has_month m (k ∷ months) = nat_eq k m || has_month m months

-- different months of the year
abbrev AreMonths : List ℕ → Type 0
AreMonths [] = Unit
AreMonths (m ∷ months) = (1 ≤ m) × (m ≤ 12) × (has_month m months ≡ false) × AreMonths months

-- as many weeks as months, and no month without any
abbrev Fits : List ℕ → List ℕ → Type 0
Fits [] [] = Unit
Fits (m ∷ months) (w ∷ weeks) = (1 ≤ w) × Fits months weeks
Fits _ _ = ⊥

abbrev days : List ℕ → ℕ
days [] = 0
days (w ∷ weeks) = 7 * w + days weeks

has_month_range :
    (m : ℕ) (months : List ℕ) → AreMonths months → has_month m months ≡ true → (1 ≤ m) × (m ≤ 12)
has_month_range m [] h q = cc
has_month_range m (k ∷ months) h q = elim (Bool-cases (nat_eq k m)) [
  | inl same ↦ ground arith
  | inr other ↦ has_month_range m months h.3 (ground arith)
]

label_year-le : (y m : ℕ) → label_year y m ≤ y
label_year-le y m = ground arith

has_month_here : (m : ℕ) (months : List ℕ) → has_month m (m ∷ months) ≡ true
has_month_here m months = ground arith

has_month_later :
    (k m : ℕ) (months : List ℕ) → has_month k months ≡ true → has_month k (m ∷ months) ≡ true
has_month_later k m months h = ground arith

has_month_other :
    (m k : ℕ) (months : List ℕ)
    → has_month m months ≡ false
    → has_month k months ≡ true
    → nat_eq m k ≡ false
has_month_other m k months out has = elim (Bool-cases (nat_eq m k)) [
  | inr differ ↦ differ
  | inl same ↦
      let e : m ≡ k = ground arith in
      let moved : has_month m months ≡ true = ap (λ n. has_month n months) e ∙ has in absurd cc
]

within : (a d b : ℕ) → leb a d && leb d b ≡ true → (a ≤ d) × (d ≤ b)
within a d b h = ground arith

not_within : (a d w : ℕ) → a ≤ d → leb a d && leb d (a + 7 * w - 1) ≡ false → a + 7 * w ≤ d
not_within a d w lo h = ground arith

get_here : (k : String) (v : ℕ × ℕ) (d : FiscalMonths) → get k ((k, v) ∷ d) ≡ some v
get_here k v d = ap (λ test. if test then some v else get k d) (same_refl k)

get_later :
    (j k : String) (v : ℕ × ℕ) (d : FiscalMonths) → (j == k) ≡ false → get k ((j, v) ∷ d) ≡ get k d
get_later j k v d h = ap (λ test. if test then some v else get k d) h

nat_eq_other : (m k : ℕ) → nat_eq m k ≡ false → m ≡ k → ⊥
nat_eq_other m k other e = ground arith

module _ (fiscal_year day : ℕ) (hy : fiscal_year < 10000) where
  abbrev name : ℕ → String
  name m = label (label_year fiscal_year m) m

  -- A month of the list that the day is found in, and that is found by its label.
  abbrev Found : List ℕ → FiscalMonths → Type 0
  Found months l =
      (m : ℕ) × (start : ℕ) × (end : ℕ) × (has_month m months ≡ true)
      × (period_in day l ≡ ok (name m))
      × (get (name m) l ≡ some (start, end))
      × (start ≤ day)
      × (day ≤ end)

  name_other :
      (m k : ℕ)
      → (1 ≤ m) × (m ≤ 12)
      → (1 ≤ k) × (k ≤ 12)
      → nat_eq m k ≡ false
      → (name m == name k) ≡ false
  name_other m k hm hk other = elim (Bool-cases (name m == name k)) [
    | inr differ ↦ differ
    | inl same ↦
        let e : m ≡ k =
          label_inj (label_year fiscal_year m) m (label_year fiscal_year k) k
            (omega (arith, label_year-le fiscal_year m, hy))
            (omega (arith, label_year-le fiscal_year k, hy)) hm hk
            ((string_key.same_iff (name m) (name k)).0 same) in
        absurd (nat_eq_other m k other e)
  ]

  abbrev rest_of : ℕ → ℕ → List ℕ → List ℕ → FiscalMonths
  rest_of cursor w months weeks = months_from fiscal_year (cursor + 7 * w) months weeks

  Found-here :
      (cursor m w : ℕ) (l : FiscalMonths) (months : List ℕ)
      → leb cursor day && leb day (cursor + 7 * w - 1) ≡ true
      → Found (m ∷ months) ((name m, (cursor, cursor + 7 * w - 1)) ∷ l)
  unfolding period_in
  Found-here cursor m w l months here = (
    m,
    cursor,
    cursor + 7 * w - 1,
    has_month_here m months,
    ap (λ test. if test then ok (name m) else period_in day l) here,
    get_here (name m) _ l,
    (within cursor day _ here).0,
    (within cursor day _ here).1,
  )

  Found-later :
      (cursor m w : ℕ) (l : FiscalMonths) (months : List ℕ)
      → AreMonths (m ∷ months)
      → leb cursor day && leb day (cursor + 7 * w - 1) ≡ false
      → Found months l
      → Found (m ∷ months) ((name m, (cursor, cursor + 7 * w - 1)) ∷ l)
  unfolding period_in
  Found-later cursor m w l months am later (k, start, end, has, period, found, lo, hi) = (
    k,
    start,
    end,
    has_month_later k m months has,
    ap (λ test. if test then ok (name m) else period_in day l) later ∙ period,
    get_later (name m) (name k) _ l (
          name_other m k (am.0, am.1) (has_month_range k months am.3 has)
            (has_month_other m k months am.2 has))
        ∙ found,
    lo,
    hi,
  )

  months-Found :
      (cursor : ℕ) (months weeks : List ℕ)
      → AreMonths months
      → Fits months weeks
      → cursor ≤ day
      → day < cursor + days weeks
      → Found months (months_from fiscal_year cursor months weeks)
  unfolding months_from
  months-Found cursor [] [] am fit lo hi = absurd (omega (arith, lo, hi))
  months-Found cursor (m ∷ months) [] am fit lo hi = absurd fit
  months-Found cursor [] (w ∷ weeks) am fit lo hi = absurd fit
  months-Found cursor (m ∷ months) (w ∷ weeks) am fit lo hi =
      elim (Bool-cases (leb cursor day && leb day (cursor + 7 * w - 1))) [
        | inl here ↦ Found-here cursor m w _ months here
        | inr later ↦ Found-later cursor m w _ months am later (
            months-Found (cursor + 7 * w) months weeks am.3 fit.1 (not_within cursor day w lo later)
              (omega (arith, hi)))
      ]
