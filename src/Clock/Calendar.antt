-- ===== src/Clock/Calendar.antt =====
-- kernel/time.c: the loops of the calendar.
use riscv_os.Prelude.{
  ℕ, zero, suc, ◌+◌, ◌-◌, ◌≤◌, ◌<◌, ◌≡◌, refl, ◌∙◌, ap, some, List, [], ◌∷◌, inl, inr, length,
  get_or, ltb, arith, ◌*◌, true, Bool-cases, ltb→lt, ltb_false→le,
}
use riscv_os.Clock.{
  is_leap, is_leap_february, days_in_year, month_length, add_years, add_months, find_year,
  find_month, month_days, int_end,
}

-- The two tests for a leap year in the code agree at every year.
pub is_leap-is_leap_february : (y : ℕ) → is_leap y ≡ is_leap_february y
unfolding is_leap is_leap_february
is_leap-is_leap_february y = ground arith

pub days_in_year_pos : (y : ℕ) → 365 ≤ days_in_year y
unfolding days_in_year
days_in_year_pos y = ground arith

pub add_years_acc : (n y a : ℕ) → add_years n y a ≡ a + add_years n y 0
unfolding add_years
add_years_acc zero y a = omega arith
add_years_acc (suc n) y a = omega (
  arith,
  add_years_acc n (y + 1) (a + days_in_year y),
  add_years_acc n (y + 1) (0 + days_in_year y),
)

-- One more round adds the year behind the last.
pub add_years_last : (n y a : ℕ) → add_years (suc n) y a ≡ add_years n y a + days_in_year (y + n)
unfolding add_years
add_years_last zero y a = ap (λ k. a + days_in_year k) (omega arith)
add_years_last (suc n) y a =
    add_years_last n (y + 1) (a + days_in_year y)
    ∙ ap (λ k. add_years (suc n) y a + days_in_year k) (omega arith)

-- The year loop ends, `k` years on, in a year that holds the day.
pub find_year_total :
    (fuel year days : ℕ)
    → days < fuel
    → 365 * year + days < 365 * int_end
    → (k y rest : ℕ) × (y ≡ year + k)
      × (find_year fuel year days ≡ some (y, rest))
      × (rest < days_in_year y)
      × (add_years k year 0 + rest ≡ days)
      × (y < int_end)
unfolding find_year add_years
find_year_total zero year days h small_year = absurd (omega arith)
find_year_total (suc fuel) year days h small_year =
    elim (Bool-cases (ltb days (days_in_year year))) [
      | inl e ↦ (0, year, days, omega arith, rw e, ltb→lt _ _ e, omega arith, omega arith)
      | inr e ↦
          let le = ltb_false→le days (days_in_year year) e in
          let (k, y, rest, ey, found, small, total, top) =
            find_year_total fuel (year + 1) (days - days_in_year year)
              (omega (arith, days_in_year_pos year)) (omega (arith, days_in_year_pos year)) in
          let fits : ltb (year + 1) int_end ≡ true = ground (arith, days_in_year_pos year) in
          (
            suc k,
            y,
            rest,
            omega arith,
            rw (e, fits) found,
            small,
            omega (arith, add_years_acc k (year + 1) (0 + days_in_year year)),
            top,
          )
    ]

-- The days of the months from `m` on.
unfoldable pub months_total : ℕ → ℕ → List ℕ → ℕ
months_total year m [] = 0
months_total year m (dim ∷ dims) = month_length year m dim + months_total year (m + 1) dims

-- The month lengths that the month loops use add up to the year length of the year loops.
pub months_total-days_in_year : (y : ℕ) → months_total y 0 month_days ≡ days_in_year y
unfolding months_total month_length days_in_year
months_total-days_in_year y = ground (arith, is_leap-is_leap_february y)

-- The month loop ends, `k` months on, in a month that holds the day.
pub find_month_total :
    (year m : ℕ) (dims : List ℕ) (days a : ℕ)
    → days < months_total year m dims
    → (k m' rest b : ℕ) × (m' ≡ m + k)
      × (k < length dims)
      × (find_month year m dims days ≡ some (m', rest))
      × (rest < month_length year m' (get_or dims k 0))
      × (add_months year k m dims a ≡ some b)
      × (b + rest ≡ a + days)
unfolding find_month add_months months_total
find_month_total year m [] days a h = absurd (omega arith)
find_month_total year m (dim ∷ dims) days a h =
    elim (Bool-cases (ltb days (month_length year m dim))) [
      | inl e ↦ (0, m, days, a, omega arith, omega arith, rw e, ltb→lt _ _ e, refl, omega arith)
      | inr e ↦
          let le = ltb_false→le days (month_length year m dim) e in
          let (k, m', rest, b, em, short, found, small, sum, total) =
            find_month_total year (m + 1) dims (days - month_length year m dim)
              (a + month_length year m dim) (omega arith) in
          (suc k, m', rest, b, omega arith, omega arith, rw e found, small, sum, omega arith)
    ]
