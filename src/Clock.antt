-- ===== src/Clock.antt =====
-- kernel/time.c: dates from a clock, and back. An `int` is a natural number below 2^31, since the
-- callers pass no negative one; where a value of the source's `int` type would be larger the result is
-- `none`. `uint64_t` sums keep their wrap. A read behind the end of `month_days` is `none`.
pub mod Calendar
pub mod RoundTrip
mod Tests
use riscv_os.Prelude.{
  u64, ℕ, zero, suc, ◌+◌, ◌-◌, ◌*◌, ◌/◌, ◌%◌, ◌^◌, Bool, true, false, not, ◌&&◌, ◌||◌, Option, none,
  some, List, [], ◌∷◌, ltb, ◌==◌, if◌then◌else◌, length, ◌>>=◌,
}

-- Behind the largest `int`
abbrev pub int_end : ℕ
int_end = 2 ^ 31

-- `struct DateTime`
pub record DateTime : Type 0 where
  pub year : ℕ
  pub month : ℕ
  pub day : ℕ
  pub hour : ℕ
  pub minute : ℕ
  pub second : ℕ
  pub weekday : ℕ

abbrev pub month_days : List ℕ
month_days = 31 ∷ 28 ∷ 31 ∷ 30 ∷ 31 ∷ 30 ∷ 31 ∷ 31 ∷ 30 ∷ 31 ∷ 30 ∷ 31 ∷ []

abbrev pub timezone_offset_secs : ℕ
timezone_offset_secs = 2 * 3600

abbrev pub ticks_per_second : ℕ
ticks_per_second = 10000000

-- The test of the year loops.
unfoldable pub is_leap : ℕ → Bool
is_leap y = y % 4 == 0 && (not (y % 100 == 0) || y % 400 == 0)

-- The test of the month loops, bracketed the other way.
unfoldable pub is_leap_february : ℕ → Bool
is_leap_february y = (y % 4 == 0 && not (y % 100 == 0)) || y % 400 == 0

unfoldable pub days_in_year : ℕ → ℕ
unfolding is_leap
days_in_year y = if is_leap y then 366 else 365

-- The year loop of `compute_epoch`: the rounds left, `y` and `days`.
unfoldable pub add_years : ℕ → ℕ → ℕ → ℕ
add_years zero y days = days
add_years (suc n) y days = add_years n (y + 1) (days + days_in_year y)

-- The days of month `m`, as the month loops compute them from its entry in `month_days`.
unfoldable pub month_length : ℕ → ℕ → ℕ → ℕ
unfolding is_leap_february
month_length year m dim = if m == 1 && is_leap_february year then dim + 1 else dim

-- The month loop of `compute_epoch`, over the rounds left and the rest of `month_days`.
unfoldable pub add_months : ℕ → ℕ → ℕ → List ℕ → ℕ → Option ℕ
add_months year zero m dims days = some days
add_months year (suc n) m [] days = none
add_months year (suc n) m (dim ∷ dims) days =
    add_months year n (m + 1) dims (days + month_length year m dim)

module _ (year month day hour minute second : ℕ) where
  -- The parameters, and the products of `int`s in the last line, are `int`s.
  unfoldable pub epoch_ints : Bool
  epoch_ints =
      ltb year int_end
      && (ltb month int_end
          && (ltb day int_end
              && (ltb (hour * 3600) int_end && (ltb (minute * 60) int_end && ltb second int_end))))

  unfoldable pub compute_epoch : Option ℕ
  unfolding add_years add_months epoch_ints
  compute_epoch =
      if epoch_ints
      then (add_months year (month - 1) 0 month_days (add_years (year - 1970) 1970 0) >>= λ days.
          some (u64 (u64 (days + day + (2 ^ 64 - 1)) * 86400 + hour * 3600 + minute * 60 + second)))
      else none

-- `while (1) { … if (days < days_in_year) break; … }`; `none` means that the fuel ran out, or that
-- `year++` overflows.
unfoldable pub find_year : ℕ → ℕ → ℕ → Option (ℕ × ℕ)
find_year zero year days = none
find_year (suc fuel) year days =
    let rest = find_year fuel (year + 1) (days - days_in_year year) in
    if ltb days (days_in_year year)
    then some (year, days)
    else if ltb (year + 1) int_end
    then rest
    else none

-- The month loop, over the rest of `month_days`.
unfoldable pub find_month : ℕ → ℕ → List ℕ → ℕ → Option (ℕ × ℕ)
find_month year month [] days = none
find_month year month (dim ∷ dims) days =
    let rest = find_month year (month + 1) dims (days - month_length year month dim) in
    if ltb days (month_length year month dim) then some (month, days) else rest

-- The fields that the day number's year, month and rest determine, with the time of the day.
abbrev pub civil : ℕ → ℕ → ℕ → ℕ → DateTime
civil epoch year month rest = record {
  year = year;
  month = month + 1;
  day = rest + 1;
  hour = epoch % 86400 / 3600 % 24;
  minute = epoch % 86400 / 60 % 60;
  second = epoch % 86400 % 60;
  weekday = (epoch / 86400 + 4) % 7;
}

-- `compute_datetime_from_epoch` behind the timezone offset.
unfoldable pub from_local : ℕ → Option DateTime
unfolding find_year find_month
from_local epoch = elim (find_year (epoch / 86400 + 1) 1970 (epoch / 86400)) [
  | none ↦ none
  | some (year, days) ↦ elim (find_month year 0 month_days days) [
    | none ↦ none
    | some (month, rest) ↦ some (civil epoch year month rest)
  ]
]

unfoldable pub compute_datetime_from_epoch : ℕ → Option DateTime
unfolding from_local
compute_datetime_from_epoch epoch = from_local (u64 (epoch + timezone_offset_secs))

-- `build` is the epoch that `compute_epoch` gives for the constants of the generated header.
unfoldable pub compute_datetime : Option ℕ → ℕ → Option DateTime
unfolding compute_datetime_from_epoch
compute_datetime build ticks = elim build [
  | none ↦ none
  | some base ↦ compute_datetime_from_epoch (u64 (base + ticks / ticks_per_second))
]
