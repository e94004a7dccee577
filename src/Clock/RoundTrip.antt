-- ===== src/Clock/RoundTrip.antt =====
-- kernel/time.c: `compute_datetime_from_epoch` and `compute_epoch` are inverse.
use riscv_os.Prelude.{
  u64, ℕ, zero, suc, ◌+◌, ◌-◌, ◌*◌, ◌/◌, ◌%◌, ◌^◌, ◌≤◌, ◌<◌, ◌≡◌, refl, ap, subst, Option, some,
  arith, get_or, true, ltb, lt→ltb,
}
use native.Mathlib.Nat.{add-sub_cancel}
use riscv_os.Clock.{
  DateTime, int_end, epoch_ints, month_days, timezone_offset_secs, month_length, add_years,
  add_months, compute_epoch, find_year, find_month, civil, from_local, compute_datetime_from_epoch,
}
use riscv_os.Clock.Calendar.{months_total-days_in_year, find_year_total, find_month_total}

-- Every field is in the range of the civil calendar.
pub record IsCivil (dt : DateTime) : Type 0 where
  pub month_low : 1 ≤ dt.month
  pub month_high : dt.month ≤ 12
  pub day_low : 1 ≤ dt.day
  pub day_high : dt.day ≤ month_length dt.year (dt.month - 1) (get_or month_days (dt.month - 1) 0)
  pub hour_high : dt.hour < 24
  pub minute_high : dt.minute < 60
  pub second_high : dt.second < 60
  pub weekday_high : dt.weekday < 7

abbrev pub epoch_of : DateTime → Option ℕ
epoch_of dt = compute_epoch dt.year dt.month dt.day dt.hour dt.minute dt.second

civil-IsCivil :
    (epoch : ℕ) {y m rest : ℕ}
    → m < 12
    → rest < month_length y m (get_or month_days m 0)
    → IsCivil (civil epoch y m rest)
civil-IsCivil epoch {y} {m} short fits = record {
  month_low = omega arith;
  month_high = omega arith;
  day_low = omega arith;
  day_high = rw (add-sub_cancel m 1) (omega arith);
  hour_high = omega arith;
  minute_high = omega arith;
  second_high = omega arith;
  weekday_high = omega arith;
}

-- The fields of a date are in the range of the source's type.
civil_ints :
    (epoch y m rest : ℕ)
    → y < int_end
    → m < 12
    → rest < 33
    → epoch_ints y
        (m + 1)
        (rest + 1)
        (epoch % 86400 / 3600 % 24)
        (epoch % 86400 / 60 % 60)
        (epoch % 86400 % 60)
      ≡ true
unfolding epoch_ints
civil_ints epoch y m rest top small_month short =
    let e1 = lt→ltb y int_end top in
    let e2 : ltb (m + 1) int_end ≡ true = lt→ltb _ _ (omega arith) in
    let e3 : ltb (rest + 1) int_end ≡ true = lt→ltb _ _ (omega arith) in
    let e4 : ltb (epoch % 86400 / 3600 % 24 * 3600) int_end ≡ true = lt→ltb _ _ (omega arith) in
    let e5 : ltb (epoch % 86400 / 60 % 60 * 60) int_end ≡ true = lt→ltb _ _ (omega arith) in
    let e6 : ltb (epoch % 86400 % 60) int_end ≡ true = lt→ltb _ _ (omega arith) in
    rw (e1, e2, e3, e4, e5, e6)

month_days_short : (m : ℕ) → get_or month_days m 0 ≤ 31
month_days_short zero = omega arith
month_days_short (suc zero) = omega arith
month_days_short (suc (suc zero)) = omega arith
month_days_short (suc (suc (suc zero))) = omega arith
month_days_short (suc (suc (suc (suc zero)))) = omega arith
month_days_short (suc (suc (suc (suc (suc zero))))) = omega arith
month_days_short (suc (suc (suc (suc (suc (suc zero)))))) = omega arith
month_days_short (suc (suc (suc (suc (suc (suc (suc zero))))))) = omega arith
month_days_short (suc (suc (suc (suc (suc (suc (suc (suc zero)))))))) = omega arith
month_days_short (suc (suc (suc (suc (suc (suc (suc (suc (suc zero))))))))) = omega arith
month_days_short (suc (suc (suc (suc (suc (suc (suc (suc (suc (suc zero)))))))))) = omega arith
month_days_short (suc (suc (suc (suc (suc (suc (suc (suc (suc (suc (suc zero))))))))))) =
    omega arith
month_days_short (suc (suc (suc (suc (suc (suc (suc (suc (suc (suc (suc (suc m)))))))))))) =
    omega arith

-- No month is longer than 31 days and the leap day.
month_length_short : (y m rest : ℕ) → rest < month_length y m (get_or month_days m 0) → rest < 33
unfolding month_length
month_length_short y m rest h = ground (arith, month_days_short m)

epoch_of-civil :
    (epoch y k m rest b : ℕ)
    → epoch < 2 ^ 64
    → y ≡ 1970 + k
    → y < int_end
    → m < 12
    → rest < 33
    → add_months y m 0 month_days (add_years k 1970 0) ≡ some b
    → b + rest ≡ epoch / 86400
    → epoch_of (civil epoch y m rest) ≡ some epoch
unfolding compute_epoch
epoch_of-civil epoch y k m rest b h ey top small_month short sum days =
    let ek : y - 1970 ≡ k = omega arith in
    let em : m + 1 - 1 ≡ m = omega arith in
    rw (compute_epoch, civil_ints epoch y m rest top small_month short)
      (rw (ek, em, sum) (ap some (omega arith)))

from_local-civil :
    (epoch : ℕ) {y m days rest : ℕ}
    → find_year (epoch / 86400 + 1) 1970 (epoch / 86400) ≡ some (y, days)
    → find_month y 0 month_days days ≡ some (m, rest)
    → from_local epoch ≡ some (civil epoch y m rest)
unfolding from_local
from_local-civil epoch found month = rw (found, month, from_local) refl

-- A local time before it is in a year that an `int` holds, whatever years are leap years.
abbrev pub year_end : ℕ
year_end = (int_end - 1970) * 365 * 86400

-- For a local time whose year is an `int` the loops end, the fields are civil, the weekday is that of the
-- day number, and `compute_epoch` gives the local time back.
pub from_local_lem :
    (epoch : ℕ)
    → epoch < year_end
    → (dt : DateTime) × (from_local epoch ≡ some dt)
      × IsCivil dt
      × (epoch_of dt ≡ some epoch)
      × (dt.weekday ≡ (epoch / 86400 + 4) % 7)
from_local_lem epoch h =
    let (k, y, rest, ey, found, small, total, top) =
      find_year_total (epoch / 86400 + 1) 1970 (epoch / 86400) (omega arith) (omega arith) in
    let (j, m, day, b, em, short, month, fits, sum, days) =
      find_month_total y 0 month_days rest (add_years k 1970 0)
        (omega (arith, months_total-days_in_year y)) in
    let ej : j ≡ m = omega arith in
    let month_fits : day < month_length y m (get_or month_days m 0) =
      subst (λ t. day < month_length y m (get_or month_days t 0)) ej fits in
    (
      civil epoch y m day,
      from_local-civil epoch found month,
      civil-IsCivil epoch (omega arith) month_fits,
      epoch_of-civil epoch y k m day b (omega arith) ey top (omega arith)
          (month_length_short y m day month_fits)
          (subst (λ t. add_months y t 0 month_days (add_years k 1970 0) ≡ some b) ej sum)
          (omega arith),
      refl,
    )

-- For every epoch whose local time is below (2^31 - 1970) years of 365 days, so that the year is an
-- `int`, `compute_datetime_from_epoch` ends with a civil date and time, from which `compute_epoch` computes the epoch plus the two hours of the timezone;
-- the weekday is that of the local day, counted from Thursday 1970-01-01.
pub compute_epoch-compute_datetime_from_epoch :
    (epoch : ℕ)
    → epoch + timezone_offset_secs < year_end
    → (dt : DateTime) × (compute_datetime_from_epoch epoch ≡ some dt)
      × IsCivil dt
      × (epoch_of dt ≡ some (epoch + timezone_offset_secs))
      × (dt.weekday ≡ ((epoch + timezone_offset_secs) / 86400 + 4) % 7)
unfolding compute_datetime_from_epoch
compute_epoch-compute_datetime_from_epoch epoch h =
    let e : u64 (epoch + timezone_offset_secs) ≡ epoch + timezone_offset_secs = omega arith in
    rw e (from_local_lem (epoch + timezone_offset_secs) h)
