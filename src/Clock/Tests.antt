-- ===== src/Clock/Tests.antt =====
-- kernel/time.c at concrete dates, and the theorems at concrete times.
use riscv_os.Prelude.{◌+◌, ◌/◌, ◌%◌, ◌≡◌, refl, some, arith}
use riscv_os.Clock.{DateTime, compute_epoch, compute_datetime_from_epoch}
use riscv_os.Clock.RoundTrip.{IsCivil, epoch_of, compute_epoch-compute_datetime_from_epoch}

-- 2000-02-29 12:00:00 UTC is two o'clock in the afternoon of a Tuesday in the code's timezone.
leap_day :
    compute_datetime_from_epoch 951825600
    ≡ some (record {
      year = 2000;
      month = 2;
      day = 29;
      hour = 14;
      minute = 0;
      second = 0;
      weekday = 2;
    })
unfolding compute_datetime_from_epoch riscv_os.Clock.days_in_year riscv_os.Clock.month_length
leap_day = refl

leap_day_back : compute_epoch 2000 2 29 12 0 0 ≡ some 951825600
unfolding compute_epoch riscv_os.Clock.days_in_year riscv_os.Clock.month_length
leap_day_back = refl

compute_epoch-compute_datetime_from_epoch_example :
    (dt : DateTime) × (compute_datetime_from_epoch 951825600 ≡ some dt)
    × IsCivil dt
    × (epoch_of dt ≡ some 951832800)
    × (dt.weekday ≡ (951832800 / 86400 + 4) % 7)
compute_epoch-compute_datetime_from_epoch_example =
    compute_epoch-compute_datetime_from_epoch 951825600 (omega arith)
