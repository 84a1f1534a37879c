-- ===== src/Sunrise/Clocks.antt =====
-- The clock of `sunrise_run`.
use native.Mathlib.Decide.{dec_lt}
use c_client.Prelude.{ℕ, ◌+◌, ◌*◌, ◌%◌, ◌<◌, ◌≡◌, refl, false, arith, ◌==◌}
use c_client.Sunrise.{Clock, increment_current_time}

-- A time that ten minutes at a time lead to from midnight.
pub record IsClock (c : Clock) : Type 0 where
  pub tens : ℕ
  pub min : c.min ≡ 10 * tens
  pub small : tens < 6
  pub hour : c.hour < 24
  pub sec : c.sec ≡ 0

abbrev pub minutes : Clock → ℕ
minutes c = 60 * c.hour + c.min

-- The next time, ten minutes later, with the day behind midnight.
increment-hour :
    (c : Clock)
    → IsClock c
    → c.min + 10 ≡ 60
    → IsClock (increment_current_time c)
      × (minutes (increment_current_time c) ≡ (minutes c + 10) % 1440)
unfolding increment_current_time
increment-hour c is full = elim (dec_lt c.hour 23) [
  | yes early ↦
      let same : (c.hour + 1 == 24) ≡ false = ground (arith, early) in
      rw (full, same)
        (
          record { tens = 0; min = refl; small = omega arith; hour = omega arith; sec = is.sec },
          omega (arith, full, is.hour),
        )
  | no late ↦
      let last : c.hour ≡ 23 = omega (arith, is.hour, late) in
      rw (full, last)
        (
          record { tens = 0; min = refl; small = omega arith; hour = omega arith; sec = is.sec },
          omega (arith, full, last),
        )
]

pub increment-IsClock :
    (c : Clock)
    → IsClock c
    → IsClock (increment_current_time c)
      × (minutes (increment_current_time c) ≡ (minutes c + 10) % 1440)
unfolding increment_current_time
increment-IsClock c is = elim (dec_lt is.tens 5) [
  | no full ↦ increment-hour c is (omega (arith, is.min, is.small, full))
  | yes early ↦
      let same : (c.min + 10 == 60) ≡ false = ground (arith, is.min, early) in
      rw same (
        record {
          tens = is.tens + 1;
          min = omega (arith, is.min);
          small = omega (arith, early);
          hour = is.hour;
          sec = is.sec;
        },
        omega (arith, is.min, is.hour, early),
      )
]
