-- ===== src/Sunrise/Brightness.antt =====
-- The brightness in whole seconds: black at night, and by day a value that is folded back at 255.
use native.Mathlib.Decide.{dec_lt}
use c_client.Prelude.{
  ℕ, ◌+◌, ◌-◌, ◌*◌, ◌<◌, ◌≤◌, ◌≡◌, refl, ◌∙◌, ◌⊎◌, inl, inr, Option, some, arith, ltb, le→ltb, ◌==◌,
  if◌then◌else◌,
}
use c_client.Prelude.Int.{ℤ, pos, sub_ℕ}
use c_client.Extension.{Double}
use c_client.Floats.{Floats, number_of}
use c_client.Sunrise.{
  Clock, time_of, int_ok, times, add_ℤ, seconds, fold_back, get_time_difference, shade_of,
  day_within, day_around, brightness,
}

-- Doubles hold such whole numbers exactly. The law of `neg` is about numbers below 0 alone: the
-- opposite of 0 is another bit pattern.
pub record Exact (fl : Floats) : Type 0 where
  pub sub :
      (a b : ℕ)
      → a < 2147483648
      → b < 2147483648
      → fl.sub (fl.of_int (pos a)) (fl.of_int (pos b)) ≡ fl.of_int (sub_ℕ a b)
  pub add :
      (a b c : ℕ)
      → a + c < 2147483648
      → b < 2147483648
      → fl.add (fl.of_int (sub_ℕ a b)) (fl.of_int (pos c)) ≡ fl.of_int (sub_ℕ (a + c) b)
  pub neg :
      (a b : ℕ) → a < b → b < 2147483648 → fl.neg (fl.of_int (sub_ℕ a b)) ≡ fl.of_int (sub_ℕ b a)
  pub is_zero :
      (a b : ℕ)
      → a < 2147483648
      → b < 2147483648
      → fl.eq (fl.of_int (sub_ℕ a b)) (fl.of_int (pos 0)) ≡ (a == b)
  pub is_negative :
      (a b : ℕ)
      → a < 2147483648
      → b < 2147483648
      → fl.lt (fl.of_int (sub_ℕ a b)) (fl.of_int (pos 0)) ≡ ltb a b
  pub is_positive :
      (a b : ℕ)
      → a < 2147483648
      → b < 2147483648
      → fl.lt (fl.of_int (pos 0)) (fl.of_int (sub_ℕ a b)) ≡ ltb b a

-- A time of the day.
pub record InDay (c : Clock) : Type 0 where
  pub hour : c.hour < 24
  pub min : c.min < 60
  pub sec : c.sec < 60

abbrev pub secs : Clock → ℕ
secs c = 3600 * c.hour + 60 * c.min + c.sec

secs-lt : (c : Clock) → InDay c → secs c < 86400
secs-lt c is = omega (arith, is.hour, is.min, is.sec)

seconds-time_of : (c : Clock) → InDay c → seconds (time_of c) ≡ some (pos (secs c))
unfolding seconds int_ok times add_ℤ
seconds-time_of c is = ground (arith, is.hour, is.min, is.sec)

-- `part` of a day of `whole` seconds is left until sunset, or has passed since sunrise.
pub data IsDay (rise set now : ℕ) : ℕ → ℕ → Type 0 where
  between : rise < now → now < set → IsDay rise set now (set - now) (set - rise)
  before_set : set < rise → now < set → IsDay rise set now (set - now) (set + 86400 - rise)
  after_rise : set < rise → rise < now → IsDay rise set now (now - rise) (set + 86400 - rise)

-- No part of the day.
pub record IsNight (rise set now : ℕ) : Type 0 where
  pub between : rise ≤ set → (now ≤ rise) ⊎ (set ≤ now)
  pub around : set < rise → (set ≤ now) × (now ≤ rise)

by_seconds : ℕ → ℕ → ℕ → Option ℤ → Option ℤ → Option ℤ → Option ℤ
by_seconds rise set now a b c =
    if set == rise
    then some (pos 0)
    else if ltb rise set
    then (if ltb rise now then (if ltb now set then a else some (pos 0)) else some (pos 0))
    else if ltb now set
    then b
    else if ltb rise now
    then c
    else some (pos 0)

by_seconds-IsNight :
    (rise set now : ℕ) (a b c : Option ℤ)
    → IsNight rise set now
    → by_seconds rise set now a b c ≡ some (pos 0)
unfolding by_seconds
by_seconds-IsNight rise set now a b c night = elim (dec_lt set rise) [
  | yes before ↦ let (late, early) = night.around before in ground (arith, before, late, early)
  | no after ↦ elim (night.between (omega arith)) [
    | inl early ↦ ground (arith, after, early)
    | inr late ↦ ground (arith, after, late)
  ]
]

by_seconds-some :
    (rise set now : ℕ) (a b c : ℤ)
    → (z : ℤ) × (by_seconds rise set now (some a) (some b) (some c) ≡ some z)
unfolding by_seconds
by_seconds-some rise set now a b c = (
  if set == rise
      then pos 0
      else if ltb rise set
      then (if ltb rise now then (if ltb now set then a else pos 0) else pos 0)
      else if ltb now set
      then b
      else if ltb rise now
      then c
      else pos 0,
  ground arith,
)

module _ (shade : ℤ → ℤ → Option ℤ) where
  by_seconds-IsDay :
      (rise set now part whole : ℕ)
      → rise < 86400
      → IsDay rise set now part whole
      → by_seconds rise set now
          (shade (sub_ℕ set now) (sub_ℕ set rise))
          (shade (sub_ℕ set now) (sub_ℕ (set + 86400) rise))
          (shade (sub_ℕ now rise) (sub_ℕ (set + 86400) rise))
        ≡ shade (pos part) (pos whole)
  unfolding by_seconds
  by_seconds-IsDay rise set now _ _ small (between risen up) = ground arith
  by_seconds-IsDay rise set now _ _ small (before_set order up) = ground arith
  by_seconds-IsDay rise set now _ _ small (after_rise order risen) = ground arith

module _ (fl : Floats) (exact : Exact fl) where
  difference :
      (a b : Clock)
      → InDay a
      → InDay b
      → get_time_difference fl (time_of a) (time_of b) ≡ some (fl.of_int (sub_ℕ (secs a) (secs b)))
  unfolding get_time_difference
  difference a b is_a is_b =
      let lt_a = secs-lt a is_a in
      let lt_b = secs-lt b is_b in
      rw
        (
          seconds-time_of a is_a,
          seconds-time_of b is_b,
          exact.sub (secs a) (secs b) (omega arith) (omega arith),
        )
        refl

  shade_of-some :
      ((x : Double) → (z : ℤ) × (fl.to_int x ≡ some z))
      → (x y : Double) → (z : ℤ) × (shade_of fl x y ≡ some z)
  unfolding shade_of
  shade_of-some cast x y =
      let (v, e) = cast (fl.mul (fl.div x (fl.div y (number_of fl 2))) (number_of fl 255)) in
      (fold_back v, rw e refl)

  -- The brightness for a part of a day of so many seconds.
  abbrev pub shade_for : ℕ → ℕ → Option ℤ
  shade_for part whole = shade_of fl (fl.of_int (pos part)) (fl.of_int (pos whole))

  -- Sunrise, sunset and the current time.
  module _ (rise set now : Clock) (r : InDay rise) (s : InDay set) (n : InDay now) where
    -- The branches of `sun_get_pixel`, told apart in seconds.
    brightness-by_seconds :
        brightness fl (time_of rise) (time_of set) (time_of now)
        ≡ by_seconds
            (secs rise)
            (secs set)
            (secs now)
            (shade_of fl
              (fl.of_int (sub_ℕ (secs set) (secs now)))
              (fl.of_int (sub_ℕ (secs set) (secs rise))))
            (shade_of fl
              (fl.of_int (sub_ℕ (secs set) (secs now)))
              (fl.of_int (sub_ℕ (secs set + 86400) (secs rise))))
            (shade_of fl
              (fl.of_int (sub_ℕ (secs now) (secs rise)))
              (fl.of_int (sub_ℕ (secs set + 86400) (secs rise))))
    unfolding brightness day_within day_around by_seconds
    brightness-by_seconds =
        let lt_r = secs-lt rise r in
        let lt_s = secs-lt set s in
        let lt_n = secs-lt now n in
        rw
          (
            difference set rise s r,
            difference rise now r n,
            difference set now s n,
            exact.is_zero (secs set) (secs rise) (omega arith) (omega arith),
            exact.is_positive (secs set) (secs rise) (omega arith) (omega arith),
            exact.is_positive (secs set) (secs now) (omega arith) (omega arith),
            exact.is_negative (secs rise) (secs now) (omega arith) (omega arith),
            exact.add (secs set) (secs rise) 86400 (omega arith) (omega arith),
          )
          (elim (dec_lt (secs rise) (secs now)) [
            | yes risen ↦ rw (exact.neg (secs rise) (secs now) risen (omega arith)) refl
            | no early ↦ rw (le→ltb (secs rise) (secs now) (omega arith)) refl
          ])

    -- At night the brightness is 0.
    pub brightness-IsNight :
        IsNight (secs rise) (secs set) (secs now)
        → brightness fl (time_of rise) (time_of set) (time_of now) ≡ some (pos 0)
    brightness-IsNight night =
        brightness-by_seconds ∙ by_seconds-IsNight (secs rise) (secs set) (secs now) _ _ _ night

    -- By day it is the shade for the part of the day.
    pub brightness-IsDay :
        (part whole : ℕ)
        → IsDay (secs rise) (secs set) (secs now) part whole
        → brightness fl (time_of rise) (time_of set) (time_of now) ≡ shade_for part whole
    brightness-IsDay part whole day =
        let lt_r = secs-lt rise r in
        brightness-by_seconds
        ∙ by_seconds-IsDay (λ a b. shade_of fl (fl.of_int a) (fl.of_int b)) (secs rise) (secs set)
            (secs now) part whole (omega arith) day

    -- If the cast gives a number, there is a brightness.
    pub brightness-some :
        ((x : Double) → (z : ℤ) × (fl.to_int x ≡ some z))
        → (z : ℤ) × (brightness fl (time_of rise) (time_of set) (time_of now) ≡ some z)
    brightness-some cast =
        let left = fl.of_int (sub_ℕ (secs set) (secs now)) in
        let passed = fl.of_int (sub_ℕ (secs now) (secs rise)) in
        let longer = fl.of_int (sub_ℕ (secs set + 86400) (secs rise)) in
        let (a, is_a) = shade_of-some cast left (fl.of_int (sub_ℕ (secs set) (secs rise))) in
        let (b, is_b) = shade_of-some cast left longer in
        let (c, is_c) = shade_of-some cast passed longer in
        let (z, e) = by_seconds-some (secs rise) (secs set) (secs now) a b c in
        (z, brightness-by_seconds ∙ rw (is_a, is_b, is_c) e)
