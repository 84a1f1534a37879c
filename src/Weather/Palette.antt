-- ===== src/Weather/Palette.antt =====
-- src/effects/weather.c: the colours of temperatures and of wind speeds.
pub mod Colours
use c_client.Prelude.{ℕ, Option, none, some, if◌then◌else◌}
use c_client.Prelude.Int.{ℤ, pos, negsuc, ltb_ℤ}
use c_client.Extension.{Double, Pixel, rgb}
use c_client.Floats.{Floats, number_of, to_uint8}

-- x > PIXEL_COLOUR_MAX ? PIXEL_COLOUR_MAX : x
abbrev pub at_most_255 : ℤ → ℤ
at_most_255 x = if ltb_ℤ (pos 255) x then pos 255 else x

-- x < 0 ? 0 : x
abbrev pub at_least_0 : ℤ → ℤ
at_least_0 x = if ltb_ℤ x (pos 0) then pos 0 else x

module _ (fl : Floats) where
  -- (int) ((PIXEL_COLOUR_MAX / d) * x)
  pub scaled : ℕ → Double → Option ℤ
  scaled d x = fl.to_int (fl.mul (fl.div (number_of fl 255) (number_of fl d)) x)

  abbrev pub below_zero : ℕ → Double
  below_zero n = fl.of_int (negsuc n)

  pub red_of : Double → Option ℤ
  unfolding scaled
  red_of val =
      if fl.lt (number_of fl 0) val
      then elim (scaled 15 val) [ none ↦ none | some red ↦ some (at_most_255 red) ]
      else some (pos 0)

  pub green_of : Double → Option ℤ
  unfolding scaled
  green_of val =
      if fl.lt (number_of fl 15) val
      then elim (scaled 30 (fl.sub (number_of fl 40) val)) [
        | none ↦ none
        | some green ↦ some (at_least_0 green)
      ]
      else if fl.lt (below_zero 4) val
      then some (pos 255)
      else if fl.lt (below_zero 9) val
      then scaled 10 (fl.neg val)
      else some (pos 0)

  pub blue_of : Double → Option ℤ
  unfolding scaled
  blue_of val =
      if fl.lt (below_zero 4) val
      then elim (scaled 10 (fl.sub (number_of fl 5) val)) [
        | none ↦ none
        | some blue ↦ some (at_least_0 blue)
      ]
      else some (pos 255)

  -- The three ints of `set_temp_pixel_colour`, and the pixel that they are stored in.
  pub temp_colour : Double → Option (ℤ × ℤ × ℤ)
  unfolding red_of green_of blue_of
  temp_colour kelvin =
      let val = fl.sub kelvin (number_of fl 273) in
      elim (red_of val) [
        | none ↦ none
        | some red ↦ elim (green_of val) [
          | none ↦ none
          | some green ↦ elim (blue_of val) [ none ↦ none | some blue ↦ some (red, green, blue) ]
        ]
      ]

  unfoldable pub set_temp_pixel_colour : Double → Option Pixel
  unfolding temp_colour
  set_temp_pixel_colour kelvin = elim (temp_colour kelvin) [
    | none ↦ none
    | some (red, green, blue) ↦ some (rgb (to_uint8 red) (to_uint8 green) (to_uint8 blue))
  ]

  unfoldable pub set_windspeed_pixel_colour : Double → Option Pixel
  unfolding scaled
  set_windspeed_pixel_colour speed = elim (scaled 10 speed) [
    | none ↦ none
    | some x ↦ let rg = to_uint8 (at_most_255 x) in some (rgb rg rg 255)
  ]
