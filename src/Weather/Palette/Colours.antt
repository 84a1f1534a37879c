-- ===== src/Weather/Palette/Colours.antt =====
-- The colours of temperatures and wind speeds as pixels.
use c_client.Prelude.{ℕ, ◌≡◌, refl, inl, inr, Bool-cases, some}
use c_client.Prelude.Int.{ℤ, pos}
use c_client.Extension.{Double, Pixel, rgb}
use c_client.Floats.{Floats, number_of, to_uint8}
use c_client.Weather.Palette.{
  at_most_255, at_least_0, scaled, below_zero, red_of, green_of, blue_of, temp_colour,
  set_temp_pixel_colour,
}

-- Every double is an `int` when it is cut.
module _ (fl : Floats) (always : (x : Double) → (z : ℤ) × (fl.to_int x ≡ some z)) where
  scaled-some : (d : ℕ) (x : Double) → (z : ℤ) × (scaled fl d x ≡ some z)
  unfolding scaled
  scaled-some d x = always _

  red_of-some : (val : Double) → (z : ℤ) × (red_of fl val ≡ some z)
  unfolding red_of
  red_of-some val = elim (Bool-cases (fl.lt (number_of fl 0) val)) [
    | inl above ↦ let (z, e) = scaled-some 15 val in (at_most_255 z, rw (red_of, above, e) refl)
    | inr below ↦ (pos 0, rw (red_of, below) refl)
  ]

  green_of-some : (val : Double) → (z : ℤ) × (green_of fl val ≡ some z)
  unfolding green_of
  green_of-some val = elim (Bool-cases (fl.lt (number_of fl 15) val)) [
    | inl hot ↦
        let (z, e) = scaled-some 30 (fl.sub (number_of fl 40) val) in
        (at_least_0 z, rw (green_of, hot, e) refl)
    | inr mild ↦ elim (Bool-cases (fl.lt (below_zero fl 4) val)) [
      | inl above ↦ (pos 255, rw (green_of, mild, above) refl)
      | inr cold ↦ elim (Bool-cases (fl.lt (below_zero fl 9) val)) [
        | inl above ↦
            let (z, e) = scaled-some 10 (fl.neg val) in
            (z, rw (green_of, mild, cold, above, e) refl)
        | inr freezing ↦ (pos 0, rw (green_of, mild, cold, freezing) refl)
      ]
    ]
  ]

  blue_of-some : (val : Double) → (z : ℤ) × (blue_of fl val ≡ some z)
  unfolding blue_of
  blue_of-some val = elim (Bool-cases (fl.lt (below_zero fl 4) val)) [
    | inl above ↦
        let (z, e) = scaled-some 10 (fl.sub (number_of fl 5) val) in
        (at_least_0 z, rw (blue_of, above, e) refl)
    | inr below ↦ (pos 255, rw (blue_of, below) refl)
  ]

  -- Every temperature has a colour then.
  pub set_temp_pixel_colour-some :
      (kelvin : Double) → (pixel : Pixel) × (set_temp_pixel_colour fl kelvin ≡ some pixel)
  unfolding set_temp_pixel_colour temp_colour
  set_temp_pixel_colour-some kelvin =
      let val = fl.sub kelvin (number_of fl 273) in
      let (red, r) = red_of-some val in
      let (green, g) = green_of-some val in
      let (blue, b) = blue_of-some val in
      (
        rgb (to_uint8 red) (to_uint8 green) (to_uint8 blue),
        rw (set_temp_pixel_colour, r, g, b) refl,
      )
