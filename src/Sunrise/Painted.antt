-- ===== src/Sunrise/Painted.antt =====
-- What `sun_get_pixel` paints when the next line is the pixel's.
use c_client.Prelude.{
  ℕ, ◌-◌, ◌<◌, ◌≤◌, ◌≡◌, refl, ap, ◌∙◌, some, List, arith, length, set, leb, lt→ltb, if◌then◌else◌,
  ◌>>=◌, store,
}
use c_client.Prelude.Int.{ℤ, pos}
use c_client.Extension.{Pixel, rgb}
use c_client.Floats.{Floats, to_uint8}
use c_client.Sunrise.{time_of, SunState, fold_back, shade_of, brightness, sun_get_pixel}
use c_client.Sunrise.Lines.{SunLine, NextLine, sun_get_pixel-line}
use c_client.Sunrise.Brightness.{
  Exact, InDay, secs, IsDay, IsNight, brightness-IsNight, brightness-IsDay,
}

-- The value is folded back above 255.
abbrev pub folded : ℕ → ℕ
folded v = if leb v 255 then v else 511 - v

to_uint8-fold_back : (v : ℕ) → v ≤ 511 → to_uint8 (fold_back (pos v)) ≡ folded v
unfolding to_uint8 fold_back
to_uint8-fold_back v small = ground arith

module _ (fl : Floats) (st : SunState) (l : SunLine) (rest : List ℕ) (frame : List Pixel) where
  -- The pixel is painted in a shade of grey, and the line is passed.
  abbrev pub painted : ℕ → ℤ × (SunState × List Pixel)
  painted v = (pos 0, (record st { sun_file = rest }, set frame l.loc (rgb v v v)))

  sun_get_pixel-painted :
      (z : ℤ) (v : ℕ)
      → NextLine st l rest
      → l.loc < length frame
      → brightness fl (time_of l.sunrise) (time_of l.sunset) (time_of st.current_time) ≡ some z
      → to_uint8 z ≡ v
      → sun_get_pixel fl l.loc st frame ≡ some (painted v)
  unfolding store
  sun_get_pixel-painted z v n inside bright is =
      sun_get_pixel-line fl st l rest n frame l.loc z refl bright
      ∙ rw (lt→ltb l.loc (length frame) inside, is) refl

  module _ (exact : Exact fl) (n : NextLine st l rest) (inside : l.loc < length frame)
      (rise : InDay l.sunrise) (sets : InDay l.sunset) (now : InDay st.current_time) where
    -- Let doubles hold whole numbers exactly, the next line, or the first one at the end of the
    -- file, be the pixel's and fit into the buffer, and its times and the current one be times of a
    -- day. When the current time is outside of the pixel's day, `sun_get_pixel` returns 0, passes
    -- the line and makes the pixel black.
    pub sun_get_pixel-IsNight :
        IsNight (secs l.sunrise) (secs l.sunset) (secs st.current_time)
        → sun_get_pixel fl l.loc st frame ≡ some (painted 0)
    unfolding fold_back
    sun_get_pixel-IsNight night =
        sun_get_pixel-painted (pos 0) 0 n inside
          (brightness-IsNight fl exact l.sunrise l.sunset st.current_time rise sets now night)
          (to_uint8-fold_back 0 (omega arith))

    -- Let doubles hold whole numbers exactly, the next line, or the first one at the end of the
    -- file, be the pixel's and fit into the buffer, and its times and the current one be times of a
    -- day. When the current time is between sunrise and sunset or, where the sun sets first, before
    -- the sunset or after the sunrise, `sun_get_pixel` returns 0 and passes the line. The pixel is
    -- grey: let v, at most 511, be what the part of the day left or passed is scaled to; it is of
    -- the value v up to 255, and of 511 - v above.
    pub sun_get_pixel-IsDay :
        (part whole v : ℕ)
        → IsDay (secs l.sunrise) (secs l.sunset) (secs st.current_time) part whole
        → fl.to_int (
            fl.mul
              (fl.div (fl.of_int (pos part)) (fl.div (fl.of_int (pos whole)) (fl.of_int (pos 2))))
              (fl.of_int (pos 255)))
          ≡ some (pos v)
        → v ≤ 511
        → sun_get_pixel fl l.loc st frame ≡ some (painted (folded v))
    unfolding shade_of
    sun_get_pixel-IsDay part whole v day value small =
        let bright =
          brightness-IsDay fl exact l.sunrise l.sunset st.current_time rise sets now part whole
            day in
        sun_get_pixel-painted (fold_back (pos v)) (folded v) n inside
          (bright ∙ ap (λ o. o >>= λ z. some (fold_back z)) value) (to_uint8-fold_back v small)
