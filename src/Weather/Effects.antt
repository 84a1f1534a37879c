-- ===== src/Weather/Effects.antt =====
-- src/effects/weather.c: the four effects, as their constructors make them.
use c_client.Prelude.{ℕ, Bool, Option, none, some, List, [], if◌then◌else◌}
use c_client.Prelude.Int.{ℤ}
use c_client.Extension.{Double, PixelInfo}
use c_client.Floats.{Floats}
use c_client.Process.{ok, exits}
use c_client.Pixel.{GridMemory}
use c_client.Opc.{Kernel}
use c_client.ApiManager.{Bytes, Internet, Json}
use c_client.Weather.{
  Action, temp_get_pixel, temp_log_pixel, windspeed_get_pixel, temp_timelapse_get_pixel,
  weather_run, weather_timelapse_run, weather_log_run,
}

-- The functions of an `effect_t`.
pub record WeatherEffect : Type 0 where
  pub get_pixel : ℕ → Action ℤ
  pub run : (ℕ → Action ℤ) → Action ℕ

-- self->effect->run(self)
unfoldable pub run_effect : WeatherEffect → Action ℕ
run_effect e = e.run e.get_pixel

-- The call of calloc, which may give NULL, and of fopen for a file to append to, which may fail.
with_file : Bool → Bool → WeatherEffect → Action (Option WeatherEffect)
with_file allocated opened e w =
    if allocated
    then (if opened then ok (some e, record w { appended = [] }) else exits)
    else ok (none, w)

module _ (k : Kernel) (sink : ℤ) (infos : List PixelInfo) (strips : GridMemory) (zeroed : Bool)
    (fl : Floats) (allocated : Bool) where
  module _ {V O : Type 0} (net : Internet) (json : Json V O) (print : Double → Bytes)
      (junk buf : Bytes) where
    unfoldable pub get_temp_effect : (opened : Bool) → Action (Option WeatherEffect)
    unfolding with_file
    get_temp_effect opened = with_file allocated opened (record {
      get_pixel = temp_get_pixel net json print junk buf fl infos;
      run = weather_run k sink infos strips zeroed;
    })

    unfoldable pub get_temp_log_effect :
        (ℕ → Double → Bytes) → (opened : Bool) → Action (Option WeatherEffect)
    unfolding with_file
    get_temp_log_effect line opened = with_file allocated opened (record {
      get_pixel = temp_log_pixel net json print junk buf fl line infos;
      run = weather_log_run;
    })

    -- It opens no file.
    unfoldable pub get_windspeed_effect : Action (Option WeatherEffect)
    get_windspeed_effect w =
        if allocated
        then ok (
          some (record {
            get_pixel = windspeed_get_pixel net json print junk buf fl infos;
            run = weather_run k sink infos strips zeroed;
          }),
          w,
        )
        else ok (none, w)

  -- `file` is what the file holds, if it opens.
  unfoldable pub get_temp_timelapse_effect :
      (Bytes → Double) → (file : Option Bytes) → Action (Option WeatherEffect)
  get_temp_timelapse_effect atof file w =
      if allocated
      then elim file [
        | none ↦ exits
        | some content ↦ ok (
          some (record {
            get_pixel = temp_timelapse_get_pixel fl atof;
            run = weather_timelapse_run k sink infos strips zeroed;
          }),
          record w { content = content; temp_file = content },
        )
      ]
      else ok (none, w)
