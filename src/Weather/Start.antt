-- ===== src/Weather/Start.antt =====
-- The time lapse from the start of its effect.
use mathlib.Core.Path.{subst}
use c_client.Prelude.{
  ℕ, suc, ◌+◌, ◌-◌, ◌%◌, ◌<◌, ◌≤◌, ◌≡◌, refl, ap, ◌∙◌, Bool, true, some, List, arith, length,
  get_elem?,
}
use c_client.Prelude.Int.{ℤ}
use c_client.Extension.{Double, Pixel, PixelInfo, num_strips, max_strip_size}
use c_client.Pixel.{GridMemory}
use c_client.Pixel.Fill.{Given}
use c_client.Opc.{SinkInfo, Kernel, find_sink}
use c_client.Opc.Strips.Sizes.{AllWired}
use c_client.Opc.Strips.Organise.{Organised}
use c_client.Opc.Message.{Put}
use c_client.Floats.{Floats}
use c_client.Process.{Ends, ends, Ends-mono}
use c_client.Weather.{Bytes, Weather, temp_timelapse_get_pixel, weather_timelapse_run}
use c_client.Weather.Lines.{TempLine, write_lines}
use c_client.Weather.Place.{AreTemps}
use c_client.Weather.Timelapse.{Runs, weather_timelapse_run-Ran}
use c_client.Weather.Passes.{frames, Shows, weather_timelapse_run-Sent, Ends-frames, next-inner}
use c_client.Weather.Effects.{WeatherEffect, run_effect, get_temp_timelapse_effect}

module _ (fl : Floats) (atof : Bytes → Double) (ls : List TempLine) (k : Kernel) (sink : ℤ) (j : ℕ)
    (info : SinkInfo) (infos : List PixelInfo) (strips : GridMemory) (are : AreTemps fl atof ls)
    (wired : AllWired infos) (fits : length infos ≤ 471)
    (given : Given num_strips max_strip_size strips) (w : Weather)
    (found : find_sink sink w.client ≡ some j)
    (entry : get_elem? w.client.sinks j ≡ some info) where
  -- The picture of the first pass was sent: the client is as after that one message.
  pub record FirstPass (result : Unit {0} × Weather) : Type 0 where
    pub shows : (i : ℕ) → 0 < i → i < 471 → Shows fl atof ls k sink j info infos result.1.frame i i
    pub sent :
        (out : List Pixel) × Organised result.1.frame infos out
        × (done : Bool) × Put k sink j info 0 471 out w.client (done, result.1.client)

  Runs-start :
      length w.frame ≡ 471
      → w.frame_no ≡ 0
      → Runs fl atof ls 0 (record w { content = write_lines ls; temp_file = write_lines ls })
  Runs-start size number = record {
    step = record { content = refl; left = refl; bound = omega arith; frame = size };
    turn = ap (λ n. n % 471) number;
    bound = omega (arith, number);
  }

  first_pass :
      length w.frame ≡ 471
      → w.frame_no ≡ 0
      → Ends FirstPass (
          frames
            (weather_timelapse_run k sink infos strips true (temp_timelapse_get_pixel fl atof))
            (suc 471)
            (record w { content = write_lines ls; temp_file = write_lines ls }))
  first_pass size number =
      let start : Weather = record w { content = write_lines ls; temp_file = write_lines ls } in
      Ends-frames
        (weather_timelapse_run k sink infos strips true (temp_timelapse_get_pixel fl atof)) 471
        start
        (weather_timelapse_run-Ran fl atof ls k sink j info infos strips are wired fits given 0
          start (Runs-start size number) found entry)
        λ code w1 ran.
          let quiet : w1.client ≡ w.client = ran.silent (omega (arith, number)) in
          let more : 0 < length ls = omega (arith, are.size, are.some_pass) in
          let one : w1.frame_no ≡ 0 = ran.number ∙ ap (λ n. n % 471) number in
          Ends-mono
            (weather_timelapse_run-Sent fl atof ls k sink j info infos strips are wired fits given
              470 1 1 (record w1 { frame_no = suc w1.frame_no }) (omega arith) (omega arith)
              (ap suc one)
              (subst (λ q. Runs fl atof ls q (record w1 { frame_no = suc w1.frame_no }))
                (next-inner fl atof ls 0 more) ran.runs)
              (ap (find_sink sink) quiet ∙ found) (ap (λ c. get_elem? c.sinks j) quiet ∙ entry))
            λ done w2 all. record {
              shows = λ i positive small.
                  let back : 1 + (i - 1) ≡ i = omega arith in
                  subst (λ q. Shows fl atof ls k sink j info infos w2.frame q q) back
                    (all.shows (i - 1) (omega arith));
              sent =
                  let (out, organised, done, put) = all.sent in
                  (
                    out,
                    organised,
                    done,
                    subst (λ c. Put k sink j info 0 471 out c (done, w2.client)) quiet put,
                  );
            }

  -- Let the file have whole passes over the 471 positions, one at least, with temperatures that have a
  -- colour, the layout of at most 471 pixels be wired, there be memory for `opc_put_pixel_list`, the
  -- sink exist, and the runner be at frame 0 with a whole frame. When there is memory and the file
  -- opens, `get_temp_timelapse_effect` gives an effect whose first 472 frames, as the main loop counts
  -- them, end without a fault and send one message: the organised pixels, as `opc_put_pixels` sends
  -- them, in which every pixel but the first has the colour of its line in the first pass.
  pub get_temp_timelapse_effect-FirstPass :
      length w.frame ≡ 471
      → w.frame_no ≡ 0
      → Ends
          (λ (made, w').
            (effect : WeatherEffect) × (made ≡ some effect)
            × Ends FirstPass (frames (run_effect effect) (suc 471) w'))
          (get_temp_timelapse_effect k sink infos strips true fl true atof
            (some (write_lines ls))
            w)
  unfolding get_temp_timelapse_effect run_effect
  get_temp_timelapse_effect-FirstPass size number = ends (_, refl, first_pass size number)
