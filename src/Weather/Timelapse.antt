-- ===== src/Weather/Timelapse.antt =====
-- The place of `weather_timelapse_run` in the file, frame by frame.
use native.Mathlib.Decide.{dec_lt}
use mathlib.Core.Path.{subst}
use c_client.Prelude.{
  ℕ, suc, ◌%◌, ◌<◌, ◌≤◌, ◌≡◌, refl, ap, sym, ◌∙◌, Bool, true, false, some, List, arith, length,
  get_elem?, leb, ◌==◌, if◌then◌else◌,
}
use c_client.Prelude.Int.{ℤ}
use c_client.Extension.{Double, Pixel, PixelInfo, num_strips, max_strip_size}
use c_client.Pixel.{GridMemory}
use c_client.Pixel.Fill.{Given}
use c_client.Opc.{SinkInfo, Kernel, find_sink}
use c_client.Opc.Strips.Sizes.{AllWired}
use c_client.Opc.Strips.Organise.{Organised}
use c_client.Opc.Message.{Put}
use c_client.Floats.{Floats}
use c_client.Process.{Outcome, Ends, ends, Ends-bind}
use c_client.Weather.{Bytes, Weather, temp_timelapse_get_pixel, weather_timelapse_run}
use c_client.Weather.Sending.{put_frame-Put}
use c_client.Weather.Lines.{TempLine}
use c_client.Weather.Place.{AreTemps, next, InStep, InStep-same, Painted, get_pixel-Passed}

module _ (fl : Floats) (atof : Bytes → Double) (ls : List TempLine) where
  -- A runner at the place of its frame's number.
  pub record Runs (p : ℕ) (w : Weather) : Type 0 where
    pub step : InStep fl atof ls p w
    pub turn : w.frame_no % 471 ≡ p % 471
    pub bound : w.frame_no ≤ 471

  module _ (k : Kernel) (sink : ℤ) (j : ℕ) (info : SinkInfo) (infos : List PixelInfo) (p : ℕ) where
    -- What a frame leaves, before the main loop counts it.
    pub record Ran (w : Weather) (result : ℕ × Weather) : Type 0 where
      pub code : result.0 ≡ (if w.frame_no == 471 then 1 else 0)
      pub number : result.1.frame_no ≡ w.frame_no % 471
      pub painted : Painted fl atof ls p (w.frame_no % 471) w.frame result.1.frame
      pub runs : Runs (next fl atof ls p) (record result.1 { frame_no = suc result.1.frame_no })
      pub sent :
          w.frame_no ≡ 471
          → (out : List Pixel) × Organised result.1.frame infos out
            × (done : Bool) × Put k sink j info 0 471 out w.client (done, result.1.client)
      pub silent : w.frame_no < 471 → result.1.client ≡ w.client

    next-turn :
        AreTemps fl atof ls
        → (w : Weather) → Runs p w
        → suc (w.frame_no % 471) % 471 ≡ next fl atof ls p % 471
    next-turn are w runs = elim (dec_lt p (length ls)) [
      | yes more ↦
          let inner : (p == length ls) ≡ false = ground arith in rw inner (omega (arith, runs.turn))
      | no ended ↦
          let last : (p == length ls) ≡ true = ground (arith, runs.step.bound) in
          rw last (omega (arith, runs.turn, runs.step.bound, are.size))
    ]

    Runs-next :
        AreTemps fl atof ls
        → (w w' : Weather) → Runs p w
        → InStep fl atof ls (next fl atof ls p) w'
        → w'.frame_no ≡ w.frame_no % 471
        → Runs (next fl atof ls p) (record w' { frame_no = suc w'.frame_no })
    Runs-next are w w' runs step number = record {
      step =
          InStep-same fl atof ls (next fl atof ls p) w' (record w' { frame_no = suc w'.frame_no })
            step refl refl refl;
      turn = ap (λ n. suc n % 471) number ∙ next-turn are w runs;
      bound = omega (arith, number);
    }

  module _ (k : Kernel) (sink : ℤ) (j : ℕ) (info : SinkInfo) (infos : List PixelInfo)
      (strips : GridMemory) (are : AreTemps fl atof ls) (wired : AllWired infos)
      (fits : length infos ≤ 471) (given : Given num_strips max_strip_size strips) where
    abbrev pub run : Weather → Outcome (ℕ × Weather)
    run = weather_timelapse_run k sink infos strips true (temp_timelapse_get_pixel fl atof)

    run-on :
        (p : ℕ) (w : Weather)
        → Runs p w
        → w.frame_no < 471
        → Ends (Ran k sink j info infos p w) (run w)
    unfolding weather_timelapse_run
    run-on p w runs before =
        let here : w.frame_no % 471 ≡ w.frame_no = omega arith in
        let more : leb 471 w.frame_no ≡ false = ground arith in
        let not_last : (w.frame_no == 471) ≡ false = ground arith in
        rw (weather_timelapse_run, more)
          (Ends-bind
            (get_pixel-Passed fl atof ls are p w.frame_no w runs.step (omega (arith, runs.turn)))
            λ code w' passed.
              let number : w'.frame_no ≡ w.frame_no % 471 = passed.frame_no ∙ sym here in
              ends (record {
                code = rw not_last refl;
                number = number;
                painted = rw here passed.painted;
                runs = Runs-next k sink j info infos p are w w' runs passed.step number;
                sent = λ last. absurd (omega arith);
                silent = λ _. passed.client;
              }))

    run-ended :
        (p : ℕ) (w : Weather)
        → Runs p w
        → w.frame_no ≡ 471
        → find_sink sink w.client ≡ some j
        → get_elem? w.client.sinks j ≡ some info
        → Ends (Ran k sink j info infos p w) (run w)
    unfolding weather_timelapse_run
    run-ended p w runs last found entry =
        let zero_turn : w.frame_no % 471 ≡ 0 = omega arith in
        let start : Weather = record w { frame_no = 0 } in
        let step : InStep fl atof ls p start =
          InStep-same fl atof ls p w start runs.step refl refl refl in
        let more : leb 471 w.frame_no ≡ true = ground arith in
        let is_last : (w.frame_no == 471) ≡ true = ground arith in
        rw (weather_timelapse_run, more)
          (Ends-bind (get_pixel-Passed fl atof ls are p 0 start step (omega (arith, runs.turn)))
            λ code w1 passed.
              Ends-bind
                (put_frame-Put k sink j info infos strips wired fits given w1 passed.step.frame
                  (ap (find_sink sink) passed.client ∙ found)
                  (ap (λ c. get_elem? c.sinks j) passed.client ∙ entry))
                λ result w' (zero, c, same, out, organised, done, put).
                  let number : w'.frame_no ≡ w.frame_no % 471 =
                    ap (λ v. v.frame_no) same ∙ passed.frame_no ∙ sym zero_turn in
                  let frame : w'.frame ≡ w1.frame = ap (λ v. v.frame) same in
                  let step' : InStep fl atof ls (next fl atof ls p) w' =
                    InStep-same fl atof ls (next fl atof ls p) w1 w' passed.step
                      (ap (λ v. v.content) same) (ap (λ v. v.temp_file) same) frame in
                  rw zero (
                    ends (record {
                      code = rw is_last refl;
                      number = number;
                      painted = rw (zero_turn, frame) passed.painted;
                      runs = Runs-next k sink j info infos p are w w' runs step' number;
                      sent = λ _. (
                        out,
                        rw frame organised,
                        done,
                        rw (ap (λ v. v.client) same) (
                            subst (λ before. Put k sink j info 0 471 out before (done, c))
                              passed.client put),
                      );
                      silent = λ early. absurd (omega arith);
                    })))

    -- Let the file have whole passes over the 471 positions, one at least, with temperatures that
    -- have a colour, the layout of at most 471 pixels be wired, there be memory for
    -- `opc_put_pixel_list` and the sink exist. A frame of `weather_timelapse_run` at the place of its
    -- number ends without a fault and leaves the next frame's number, once the main loop has counted,
    -- at its place. It gives the pixel of that number the colour of the line; but at the end of the
    -- file, where it goes back to the start, the first line is passed and no pixel painted. When the
    -- number is 471 the frame starts again at 0, the organised pixels are sent as `opc_put_pixels`
    -- sends them, and 1 is returned although `opc_put_pixel_list` succeeded; in the other frames
    -- nothing is sent and 0 is returned.
    pub weather_timelapse_run-Ran :
        (p : ℕ) (w : Weather)
        → Runs p w
        → find_sink sink w.client ≡ some j
        → get_elem? w.client.sinks j ≡ some info
        → Ends (Ran k sink j info infos p w) (run w)
    weather_timelapse_run-Ran p w runs found entry = elim (dec_lt w.frame_no 471) [
      | yes before ↦ run-on p w runs before
      | no ended ↦ run-ended p w runs (omega (arith, runs.bound)) found entry
    ]
