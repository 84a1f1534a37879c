-- ===== src/Program/Own/Frames.antt =====
-- The frames of the effects of src/effects.
use c_client.Prelude.{ℕ, suc, ◌≡◌, refl, ap, ◌∙◌, ◌⊎◌, inl, inr, List, arith, length, Returns-value}
use c_client.Prelude.Int.{ℤ}
use c_client.Extension.{Pixel, PixelInfo, grid_width, grid_height}
use c_client.Process.{ok, exits, Ends-value}
use c_client.Pixel.{Grid}
use c_client.Pixel.Access.{IsGrid}
use c_client.Opc.Message.{opc_put_pixels-Put}
use c_client.Opc.Strips.Organise.{Organised}
use c_client.ApiManager.{Bytes}
use c_client.Scroller.{Storage}
use c_client.Scroller.Frame.{scroller_run-Frame}
use c_client.Image.{image_run}
use c_client.SmallEffects.Lit.{length-lit_at, test1_run-Shown}
use c_client.Pixel.ReadGrid.{read_grid_to_list-Copied}
use c_client.Sunrise.{SunState}
use c_client.Sunrise.Lines.{SunLine}
use c_client.Sunrise.Frames.{sunrise_run-Ran}
use c_client.Weather.Lines.{TempLine}
use c_client.Weather.Logs.{weather_log_run-Logged}
use c_client.Weather.Place.{next}
use c_client.Weather.Timelapse.{weather_timelapse_run-Ran}
use c_client.Weather.Effects.{WeatherEffect, run_effect}
use c_client.Program.Own.{
  Effect, scroller, image, alltest, test1, sun, weather, python, World, Resources, Result,
  world_after, weather_of, ran_scroller, ran_sun, ran_lit, ran_weather, run,
}
use c_client.Program.Own.Kept.{
  Online, Online-Put, Online-same, Online-Sent, Supplied, fits, temp_timelapse, temp_log, LapseKept,
  SunKept, Kept,
}

module _ (sink : ℤ) (i : ℕ) (infos : List PixelInfo) (suns : List SunLine) (temps : List TempLine)
    {V O : Type 0} (r : Resources V O) where
  -- The frame returns, with a whole frame, and the effect can run the next one.
  pub record KeepsOn (result : Result) : Type 0 where
    pub after : Effect
    pub frame : List Pixel
    pub number : ℕ
    pub world : World
    pub returned : result ≡ ok (after, (frame, (number, world)))
    pub size : length frame ≡ 471
    pub kept : Kept sink i infos suns temps r after (suc number) world

  module _ (s : Supplied sink i infos suns temps r) (frame : List Pixel) (n : ℕ) (w : World)
      (size : length frame ≡ 471) (online : Online sink i w.client) where
    run-scroller :
        (storage : Storage)
        → IsGrid grid_width grid_height storage.pixel_grid
        → IsGrid storage.buff.width grid_height storage.buff.grid
        → KeepsOn (run r sink infos (scroller storage) frame n w)
    unfolding run ran_scroller
    run-scroller storage map buffer =
        let ((pixels, after, c), e, f) = Returns-value (
          scroller_run-Frame sink i infos r.kernel r.strips (frame, storage, w.client) s.wired
            s.strips
            (record {
              map = map;
              buffer = buffer;
              room = omega (arith, size, s.full);
              found = online.found;
              entry = (online.info, online.entry);
            })) in
        record {
          after = scroller after;
          frame = pixels;
          number = n;
          world = record w { client = c };
          returned = rw (s.zeroed, e) refl;
          size = f.pixels.size ∙ size;
          kept = (
            record { found = f.ready.found; info = f.ready.entry.0; entry = f.ready.entry.1 },
            f.ready.map,
            f.ready.buffer,
          );
        }

    run-sun :
        (state : SunState)
        → SunKept sink i infos suns temps r state n
        → KeepsOn (run r sink infos (sun state) frame n w)
    unfolding run ran_sun
    run-sun state kept =
        let ((code, after), e, ran) = Returns-value (
          sunrise_run-Ran r.floats suns r.kernel sink i online.info infos r.strips s.sun_lines
            s.wired (fits sink i infos suns temps r s) s.strips
            (record { state = state; frame = frame; frame_no = n; client = w.client })
            (record { step = kept.step; frame = size; frame_no = refl; bound = kept.bound })
            online.found online.entry) in
        record {
          after = sun after.state;
          frame = after.frame;
          number = after.frame_no;
          world = record w { client = after.client };
          returned = rw (s.zeroed, e) refl;
          size = ran.runs.frame;
          kept = (
            Online-Sent r.kernel sink i online.info (Organised after.frame infos) n w.client
                after.client kept.bound online ran.sent ran.silent,
            record { step = ran.runs.step; bound = ran.runs.bound },
          );
        }

    run-timelapse :
        (e : WeatherEffect) (content left : Bytes)
        → LapseKept sink i infos suns temps r e content left n
        → KeepsOn (run r sink infos (weather e content left) frame n w)
    unfolding run ran_weather world_after weather_of run_effect
    run-timelapse e content left kept =
        let (code, v, returned, ran) = Ends-value (
          weather_timelapse_run-Ran r.floats r.atof temps r.kernel sink i online.info infos r.strips
            s.temp_lines s.wired (fits sink i infos suns temps r s) s.strips kept.place
            (weather_of frame n content left w)
            (record {
              step = record {
                content = kept.content_is;
                left = kept.left_is;
                bound = kept.inside;
                frame = size;
              };
              turn = kept.turn;
              bound = kept.bound;
            })
            online.found online.entry) in
        record {
          after = weather (temp_timelapse sink i infos suns temps r) v.content v.temp_file;
          frame = v.frame;
          number = v.frame_no;
          world = world_after v w;
          returned = rw (kept.same, returned) refl;
          size = ran.runs.step.frame;
          kept = (
            Online-Sent r.kernel sink i online.info (Organised v.frame infos) n w.client v.client
                kept.bound online ran.sent ran.silent,
            inl (record {
              same = refl;
              content_is = ran.runs.step.content;
              place = next r.floats r.atof temps kept.place;
              left_is = ran.runs.step.left;
              inside = ran.runs.step.bound;
              turn = ran.runs.turn;
              bound = ran.runs.bound;
            }),
          );
        }

    run-image :
        (map : Grid)
        → IsGrid grid_width grid_height map
        → KeepsOn (run r sink infos (image map) frame n w)
    unfolding run ran_lit image_run
    run-image map is =
        let (pixels, e, copied) =
          Returns-value
            (read_grid_to_list-Copied frame map infos is (omega (arith, size, s.full))) in
        let ((done, c), sent, put) = Returns-value (
          opc_put_pixels-Put r.kernel sink i online.info 0 471 pixels w.client online.found
            online.entry (omega (arith, size, copied.size))) in
        record {
          after = image map;
          frame = pixels;
          number = n;
          world = record w { client = c };
          returned = rw (e, sent) refl;
          size = copied.size ∙ size;
          kept = (Online-Put r.kernel sink i online.info pixels w.client c done online put, is);
        }

    run-test1 : (map : Grid) → KeepsOn (run r sink infos (test1 map) frame n w)
    unfolding run ran_lit
    run-test1 map =
        let ((pixels, c), e, shown) = Returns-value (
          test1_run-Shown r.kernel sink infos r.strips i online.info frame w.client size
            online.found online.entry s.wired (fits sink i infos suns temps r s) s.strips) in
        record {
          after = test1 map;
          frame = pixels;
          number = n;
          world = record w { client = c };
          returned = rw (s.zeroed, e) refl;
          size = ap length shown.frame ∙ length-lit_at 0;
          kept =
              Online-Put r.kernel sink i online.info shown.out w.client c shown.sent online
                shown.put;
        }

    run-log :
        (content left : Bytes)
        → (run r sink infos (weather (temp_log sink i infos suns temps r) content left) frame n w
            ≡ exits)
          ⊎ KeepsOn (
              run r sink infos
                (weather (temp_log sink i infos suns temps r) content left)
                frame
                n
                w)
    unfolding run ran_weather world_after weather_of run_effect
    run-log content left =
        elim (weather_log_run-Logged r.internet r.json r.print r.junk r.buf r.floats r.line infos
          (weather_of frame n content left w) s.full s.sockets s.nul s.colours size) [
            | inl ended ↦ inl (rw ended refl)
            | inr done ↦
                let (code, v, returned, logged) = Ends-value done in
                inr (record {
                  after = weather (temp_log sink i infos suns temps r) v.content v.temp_file;
                  frame = v.frame;
                  number = v.frame_no;
                  world = world_after v w;
                  returned = rw returned refl;
                  size = logged.size ∙ size;
                  kept = (Online-same sink i w.client v.client logged.client online, inr refl);
                })
          ]

    run-weather :
        (e : WeatherEffect) (content left : Bytes)
        → LapseKept sink i infos suns temps r e content left n
          ⊎ (e ≡ temp_log sink i infos suns temps r)
        → (run r sink infos (weather e content left) frame n w ≡ exits)
          ⊎ KeepsOn (run r sink infos (weather e content left) frame n w)
    run-weather e content left (inl kept) = inr (run-timelapse e content left kept)
    run-weather e content left (inr same) = rw same (run-log content left)

  pub run-KeepsOn :
      (s : Supplied sink i infos suns temps r) (e : Effect) (frame : List Pixel) (n : ℕ) (w : World)
      → Kept sink i infos suns temps r e n w
      → length frame ≡ 471
      → (run r sink infos e frame n w ≡ exits) ⊎ KeepsOn (run r sink infos e frame n w)
  unfolding run
  run-KeepsOn s (scroller storage) frame n w (online, map, buffer) size =
      inr (run-scroller s frame n w size online storage map buffer)
  run-KeepsOn s (image map) frame n w (online, is) size =
      inr (run-image s frame n w size online map is)
  run-KeepsOn s (test1 map) frame n w online size = inr (run-test1 s frame n w size online map)
  run-KeepsOn s (sun state) frame n w (online, kept) size =
      inr (run-sun s frame n w size online state kept)
  run-KeepsOn s (weather e content left) frame n w (online, kept) size =
      run-weather s frame n w size online e content left kept
  run-KeepsOn s python frame n w online size = inr (record {
    after = python;
    frame = frame;
    number = n;
    world = w;
    returned = refl;
    size = size;
    kept = online;
  })
  run-KeepsOn s (alltest map) frame n w kept size = absurd kept
