-- ===== src/Program/Own.antt =====
-- The effects of src/effects as `main` of src/effect_runner.c makes, runs and removes them, and
-- src/effects/python.c, which stands in for the scripts.
pub mod Kept
pub mod Frames
pub mod Laws
pub mod Running
mod Sample
mod Tests
use c_client.Prelude.{ℕ, Bool, Option, none, some, List, [], ◌∷◌, codes, if◌then◌else◌}
use c_client.Prelude.Int.{ℤ}
use c_client.Extension.{Double, Pixel, PixelInfo}
use c_client.Process.{Outcome, ok, exits, fault}
use c_client.Floats.{Floats}
use c_client.Pixel.{Grid, GridMemory}
use c_client.Opc.{Client, Kernel}
use c_client.ApiManager.{Bytes, Internet, Json, Traffic}
use c_client.Scroller
use c_client.Scroller.{Storage, scroller_run}
use c_client.Image
use c_client.Image.{image_run}
use c_client.SmallEffects
use c_client.SmallEffects.{alltest_run, test1_run}
use c_client.Sunrise.{SunState, SunRunner, sunrise_run, get_sun_effect}
use c_client.Weather.{Weather}
use c_client.Weather.Effects as WeatherEffects
use c_client.Weather.Effects.{WeatherEffect, run_effect}
use c_client.EffectRunner
use c_client.EffectRunner.{Constructor, get_dummy_python_effect, Effects}

-- The objects of the effects. A weather effect has the lines of the time lapse's file and those that
-- are left of it.
pub data Effect : Type 0 where
  scroller : Storage → Effect
  image : Grid → Effect
  alltest : Grid → Effect
  test1 : Grid → Effect
  sun : SunState → Effect
  weather : WeatherEffect → Bytes → Bytes → Effect
  python : Effect

-- What the effects share: the client, the sockets, the file that is logged to, and the lines that were
-- given to `system`.
pub record World : Type 0 where
  pub client : Client
  pub traffic : Traffic
  pub appended : Bytes
  pub scripts : List Bytes

-- What the effects get from outside: the two networks, JSON, what malloc and calloc give, the first
-- contents of the buffers of requests and answers, doubles and their printing, and the files. One
-- `Bool` says whether there is memory for the effects, and one whether there is for the objects
-- behind them.
pub record Resources (V O : Type 0) : Type 0 where
  pub kernel : Kernel
  pub internet : Internet
  pub json : Json V O
  pub strips : GridMemory
  pub zeroed : Bool
  pub effect_memory : Bool
  pub object_memory : Bool
  pub buffer : GridMemory
  pub map : GridMemory
  pub junk : Bytes
  pub buf : Bytes
  pub floats : Floats
  pub atof : Bytes → Double
  pub print : Double → Bytes
  pub line : ℕ → Double → Bytes
  pub sun_file : Option Bytes
  pub temp_file : Option Bytes
  pub log_opens : Bool

abbrev pub kill_line : Bytes
kill_line = codes "ps | grep python | awk '{print $1}' | xargs kill "

unfoldable pub python_kill_process : World → World
python_kill_process w = record w { scripts = kill_line ∷ w.scripts }

abbrev pub Result : Type 0
Result = Outcome (Effect × (List Pixel × (ℕ × World)))

abbrev pub Made : Type 0
Made = Outcome (Option Effect × World)

-- A frame of an effect that keeps the number.
unfoldable pub ran_scroller : ℕ → World → Option (List Pixel × Storage × Client) → Result
ran_scroller n w none = fault
ran_scroller n w (some (pixels, storage, c)) =
    ok (scroller storage, (pixels, (n, record w { client = c })))

unfoldable pub ran_lit : Effect → ℕ → World → Option (List Pixel × Client) → Result
ran_lit e n w none = fault
ran_lit e n w (some (pixels, c)) = ok (e, (pixels, (n, record w { client = c })))

unfoldable pub ran_sun : World → Option (ℕ × SunRunner) → Result
ran_sun w none = fault
ran_sun w (some (code, r)) =
    ok (sun r.state, (r.frame, (r.frame_no, record w { client = r.client })))

unfoldable pub world_after : Weather → World → World
world_after v w = record w { client = v.client; traffic = v.traffic; appended = v.appended }

unfoldable pub ran_weather : WeatherEffect → World → Outcome (ℕ × Weather) → Result
unfolding world_after
ran_weather e w (ok (code, v)) =
    ok (weather e v.content v.temp_file, (v.frame, (v.frame_no, world_after v w)))
ran_weather e w exits = exits
ran_weather e w fault = fault

-- After a constructor: a fault, NULL or the object.
unfoldable pub made : {A : Type 0} → (A → Effect) → World → Option (Option A) → Made
made wrap w none = fault
made wrap w (some none) = ok (none, w)
made wrap w (some (some a)) = ok (some (wrap a), w)

unfoldable pub made_lit : (Grid → Effect) → World → Option Grid → Made
made_lit wrap w none = fault
made_lit wrap w (some a) = ok (some (wrap a), w)

unfoldable pub made_weather : World → Outcome (Option WeatherEffect × Weather) → Made
unfolding world_after
made_weather w (ok (none, v)) = ok (none, world_after v w)
made_weather w (ok (some e, v)) = ok (some (weather e v.content v.temp_file), world_after v w)
made_weather w exits = exits
made_weather w fault = fault

-- The runner as the weather effects see it.
unfoldable pub weather_of : List Pixel → ℕ → Bytes → Bytes → World → Weather
weather_of frame n content left w = record {
  frame = frame;
  frame_no = n;
  client = w.client;
  traffic = w.traffic;
  appended = w.appended;
  content = content;
  temp_file = left;
}

-- The runner's sink and layout.
module _ {V O : Type 0} (r : Resources V O) (sink : ℤ) (infos : List PixelInfo) where
  unfoldable pub run : Effect → List Pixel → ℕ → World → Result
  unfolding ran_scroller ran_lit ran_sun ran_weather weather_of
  run (scroller storage) frame n w =
      ran_scroller n w
        (scroller_run r.kernel sink infos r.strips r.zeroed (frame, storage, w.client))
  run (image map) frame n w =
      ran_lit (image map) n w (image_run r.kernel sink infos map (frame, w.client))
  run (alltest map) frame n w =
      ran_lit (alltest map) n w
        (alltest_run r.kernel sink infos r.strips r.zeroed n (frame, w.client))
  run (test1 map) frame n w =
      ran_lit (test1 map) n w (test1_run r.kernel sink infos r.strips r.zeroed (frame, w.client))
  run (sun state) frame n w = ran_sun w (
      sunrise_run r.floats r.kernel sink infos r.strips r.zeroed
        (record { state = state; frame = frame; frame_no = n; client = w.client }))
  run (weather e content left) frame n w =
      ran_weather e w (run_effect e (weather_of frame n content left w))
  run python frame n w = ok (python, (frame, (n, w)))

  -- What it frees and closes is left out.
  unfoldable pub remove : Effect → World → World
  unfolding python_kill_process
  remove (scroller storage) w = w
  remove (image map) w = w
  remove (alltest map) w = w
  remove (test1 map) w = w
  remove (sun state) w = w
  remove (weather e content left) w = w
  remove python w = python_kill_process w

  -- A NULL state or time is written, but no file is the first thing that is found.
  unfoldable pub make_sun : World → Made
  unfolding get_sun_effect
  make_sun w =
      if r.effect_memory
      then elim r.sun_file [
        | none ↦ exits
        | some content ↦
            if r.object_memory then ok (some (sun (get_sun_effect content)), w) else fault
      ]
      else ok (none, w)

  unfoldable pub make_weather : (Weather → Outcome (Option WeatherEffect × Weather)) → World → Made
  unfolding made_weather weather_of
  make_weather new w = made_weather w (new (weather_of [] 0 [] [] w))

  unfoldable pub make_python : World → Made
  make_python w = if r.effect_memory then ok (some python, w) else ok (none, w)

  unfoldable pub make : Constructor → World → Made
  unfolding made made_lit make_sun make_weather make_python
  make EffectRunner.get_scroller_effect w =
      made scroller w (Scroller.get_scroller_effect r.effect_memory r.object_memory r.buffer r.map)
  make EffectRunner.get_image_effect w = made image w (Image.get_image_effect r.effect_memory r.map)
  make EffectRunner.get_alltest_effect w =
      made_lit alltest w (SmallEffects.get_alltest_effect r.effect_memory r.map)
  make EffectRunner.get_test1_effect w =
      made_lit test1 w (SmallEffects.get_test1_effect r.effect_memory r.map)
  make EffectRunner.get_sun_effect w = make_sun w
  make EffectRunner.get_temp_timelapse_effect w =
      make_weather
        (WeatherEffects.get_temp_timelapse_effect r.kernel sink infos r.strips r.zeroed r.floats
          r.effect_memory r.atof r.temp_file)
        w
  make EffectRunner.get_temp_log_effect w =
      make_weather
        (WeatherEffects.get_temp_log_effect r.kernel sink infos r.strips r.zeroed r.floats
          r.effect_memory r.internet r.json r.print r.junk r.buf r.line r.log_opens)
        w
  make EffectRunner.get_temp_effect w =
      make_weather
        (WeatherEffects.get_temp_effect r.kernel sink infos r.strips r.zeroed r.floats
          r.effect_memory r.internet r.json r.print r.junk r.buf r.log_opens)
        w
  make EffectRunner.get_windspeed_effect w =
      make_weather
        (WeatherEffects.get_windspeed_effect r.kernel sink infos r.strips r.zeroed r.floats
          r.effect_memory r.internet r.json r.print r.junk r.buf)
        w
  make get_dummy_python_effect w = make_python w

  unfoldable pub program_effects : Effects Effect World
  unfolding make run remove
  program_effects = record {
    construct = make;
    run = run;
    remove = remove;
    system = λ line w. record w { scripts = line ∷ w.scripts };
  }
