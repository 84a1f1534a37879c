-- ===== src/Program/Own/Kept.antt =====
-- What the effects of src/effects keep from frame to frame.
use native.Mathlib.Decide.{dec_lt}
use c_client.Prelude.{
  ℕ, ◌%◌, ◌≤◌, ◌<◌, ◌≡◌, ◌∙◌, ◌⊎◌, Bool, true, some, List, arith, length, get_elem?, drop,
}
use c_client.Prelude.Int.{ℤ}
use c_client.Extension.{
  Double, Pixel, PixelInfo, grid_width, grid_height, num_strips, max_strip_size,
}
use c_client.Pixel.Access.{IsGrid}
use c_client.Pixel.Fill.{Given}
use c_client.Opc.{SinkInfo, Client, Kernel, find_sink}
use c_client.Opc.Sending.{find_sink-next}
use c_client.Opc.Message.{Put}
use c_client.Opc.Strips.Sizes.{AllWired}
use c_client.ApiManager.{Bytes}
use c_client.Sunrise.{SunState}
use c_client.Sunrise.Lines.{SunLine, write_lines}
use c_client.Sunrise.Frames.{InStep, AreLines}
use c_client.Weather.Lines as WeatherLines
use c_client.Weather.Lines.{TempLine}
use c_client.ApiManager.Request.{Terminated}
use c_client.Weather.{
  Weather, temp_timelapse_get_pixel, temp_log_pixel, weather_timelapse_run, weather_log_run,
}
use c_client.Weather.Palette.{set_temp_pixel_colour}
use c_client.Weather.Drawing.{temperature}
use c_client.Weather.Logs.{Sockets}
use c_client.Weather.Place.{AreTemps}
use c_client.Weather.Effects.{WeatherEffect}
use c_client.Program.Own.{
  Effect, scroller, image, alltest, test1, sun, weather, python, World, Resources,
}

-- The sink exists.
pub record Online (sink : ℤ) (i : ℕ) (c : Client) : Type 0 where
  pub found : find_sink sink c ≡ some i
  pub info : SinkInfo
  pub entry : get_elem? c.sinks i ≡ some info

pub Online-Put :
    (k : Kernel) (sink : ℤ) (i : ℕ) (info : SinkInfo) (out : List Pixel) (c c' : Client)
    (done : Bool)
    → Online sink i c
    → Put k sink i info 0 471 out c (done, c')
    → Online sink i c'
Online-Put k sink i info out c c' done online put = record {
  found = find_sink-next sink c c' put.next ∙ online.found;
  info = put.sink_after.0;
  entry = put.sink_after.1;
}

pub Online-same : (sink : ℤ) (i : ℕ) (c c' : Client) → c' ≡ c → Online sink i c → Online sink i c'
Online-same sink i c c' same online = rw same online

-- After a frame that sends at the end of a pass alone.
pub Online-Sent :
    (k : Kernel) (sink : ℤ) (i : ℕ) (info : SinkInfo) (Out : List Pixel → Type 0) (n : ℕ)
    (c c' : Client)
    → n ≤ 471
    → Online sink i c
    → (n ≡ 471
        → (out : List Pixel) × Out out × (done : Bool) × Put k sink i info 0 471 out c (done, c'))
    → (n < 471 → c' ≡ c)
    → Online sink i c'
Online-Sent k sink i info Out n c c' bound online sent silent = elim (dec_lt n 471) [
  | yes early ↦ Online-same sink i c c' (silent early) online
  | no ended ↦
      let (out, is, done, put) = sent (omega arith) in
      Online-Put k sink i info out c c' done online put
]

-- The runner's sink and layout, and the lines of the two files.
module _ (sink : ℤ) (i : ℕ) (infos : List PixelInfo) (suns : List SunLine) (temps : List TempLine)
    {V O : Type 0} (r : Resources V O) where
  -- There is memory, the layout of 471 pixels is wired, the file of the sun has the lines of
  -- the positions in order, with a brightness at every time that tens of minutes lead to, and that of
  -- the time lapse has whole passes over them, with temperatures that have a colour, as
  -- those of the network have. `socket` returns a descriptor or -1, the buffer of a request has 300
  -- bytes, and a NUL is in the buffer of an answer before and after any answer.
  pub record Supplied : Type 0 where
    pub wired : AllWired infos
    pub full : length infos ≡ 471
    pub strips : Given num_strips max_strip_size r.strips
    pub zeroed : r.zeroed ≡ true
    pub effect_memory : r.effect_memory ≡ true
    pub object_memory : r.object_memory ≡ true
    pub buffer : Given 100 grid_height r.buffer
    pub map : Given grid_width grid_height r.map
    pub sun_file : r.sun_file ≡ some (write_lines suns)
    pub sun_lines : AreLines r.floats suns
    pub temp_file : r.temp_file ≡ some (WeatherLines.write_lines temps)
    pub temp_lines : AreTemps r.floats r.atof temps
    pub sockets : Sockets r.internet r.json r.print r.junk r.buf
    pub nul : Terminated r.internet r.junk r.buf
    pub colours :
        (info : PixelInfo) (v : Weather) (d : Double)
        → temperature r.internet r.json r.print r.junk r.buf info v ≡ some d
        → (pixel : Pixel) × (set_temp_pixel_colour r.floats d ≡ some pixel)

  pub fits : Supplied → length infos ≤ 471
  fits s = omega (arith, s.full)

  -- The time lapse as its constructor makes it.
  abbrev pub temp_timelapse : WeatherEffect
  temp_timelapse = record {
    get_pixel = temp_timelapse_get_pixel r.floats r.atof;
    run = weather_timelapse_run r.kernel sink infos r.strips true;
  }

  -- The log as its constructor makes it.
  abbrev pub temp_log : WeatherEffect
  temp_log = record {
    get_pixel = temp_log_pixel r.internet r.json r.print r.junk r.buf r.floats r.line infos;
    run = weather_log_run;
  }

  -- At the place of the frame's number in the file.
  pub record SunKept (state : SunState) (n : ℕ) : Type 0 where
    pub step : InStep r.floats suns n state
    pub bound : n ≤ 471

  pub record LapseKept (e : WeatherEffect) (content left : Bytes) (n : ℕ) : Type 0 where
    pub same : e ≡ temp_timelapse
    pub content_is : content ≡ WeatherLines.write_lines temps
    pub place : ℕ
    pub left_is : left ≡ WeatherLines.write_lines (drop place temps)
    pub inside : place ≤ length temps
    pub turn : n % 471 ≡ place % 471
    pub bound : n ≤ 471

  -- An effect that can run its next frame. No command starts alltest, the temperatures or the wind.
  abbrev pub Kept : Effect → ℕ → World → Type 0
  Kept (scroller s) n w =
      Online sink i w.client
      × IsGrid grid_width grid_height s.pixel_grid
      × IsGrid s.buff.width grid_height s.buff.grid
  Kept (image map) n w = Online sink i w.client × IsGrid grid_width grid_height map
  Kept (test1 map) n w = Online sink i w.client
  Kept (sun state) n w = Online sink i w.client × SunKept state n
  Kept (weather e content left) n w =
      Online sink i w.client × (LapseKept e content left n ⊎ (e ≡ temp_log))
  Kept (alltest map) n w = ⊥
  Kept python n w = Online sink i w.client
