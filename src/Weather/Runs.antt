-- ===== src/Weather/Runs.antt =====
-- Whole frames of `weather_run`, and processes that end in `socket_connect`.
use mathlib.Core.Path.{subst}
use c_client.Prelude.{
  ℕ, ◌+◌, ◌%◌, ◌≤◌, ◌≡◌, refl, ap, sym, ◌∙◌, ◌⊎◌, inl, inr, Bool, true, false, some, List, arith,
  length, length-set, get_elem?, Option-cases, codes,
}
use c_client.Prelude.Int.{ℤ, eq_ℤ}
use c_client.Extension.{Double, Pixel, PixelInfo, Geolocation, num_strips, max_strip_size}
use c_client.Pixel.{GridMemory}
use c_client.Pixel.Fill.{Given}
use c_client.Opc.{SinkInfo, Client, Kernel, find_sink}
use c_client.Opc.Strips.Sizes.{AllWired}
use c_client.Opc.Strips.Organise.{Organised}
use c_client.Opc.Message.{Put}
use c_client.Floats.{Floats}
use c_client.Process.{Outcome, exits, Ends, ends, Ends-bind}
use c_client.ApiManager.{Bytes, Internet, Traffic, Json, failure, socket_connect}
use c_client.ApiManager.Request.{Connects, Terminated}
use c_client.Weather.{
  Weather, online, geo_at, get_pixel_for_xy, weather_host, temp_get_pixel, weather_get_val_for_xy,
  weather_run,
}
use c_client.Weather.Palette.{set_temp_pixel_colour}
use c_client.Weather.Drawing.{temperature, Drawn, temp_get_pixel-Drawn}
use c_client.Weather.Sending.{put_frame-Put}

pub online_exits :
    {A : Type 0} (m : Traffic → Outcome (A × Traffic)) (w : Weather)
    → m w.traffic ≡ exits
    → online m w ≡ exits
online_exits m w e = rw (online, e) refl

module _ {V O : Type 0} (net : Internet) (json : Json V O) (print : Double → Bytes)
    (junk buf : Bytes) where
  -- A call of `socket_connect` fails.
  abbrev pub Refused : Bytes → Traffic → Type 0
  Refused host t =
      (net.gethostbyname host t.calls ≡ false)
      ⊎ (((net.gethostbyname host t.calls ≡ true) × (net.socket (t.calls + 1) ≡ failure))
          ⊎ ((net.gethostbyname host t.calls ≡ true)
              × (eq_ℤ (net.socket (t.calls + 1)) failure ≡ false)
              × (net.connect (t.calls + 1 + 1) ≡ false)))

  socket_connect-exits :
      (host : Bytes) (t : Traffic) → Refused host t → socket_connect net host t ≡ exits
  unfolding socket_connect
  socket_connect-exits host t (inl unknown) = rw unknown refl
  socket_connect-exits host t (inr (inl (known, socket))) = rw (known, socket) refl
  socket_connect-exits host t (inr (inr (known, socket, refused))) =
      rw (known, socket, refused) refl

  module _ (k : Kernel) (sink : ℤ) (j : ℕ) (info : SinkInfo) (infos : List PixelInfo)
      (strips : GridMemory) (fl : Floats) (pixel_info : PixelInfo) (w : Weather) (fd : ℕ) where
    -- What a frame of the temperatures leaves: the pixel is drawn if there is a value, and the frame is
    -- sent in any case.
    pub record Ran (result : ℕ × Weather) : Type 0 where
      pub code : result.0 ≡ 0
      pub drawing : ℤ × Weather
      pub drawn :
          Drawn net json print junk buf
            (codes "temp")
            (codes "main")
            (set_temp_pixel_colour fl)
            (λ d v. v)
            pixel_info.geo
            (w.frame_no % 471)
            w
            fd
            drawing
      pub client : Client
      pub same : result.1 ≡ record drawing.1 { client = client }
      pub sent :
          (out : List Pixel) × Organised result.1.frame infos out
          × (done : Bool) × Put k sink j info 0 471 out w.client (done, client)

    Drawn-kept :
        (code : ℤ) (v : Weather)
        → Drawn net json print junk buf
            (codes "temp")
            (codes "main")
            (set_temp_pixel_colour fl)
            (λ d v. v)
            pixel_info.geo
            (w.frame_no % 471)
            w
            fd
            (code, v)
        → (v.client ≡ w.client) × (length v.frame ≡ length w.frame)
    Drawn-kept code v drawn =
        elim (Option-cases (temperature net json print junk buf pixel_info w)) [
          | inl nothing ↦
              let (failed, same) = drawn.missing nothing in
              (ap (λ x. x.client) same, ap (λ x. length x.frame) same)
          | inr (d, number) ↦
              let (pixel, colour, succeeded, same) = drawn.drawn d number in
              (
                ap (λ x. x.client) same,
                ap (λ x. length x.frame) same ∙ length-set w.frame (w.frame_no % 471) pixel,
              )
        ]

    -- Let the layout of at most 471 pixels be wired, with an entry at the position of the frame's number
    -- modulo 471, there be memory for `opc_put_pixel_list`, the sink exist, the frame be whole, the
    -- calls of `socket_connect` succeed, the buffer of the request have 300 bytes, a NUL be in the
    -- buffer of the answer before and after any answer, and the temperature, if there is one, have a
    -- colour. A frame of `weather_run` with `temp_get_pixel` ends without a fault and returns 0. It
    -- fetches the temperature once, gives the pixel its colour if there is one and leaves the frame
    -- else, and in both cases sends the organised frame as `opc_put_pixels` sends it.
    pub weather_run-Ran :
        AllWired infos
        → length infos ≤ 471
        → Given num_strips max_strip_size strips
        → get_elem? infos (w.frame_no % 471) ≡ some pixel_info
        → length w.frame ≡ 471
        → Terminated net junk buf
        → Connects net weather_host w.traffic fd
        → ((d : Double)
            → temperature net json print junk buf pixel_info w ≡ some d
            → (pixel : Pixel) × (set_temp_pixel_colour fl d ≡ some pixel))
        → find_sink sink w.client ≡ some j
        → get_elem? w.client.sinks j ≡ some info
        → Ends Ran (
            weather_run k sink infos strips true
              (temp_get_pixel net json print junk buf fl infos)
              w)
    unfolding weather_run
    weather_run-Ran wired fits given entry size nul connects colours found sink_entry =
        Ends-bind
          (temp_get_pixel-Drawn net json print junk buf fl infos (w.frame_no % 471) pixel_info w fd
            entry nul connects (omega (arith, size)) colours)
          λ code v drawn.
            let (quiet, kept) = Drawn-kept code v drawn in
            Ends-bind
              (put_frame-Put k sink j info infos strips wired fits given v (kept ∙ size)
                (ap (find_sink sink) quiet ∙ found)
                (ap (λ c. get_elem? c.sinks j) quiet ∙ sink_entry))
              λ result w' (zero, c, same, out, organised, done, put). rw zero (
                ends (record {
                  code = refl;
                  drawing = (code, v);
                  drawn = drawn;
                  client = c;
                  same = same;
                  sent = (
                    out,
                    subst (λ ps. Organised ps infos out) (sym (ap (λ x. x.frame) same)) organised,
                    done,
                    subst (λ before. Put k sink j info 0 471 out before (done, c)) quiet put,
                  );
                }))

  pub weather_get_val_for_xy-exits :
      (attr object : Bytes) (geo : Geolocation) (t : Traffic)
      → Refused weather_host t
      → weather_get_val_for_xy net json print junk buf geo attr object t ≡ exits
  unfolding weather_get_val_for_xy
  weather_get_val_for_xy-exits attr object geo t refused =
      rw (weather_get_val_for_xy, socket_connect-exits weather_host t refused) refl

  -- On a layout with an entry at the position of the frame's number modulo 471, when the name of the
  -- server is not known, or there is no socket, or the connection is refused, a frame of `weather_run`
  -- with `temp_get_pixel` ends the process.
  pub weather_run-exits :
      (k : Kernel) (sink : ℤ) (infos : List PixelInfo) (strips : GridMemory) (zeroed : Bool)
      (fl : Floats) (pixel_info : PixelInfo) (w : Weather)
      → get_elem? infos (w.frame_no % 471) ≡ some pixel_info
      → Refused weather_host w.traffic
      → weather_run k sink infos strips zeroed (temp_get_pixel net json print junk buf fl infos) w
        ≡ exits
  unfolding weather_run temp_get_pixel get_pixel_for_xy geo_at
  weather_run-exits k sink infos strips zeroed fl pixel_info w entry refused =
      rw
        (
          weather_run,
          temp_get_pixel,
          geo_at,
          entry,
          online_exits
              (weather_get_val_for_xy net json print junk buf pixel_info.geo (codes "temp")
                (codes "main"))
              w
              (weather_get_val_for_xy-exits (codes "temp") (codes "main") pixel_info.geo w.traffic
                refused),
        )
        refl
