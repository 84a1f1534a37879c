-- ===== src/Weather/Logs.antt =====
-- Frames of `weather_log_run`.
use c_client.Prelude.{
  ℕ, ◌+◌, ◌<◌, ◌≡◌, refl, ap, ◌∙◌, ◌⊎◌, inl, inr, Bool-cases, some, List, arith, length, length-set,
  leb, get_elem?, get_elem?-some, Option-cases, codes, if◌then◌else◌, ◌++◌,
}
use c_client.Prelude.Int.{ℤ, pos, eq_ℤ}
use c_client.Extension.{Double, Pixel, PixelInfo}
use c_client.Floats.{Floats}
use c_client.Process.{exits, Ends, ends, Ends-bind}
use c_client.ApiManager.{Bytes, Internet, Traffic, Json, failure}
use c_client.ApiManager.Request.{Connects, Terminated}
use c_client.Weather.{
  Weather, geo_at, get_pixel_for_xy, weather_host, weather_get_val_for_xy, temp_log_pixel,
  weather_log_run,
}
use c_client.Weather.Palette.{set_temp_pixel_colour}
use c_client.Weather.Drawing.{temperature, Drawn, temp_log_pixel-Drawn}
use c_client.Weather.Runs.{Refused, online_exits, weather_get_val_for_xy-exits}

module _ {V O : Type 0} (net : Internet) (json : Json V O) (print : Double → Bytes)
    (junk buf : Bytes) where
  -- `socket` returns a descriptor or -1.
  abbrev pub Sockets : Type 0
  Sockets = (call : ℕ) → (net.socket call ≡ failure) ⊎ ((fd : ℕ) × (net.socket call ≡ pos fd))

  Connects-cases :
      (host : Bytes) (t : Traffic)
      → Sockets
      → Refused net json print junk buf host t ⊎ ((fd : ℕ) × Connects net host t fd)
  Connects-cases host t sockets = elim (Bool-cases (net.gethostbyname host t.calls)) [
    | inr unknown ↦ inl (inl unknown)
    | inl known ↦ elim (sockets (t.calls + 1)) [
      | inl no_socket ↦ inl (inr (inl (known, no_socket)))
      | inr (fd, socket) ↦ elim (Bool-cases (net.connect (t.calls + 1 + 1))) [
        | inl connect ↦ inr (fd, record { known = known; socket = socket; connect = connect })
        | inr refused ↦ inl (inr (inr (known, ap (λ z. eq_ℤ z failure) socket, refused)))
      ]
    ]
  ]

  module _ (fl : Floats) (line : ℕ → Double → Bytes) (infos : List PixelInfo) where
    -- The frame of the number that `weather_log_run` goes on with.
    abbrev from_frame : Weather → Weather
    from_frame w = record w { frame_no = if leb 471 w.frame_no then 0 else w.frame_no }

    log_run-exits :
        (info : PixelInfo) (w : Weather)
        → get_elem? infos (from_frame w).frame_no ≡ some info
        → Refused net json print junk buf weather_host w.traffic
        → weather_log_run (temp_log_pixel net json print junk buf fl line infos) w ≡ exits
    unfolding weather_log_run temp_log_pixel get_pixel_for_xy geo_at
    log_run-exits info w entry refused =
        rw
          (
            weather_log_run,
            temp_log_pixel,
            geo_at,
            entry,
            online_exits
                (weather_get_val_for_xy net json print junk buf info.geo (codes "temp")
                  (codes "main"))
                (from_frame w)
                (weather_get_val_for_xy-exits net json print junk buf (codes "temp") (codes "main")
                  info.geo w.traffic refused),
          )
          refl

    -- The client is left alone, and the frame keeps its size.
    pub record Logged (w : Weather) (result : ℕ × Weather) : Type 0 where
      pub client : result.1.client ≡ w.client
      pub size : length result.1.frame ≡ length w.frame

    Drawn-Logged :
        (info : PixelInfo) (w : Weather) (fd i : ℕ) (code : ℤ) (v : Weather)
        → Drawn net json print junk buf
            (codes "temp")
            (codes "main")
            (set_temp_pixel_colour fl)
            (λ d x. record x { appended = x.appended ++ line i d })
            info.geo
            i
            w
            fd
            (code, v)
        → Logged w (0, v)
    Drawn-Logged info w fd i code v drawn =
        elim (Option-cases (temperature net json print junk buf info w)) [
          | inl nothing ↦
              let (failed, same) = drawn.missing nothing in
              record { client = ap (λ x. x.client) same; size = ap (λ x. length x.frame) same }
          | inr (d, number) ↦
              let (pixel, colour, succeeded, same) = drawn.drawn d number in
              record {
                client = ap (λ x. x.client) same;
                size = ap (λ x. length x.frame) same ∙ length-set w.frame i pixel;
              }
        ]

    -- Let the layout have 471 pixels, `socket` return a descriptor or -1, the buffer of the request
    -- have 300 bytes, a NUL be in the buffer of the answer before and after any answer, the frame be
    -- whole, and the temperatures of the network have colours. A frame of `weather_log_run` with
    -- `temp_log_pixel` ends the process, or it returns with a whole frame and sends no pixels.
    pub weather_log_run-Logged :
        (w : Weather)
        → length infos ≡ 471
        → Sockets
        → Terminated net junk buf
        → ((info : PixelInfo) (v : Weather) (d : Double)
            → temperature net json print junk buf info v ≡ some d
            → (pixel : Pixel) × (set_temp_pixel_colour fl d ≡ some pixel))
        → length w.frame ≡ 471
        → (weather_log_run (temp_log_pixel net json print junk buf fl line infos) w ≡ exits)
          ⊎ Ends
              (Logged w)
              (weather_log_run (temp_log_pixel net json print junk buf fl line infos) w)
    unfolding weather_log_run
    weather_log_run-Logged w full sockets nul colours size =
        let v : Weather = from_frame w in
        let small : v.frame_no < 471 = ground arith in
        let (info, at) = get_elem?-some infos v.frame_no (omega (arith, full, small)) in
        elim (Connects-cases weather_host w.traffic sockets) [
          | inl refused ↦ inl (log_run-exits info w at refused)
          | inr (fd, connects) ↦ inr (
              Ends-bind
                (temp_log_pixel-Drawn net json print junk buf fl infos v.frame_no info v fd at nul
                  connects (omega (size, small, arith)) (colours info v) line)
                λ code after drawn. ends (
                  let logged = Drawn-Logged info v fd v.frame_no code after drawn in
                  record { client = logged.client; size = logged.size }))
        ]
