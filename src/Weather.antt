-- ===== src/Weather.antt =====
-- src/effects/weather.c: colours of temperatures and of wind speeds, from the network or from a file.
pub mod Palette
pub mod Lines
pub mod Fetch
pub mod Drawing
pub mod Sending
pub mod Logs
pub mod Runs
pub mod Place
pub mod Timelapse
pub mod Passes
pub mod Effects
pub mod Start
pub mod Sample
mod Tests
use c_client.Prelude.{
  ℕ, ◌+◌, ◌%◌, Bool, true, false, Option, none, some, List, [], ◌∷◌, ◌++◌, get_elem?, leb, ◌==◌,
  if◌then◌else◌, codes, c_string, store,
}
use c_client.Prelude.Int.{ℤ, pos, eq_ℤ, ltb_ℤ}
use c_client.Extension.{Double, Pixel, PixelInfo, Geolocation, num_pixels}
use c_client.Floats.{Floats}
use c_client.Process.{Outcome, ok, exits, fault, and_then, ◌>>=◌, ◌>>◌, pure}
use c_client.Pixel.{GridMemory}
use c_client.Opc.{Client, Kernel, opc_put_pixel_list}
use c_client.Strtol.{atoi}
use c_client.Strings.{strtok, fgets}
use c_client.ApiManager.{
  Bytes, Internet, Traffic, Json, failure, socket_connect, socket_close, get_data_for_geolocation,
  get_double_from_json,
}
use c_client.Weather.Palette.{set_temp_pixel_colour, set_windspeed_pixel_colour}

abbrev pub weather_host : Bytes
weather_host = codes "api.openweathermap.org"

abbrev pub weather_path : Bytes
weather_path = codes "data/2.5/weather?lat=%f&lon=%f&appid=%s"

abbrev pub will_owm_api_key : Bytes
will_owm_api_key = codes "6ee4372288ed6d49c7dea5ed1f39a118"

-- The runner's fields that the effects change, the client, the network, and the effect's file: what
-- was appended, or what it holds and what is left of it to read.
pub record Weather : Type 0 where
  pub frame : List Pixel
  pub frame_no : ℕ
  pub client : Client
  pub traffic : Traffic
  pub appended : Bytes
  pub content : Bytes
  pub temp_file : Bytes

abbrev pub Action : Type 0 → Type 0
Action A = Weather → Outcome (A × Weather)

-- A none of the other modules is a fault.
abbrev pub total : {A S : Type 0} → Option A → S → Outcome (A × S)
total none s = fault
total (some a) s = ok (a, s)

abbrev pub online : {A : Type 0} → (Traffic → Outcome (A × Traffic)) → Action A
online m w = elim (m w.traffic) [
  | ok (a, t) ↦ ok (a, record w { traffic = t })
  | exits ↦ exits
  | fault ↦ fault
]

-- self->frame->pixels[pos] = pixel
pub set_pixel : ℕ → Pixel → Action (Unit {0})
unfolding store
set_pixel i pixel w = elim (store w.frame i pixel) [
  | none ↦ fault
  | some frame ↦ ok (tt, record w { frame = frame })
]

-- The position's pixel of the layout; list_get gives NULL behind the end.
pub geo_at : List PixelInfo → ℕ → Action Geolocation
geo_at infos i w = elim (get_elem? infos i) [ none ↦ fault | some info ↦ ok (info.geo, w) ]

-- What a call needs besides the runner: the network, the JSON library, "%f", and what the buffers of
-- the request and of the answer hold before.
module _ {V O : Type 0} (net : Internet) (json : Json V O) (print : Double → Bytes)
    (junk buf : Bytes) where
  unfoldable pub weather_get_val_for_xy :
      Geolocation → Bytes → Bytes → Traffic → Outcome (Option Double × Traffic)
  unfolding socket_connect socket_close get_data_for_geolocation get_double_from_json
  weather_get_val_for_xy geoloc attr object = socket_connect net weather_host >>= λ sockfd.
      if ltb_ℤ sockfd (pos 0)
      then pure none
      else (get_data_for_geolocation net print sockfd geoloc weather_host weather_path
            will_owm_api_key junk buf
          >>= λ (code, answer).
              if ltb_ℤ code (pos 0)
              then pure none
              else (get_double_from_json json answer attr object >>= λ val. elim val [
                | none ↦ pure none
                | some d ↦ socket_close net sockfd >> pure (some d)
              ]))

  -- The three `.._get_pixel_for_xy`, on the pixel of the frame at `i`; `colour` is the function of
  -- the value, and `done` what is written of it.
  pub get_pixel_for_xy :
      Bytes
      → Bytes
      → (Double → Option Pixel)
      → (Double → Weather → Weather)
      → Geolocation
      → ℕ
      → Action ℤ
  unfolding weather_get_val_for_xy set_pixel
  get_pixel_for_xy attr object colour done geoloc i =
      online (weather_get_val_for_xy geoloc attr object) >>= λ val. elim val [
        | none ↦ pure failure
        | some d ↦ total (colour d) >>= λ pixel. set_pixel i pixel >> λ w. ok (pos 0, done d w)
      ]

  unfoldable pub temp_get_pixel : Floats → List PixelInfo → ℕ → Action ℤ
  unfolding get_pixel_for_xy geo_at
  temp_get_pixel fl infos i = geo_at infos i >>= λ geo.
      get_pixel_for_xy (codes "temp") (codes "main") (set_temp_pixel_colour fl) (λ d w. w) geo i

  unfoldable pub windspeed_get_pixel : Floats → List PixelInfo → ℕ → Action ℤ
  unfolding get_pixel_for_xy geo_at
  windspeed_get_pixel fl infos i = geo_at infos i >>= λ geo.
      get_pixel_for_xy (codes "speed") (codes "wind") (set_windspeed_pixel_colour fl) (λ d w. w) geo
        i

  -- `line` is what fprintf writes of "%d %f\n".
  unfoldable pub temp_log_pixel : Floats → (ℕ → Double → Bytes) → List PixelInfo → ℕ → Action ℤ
  unfolding get_pixel_for_xy geo_at
  temp_log_pixel fl line infos i = geo_at infos i >>= λ geo.
      get_pixel_for_xy (codes "temp") (codes "main") (set_temp_pixel_colour fl)
        (λ d w. record w { appended = w.appended ++ line i d }) geo i

-- The position and the temperature of a line; a NULL token is a fault.
unfoldable pub parse_temp : (Bytes → Double) → Bytes → Option (ℤ × Double)
unfolding strtok
parse_temp atof line = elim (strtok b' ' line) [
  | none ↦ none
  | some (loc, rest) ↦ elim (strtok b' ' rest) [
    | none ↦ none
    | some (val, more) ↦ some (atoi loc, atof val)
  ]
]

-- After fseek: the first line is read and left aside.
pub rewound : Weather → Weather
unfolding fgets
rewound w = elim (fgets 50 w.content) [
  | none ↦ record w { temp_file = w.content }
  | some (line, rest) ↦ record w { temp_file = rest }
]

unfoldable pub temp_timelapse_get_pixel : Floats → (Bytes → Double) → ℕ → Action ℤ
unfolding parse_temp fgets rewound set_pixel
temp_timelapse_get_pixel fl atof i w = elim (fgets 50 w.temp_file) [
  | none ↦ ok (pos 0, rewound w)
  | some (line, rest) ↦
      and_then (total (parse_temp atof (c_string line)) (record w { temp_file = rest }))
        λ (loc, val).
          if eq_ℤ loc (pos i)
          then (total (set_temp_pixel_colour fl val) >>= λ pixel. set_pixel i pixel >> pure (pos 0))
          else pure failure
]

-- The layout and the memory of opc_put_pixel_list.
module _ (k : Kernel) (sink : ℤ) (infos : List PixelInfo) (strips : GridMemory)
    (zeroed : Bool) where
  -- The result is the returned value.
  pub put_frame : Action ℕ
  put_frame w = elim (opc_put_pixel_list k sink w.frame infos strips zeroed w.client) [
    | none ↦ fault
    | some (result, c) ↦ ok (result, record w { client = c })
  ]

  unfoldable pub weather_run : (ℕ → Action ℤ) → Action ℕ
  unfolding put_frame
  weather_run get_pixel w =
      and_then (get_pixel (w.frame_no % num_pixels) w)
        λ code. put_frame >>= λ result. pure (if result == 0 then 0 else 1)

  unfoldable pub weather_timelapse_run : (ℕ → Action ℤ) → Action ℕ
  unfolding put_frame
  weather_timelapse_run get_pixel w =
      if leb num_pixels w.frame_no
      then and_then (get_pixel 0 (record w { frame_no = 0 }))
          (λ code. put_frame >>= λ result. pure (if result == 0 then 1 else 0))
      else and_then (get_pixel w.frame_no w) (λ code. pure 0)

-- The delay of 20 minutes at the end is left out.
unfoldable pub weather_log_run : (ℕ → Action ℤ) → Action ℕ
weather_log_run get_pixel w =
    let start = if leb num_pixels w.frame_no then 0 else w.frame_no in
    and_then (get_pixel start (record w { frame_no = start })) (λ code. pure 0)
