-- ===== src/Weather/Drawing.antt =====
-- A pixel from the network: the three `.._get_pixel_for_xy` and `weather_run`.
use mathlib.Core.Option.{some-injective, some-ne-none}
use c_client.Prelude.{
  ℕ, ◌+◌, ◌<◌, ◌≡◌, refl, ap, sym, ◌∙◌, Option, none, some, List, ◌++◌, length, set, get_elem?,
  codes,
}
use c_client.Prelude.Int.{ℤ, pos}
use c_client.Extension.{Double, Pixel, PixelInfo, Geolocation}
use c_client.Floats.{Floats}
use c_client.Process.{Outcome, ok, ◌>>=◌, ◌>>◌, pure, Ends, ends, Ends-value, Ends-bind}
use c_client.ApiManager.{Bytes, Internet, Traffic, Json, failure}
use c_client.ApiManager.Request.{Connects, Terminated}
use c_client.Weather.{
  Weather, Action, total, online, weather_host, set_pixel, weather_get_val_for_xy, get_pixel_for_xy,
  geo_at, temp_get_pixel, temp_log_pixel,
}
use c_client.Weather.Palette.{set_temp_pixel_colour}
use c_client.Weather.Lines.{set_pixel-inside}
use c_client.Weather.Fetch.{value_at, Fetched, weather_get_val_for_xy-Fetched}

Ends-online :
    {A : Type 0} {P : A × Traffic → Type 0} (m : Traffic → Outcome (A × Traffic)) (w : Weather)
    → Ends P (m w.traffic)
    → Ends (λ (a, w'). (t : Traffic) × (w' ≡ record w { traffic = t }) × P (a, t)) (online m w)
Ends-online m w h = let (a, t, e, p) = Ends-value h in rw (online, e) (ends (t, refl, p))

geo_at-entry :
    (infos : List PixelInfo) (i : ℕ) (info : PixelInfo) (w : Weather)
    → get_elem? infos i ≡ some info
    → Ends (λ (geo, w'). (geo ≡ info.geo) × (w' ≡ w)) (geo_at infos i w)
unfolding geo_at
geo_at-entry infos i info w entry = rw (geo_at, entry) (ends (refl, refl))

module _ {V O : Type 0} (net : Internet) (json : Json V O) (print : Double → Bytes)
    (junk buf : Bytes) where
  module _ (attr object : Bytes) (colour : Double → Option Pixel)
      (done : Double → Weather → Weather) (geo : Geolocation) (i : ℕ) (w : Weather) (fd : ℕ) where
    abbrev pub value : Option Double
    value = value_at net json print junk buf geo attr object (w.traffic.calls + 1 + 1 + 1)

    draw : Option Double → Action ℤ
    draw val = elim val [
      | none ↦ pure failure
      | some d ↦ total (colour d) >>= λ pixel. set_pixel i pixel >> λ w. ok (pos 0, done d w)
    ]

    -- What drawing the pixel leaves: without a value only the traffic, with a value the pixel in its
    -- colour as well, and what else is done with the value.
    pub record Drawn (result : ℤ × Weather) : Type 0 where
      pub traffic : Traffic
      pub fetched : Fetched net json print junk buf geo attr object w.traffic fd (value, traffic)
      pub missing :
          value ≡ none → (result.0 ≡ failure) × (result.1 ≡ record w { traffic = traffic })
      pub drawn :
          (d : Double)
          → value ≡ some d
          → (pixel : Pixel) × (colour d ≡ some pixel)
            × (result.0 ≡ pos 0)
            × (result.1 ≡ done d (record w { traffic = traffic; frame = set w.frame i pixel }))

    from_value :
        (v : Option Double) (w1 : Weather) (t : Traffic)
        → w1 ≡ record w { traffic = t }
        → Fetched net json print junk buf geo attr object w.traffic fd (v, t)
        → i < length w.frame
        → ((d : Double) → value ≡ some d → (pixel : Pixel) × (colour d ≡ some pixel))
        → Ends Drawn (draw v w1)
    unfolding draw
    from_value none w1 t same fetched inside colours = rw same (
        ends (record {
          traffic = t;
          fetched = rw (← fetched.value) fetched;
          missing = λ nothing. (refl, refl);
          drawn = λ d number. absurd (some-ne-none d (sym number ∙ sym fetched.value));
        }))
    from_value (some d) w1 t same fetched inside colours =
        let (pixel, is) = colours d (sym fetched.value) in
        rw (same, draw, is, set_pixel-inside i pixel (record w { traffic = t }) inside)
          (ends (record {
            traffic = t;
            fetched = rw (← fetched.value) fetched;
            missing = λ nothing. absurd (some-ne-none d (fetched.value ∙ nothing));
            drawn = λ d' number.
                let same_value : d ≡ d' = some-injective d d' (fetched.value ∙ number) in
                (
                  pixel,
                  ap colour (sym same_value) ∙ is,
                  refl,
                  ap (λ x. done x (record w { traffic = t; frame = set w.frame i pixel }))
                      same_value,
                );
          }))

    pub get_pixel_for_xy-Drawn :
        Terminated net junk buf
        → Connects net weather_host w.traffic fd
        → i < length w.frame
        → ((d : Double) → value ≡ some d → (pixel : Pixel) × (colour d ≡ some pixel))
        → Ends Drawn (get_pixel_for_xy net json print junk buf attr object colour done geo i w)
    unfolding get_pixel_for_xy draw
    get_pixel_for_xy-Drawn nul c inside colours =
        Ends-bind
          (Ends-online (weather_get_val_for_xy net json print junk buf geo attr object) w (
            weather_get_val_for_xy-Fetched net json print junk buf geo attr object w.traffic fd nul
              c))
          λ v w1 (t, same, fetched). from_value v w1 t same fetched inside colours

  abbrev pub temperature : PixelInfo → Weather → Option Double
  temperature info w =
      value_at net json print junk buf info.geo (codes "temp") (codes "main")
        (w.traffic.calls + 1 + 1 + 1)

  module _ (fl : Floats) (infos : List PixelInfo) (i : ℕ) (info : PixelInfo) (w : Weather) (fd : ℕ)
      (entry : get_elem? infos i ≡ some info) (nul : Terminated net junk buf)
      (connects : Connects net weather_host w.traffic fd) (inside : i < length w.frame) where
    module _
        (colours : (d : Double)
          → temperature info w ≡ some d
          → (pixel : Pixel) × (set_temp_pixel_colour fl d ≡ some pixel)) where
      pub temp_get_pixel-Drawn :
          Ends
            (Drawn
              (codes "temp")
              (codes "main")
              (set_temp_pixel_colour fl)
              (λ d w. w)
              info.geo
              i
              w
              fd)
            (temp_get_pixel net json print junk buf fl infos i w)
      unfolding temp_get_pixel
      temp_get_pixel-Drawn = Ends-bind (geo_at-entry infos i info w entry) λ geo w' (at, same).
          rw (at, same)
            (get_pixel_for_xy-Drawn (codes "temp") (codes "main") (set_temp_pixel_colour fl)
              (λ d w. w) info.geo i w fd nul connects inside colours)

      pub temp_log_pixel-Drawn :
          (line : ℕ → Double → Bytes)
          → Ends
              (Drawn
                (codes "temp")
                (codes "main")
                (set_temp_pixel_colour fl)
                (λ d w. record w { appended = w.appended ++ line i d })
                info.geo
                i
                w
                fd)
              (temp_log_pixel net json print junk buf fl line infos i w)
      unfolding temp_log_pixel
      temp_log_pixel-Drawn line = Ends-bind (geo_at-entry infos i info w entry) λ geo w' (at, same).
          rw (at, same)
            (get_pixel_for_xy-Drawn (codes "temp") (codes "main") (set_temp_pixel_colour fl)
              (λ d w. record w { appended = w.appended ++ line i d }) info.geo i w fd nul connects
              inside colours)
