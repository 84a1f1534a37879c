-- ===== src/Weather/Tests.antt =====
-- The theorems on src/effects/weather.c on a server that answers and a file of one pass.
use c_client.Prelude.{
  ℕ, suc, ◌≡◌, refl, inl, some, List, [], arith, length-replicate, replicate, codes, true, false,
}
use c_client.Prelude.Int.{pos}
use c_client.Extension.{black_pixel}
use c_client.Samples.{
  memory, memory-Given, info, layout, layout-AllWired, slow_network, shut_sink, fresh_client,
}
use c_client.Opc.{find_sink}
use c_client.Process.{exits, Ends}
use c_client.Sunrise.Sample.{whole}
use c_client.ApiManager.{Internet}
use c_client.Weather.{
  Weather, weather_host, weather_get_val_for_xy, temp_get_pixel, temp_log_pixel, weather_run,
  weather_timelapse_run, temp_timelapse_get_pixel,
}
use c_client.Weather.Lines.{write_lines}
use c_client.Weather.Timelapse.{Runs, Ran, weather_timelapse_run-Ran}
use c_client.Weather.Passes.{frames}
use c_client.Weather.Fetch.{Fetched, weather_get_val_for_xy-Fetched}
use c_client.Weather.Runs
use c_client.Weather.Effects.{WeatherEffect, run_effect, get_temp_timelapse_effect}
use c_client.Weather.Start.{FirstPass, get_temp_timelapse_effect-FirstPass}
use c_client.Weather.Sample.{
  internet, library, fresh_traffic, print_zero, room, room-Terminated, any_colour, temps_at,
  all_temps, all_temps-AreTemps, atof,
}

weather_get_val_for_xy-Fetched_example :
    Ends
      (Fetched internet library print_zero
        (room 300)
        (room 600)
        (info 7 0 3 8).geo
        (codes "temp")
        (codes "main")
        fresh_traffic
        5)
      (weather_get_val_for_xy internet library print_zero
        (room 300)
        (room 600)
        (info 7 0 3 8).geo
        (codes "temp")
        (codes "main")
        fresh_traffic)
weather_get_val_for_xy-Fetched_example =
    weather_get_val_for_xy-Fetched internet library print_zero (room 300) (room 600)
      (info 7 0 3 8).geo (codes "temp") (codes "main") fresh_traffic 5 room-Terminated
      (record { known = refl; socket = refl; connect = refl })

-- At a frame, with what the file has left.
abbrev at_frame : ℕ → List ℕ → Weather
at_frame n left = record {
  frame = replicate 471 black_pixel;
  frame_no = n;
  client = fresh_client;
  traffic = fresh_traffic;
  appended = [];
  content = write_lines all_temps;
  temp_file = left;
}

sink_found : find_sink (pos 0) fresh_client ≡ some 0
unfolding find_sink
sink_found = refl

weather_run-Ran_example :
    Ends
      (c_client.Weather.Runs.Ran internet library print_zero
        (room 300)
        (room 600)
        slow_network
        (pos 0)
        0
        shut_sink
        layout
        (memory 8 64)
        whole
        (info 9 0 3 7)
        (at_frame 472 [])
        5)
      (weather_run slow_network
        (pos 0)
        layout
        (memory 8 64)
        true
        (temp_get_pixel internet library print_zero (room 300) (room 600) whole layout)
        (at_frame 472 []))
weather_run-Ran_example =
    c_client.Weather.Runs.weather_run-Ran internet library print_zero (room 300) (room 600)
      slow_network (pos 0) 0 shut_sink layout (memory 8 64) whole (info 9 0 3 7) (at_frame 472 []) 5
      layout-AllWired (omega arith) (memory-Given 8 64) refl (length-replicate 471 black_pixel)
      room-Terminated (record { known = refl; socket = refl; connect = refl }) (λ d e. any_colour d)
      sink_found refl

-- Without a network no name is known.
abbrev offline : Internet
offline = record internet { gethostbyname = λ host call. false }

weather_run-exits_example :
    weather_run slow_network
      (pos 0)
      layout
      (memory 8 64)
      true
      (temp_get_pixel offline library print_zero (room 300) (room 600) whole layout)
      (at_frame 472 [])
    ≡ exits
weather_run-exits_example =
    c_client.Weather.Runs.weather_run-exits offline library print_zero (room 300) (room 600)
      slow_network (pos 0) layout (memory 8 64) true whole (info 9 0 3 7) (at_frame 472 []) refl
      (inl refl)

-- The end of the file.
at_end-Runs : Runs whole atof all_temps 471 (at_frame 471 [])
unfolding write_lines temps_at
at_end-Runs = record {
  step = record {
    content = refl;
    left = refl;
    bound = omega arith;
    frame = length-replicate 471 black_pixel;
  };
  turn = refl;
  bound = omega arith;
}

weather_timelapse_run-Ran_example :
    Ends (Ran whole atof all_temps slow_network (pos 0) 0 shut_sink layout 471 (at_frame 471 [])) (
      weather_timelapse_run slow_network
        (pos 0)
        layout
        (memory 8 64)
        true
        (temp_timelapse_get_pixel whole atof)
        (at_frame 471 []))
weather_timelapse_run-Ran_example =
    weather_timelapse_run-Ran whole atof all_temps slow_network (pos 0) 0 shut_sink layout
      (memory 8 64) all_temps-AreTemps layout-AllWired (omega arith) (memory-Given 8 64) 471
      (at_frame 471 []) at_end-Runs sink_found refl

get_temp_timelapse_effect-FirstPass_example :
    Ends
      (λ (made, w').
        (effect : WeatherEffect) × (made ≡ some effect)
        × Ends
            (FirstPass whole atof all_temps slow_network
              (pos 0)
              0
              shut_sink
              layout
              (memory 8 64)
              all_temps-AreTemps
              layout-AllWired
              (omega arith)
              (memory-Given 8 64)
              (at_frame 0 [])
              sink_found
              refl)
            (frames (run_effect effect) (suc 471) w'))
      (get_temp_timelapse_effect slow_network
        (pos 0)
        layout
        (memory 8 64)
        true
        whole
        true
        atof
        (some (write_lines all_temps))
        (at_frame 0 []))
get_temp_timelapse_effect-FirstPass_example =
    get_temp_timelapse_effect-FirstPass whole atof all_temps slow_network (pos 0) 0 shut_sink layout
      (memory 8 64) all_temps-AreTemps layout-AllWired (omega arith) (memory-Given 8 64)
      (at_frame 0 []) sink_found refl (length-replicate 471 black_pixel) refl
