-- ===== src/Sunrise/Tests.antt =====
-- The theorems on src/effects/sunrise.c on a day from 6 to 18 o'clock.
use c_client.Prelude.{
  ℕ, ◌-◌, ◌≡◌, refl, inr, some, List, [], arith, replicate, length-replicate, set, codes, true,
  Returns,
}
use c_client.Prelude.Int.{pos}
use c_client.Extension.{rgb, black_pixel}
use c_client.Samples.{
  memory, memory-Given, layout, layout-AllWired, slow_network, shut_sink, fresh_client,
}
use c_client.Opc.{find_sink}
use c_client.Strtol.Decimal.{digits}
use c_client.Strtol.Atoi.{write_number}
use c_client.Sunrise.{SunState, SunRunner, sun_get_pixel, sunrise_run}
use c_client.Sunrise.Lines.{NextLine, write_line, write_time, write_lines}
use c_client.Sunrise.Frames.{Ran, sunrise_run-Ran}
use c_client.Sunrise.Brightness.{between, secs}
use c_client.Sunrise.Painted.{sun_get_pixel-IsDay}
use c_client.Sunrise.Sample.{
  whole, whole-Exact, o_clock, lines_at, o_clock-InDay, line_at, line_at-IsSunLine, all_lines,
  all_lines-AreLines,
}

abbrev sun_text : List ℕ
sun_text = codes "2 6:0:0 18:0:0\n"

-- The file was read to its end.
abbrev state_at : ℕ → SunState
state_at h = record { content = sun_text; sun_file = []; current_time = o_clock h }

next_line : (h : ℕ) → NextLine (state_at h) (line_at 2) []
unfolding write_line write_time write_number digits
next_line h = record { line = line_at-IsSunLine 2 (omega arith); next = inr (refl, refl) }

-- At noon 6 of 12 hours are left.
sun_get_pixel-IsDay_example :
    sun_get_pixel whole 2 (state_at 12) (replicate 4 black_pixel)
    ≡ some (pos 0, (state_at 12, set (replicate 4 black_pixel) 2 (rgb 255 255 255)))
sun_get_pixel-IsDay_example =
    sun_get_pixel-IsDay whole (state_at 12) (line_at 2) [] (replicate 4 black_pixel) whole-Exact
      (next_line 12) (omega arith) (o_clock-InDay 6 (omega arith)) (o_clock-InDay 18 (omega arith))
      (o_clock-InDay 12 (omega arith)) (secs (o_clock 18) - secs (o_clock 12))
      (secs (o_clock 18) - secs (o_clock 6)) 255 (between (omega arith) (omega arith)) refl
      (omega arith)

-- The end of the file, ten minutes before midnight.
abbrev last_frame : SunRunner
last_frame = record {
  state = record {
    content = write_lines all_lines;
    sun_file = [];
    current_time = record { hour = 23; min = 50; sec = 0 };
  };
  frame = replicate 471 black_pixel;
  frame_no = 471;
  client = fresh_client;
}

sink_found : find_sink (pos 0) fresh_client ≡ some 0
unfolding find_sink
sink_found = refl

sunrise_run-Ran_example :
    Returns
      (Ran whole all_lines slow_network (pos 0) 0 shut_sink layout (memory 8 64) last_frame)
      (sunrise_run whole slow_network (pos 0) layout (memory 8 64) true last_frame)
unfolding write_lines lines_at
sunrise_run-Ran_example =
    sunrise_run-Ran whole all_lines slow_network (pos 0) 0 shut_sink layout (memory 8 64)
      all_lines-AreLines layout-AllWired (omega arith) (memory-Given 8 64) last_frame
      (record {
        step = record {
          content = refl;
          left = refl;
          clock = record {
            tens = 5;
            min = refl;
            small = omega arith;
            hour = omega arith;
            sec = refl;
          };
        };
        frame = length-replicate 471 black_pixel;
        frame_no = refl;
        bound = omega arith;
      })
      sink_found refl
