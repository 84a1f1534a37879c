-- ===== src/Scroller/Tests.antt =====
-- The theorems on src/effects/scroller.c at concrete grids.
use c_client.Prelude.{◌≡◌, refl, true, Option, some, arith, Returns, replicate}
use c_client.Extension.{rgb, white_pixel, black_pixel}
use c_client.Samples.{
  blank_grid, blank_grid-IsGrid, memory, memory-Given, layout, layout-AllWired, slow_network,
  shut_sink, fresh_client,
}
use c_client.Opc.{find_sink}
use c_client.Prelude.Int.{pos}
use c_client.Scroller.Frame.{State, IsReady, Frame, scroller_run-Frame}
use c_client.Scroller.{Buffer, Storage, shift_columns, scroller_run, get_scroller_effect}
use c_client.Scroller.Shift.{Shifted, shift_columns-Shifted}
use c_client.Scroller.Tape.{Window, scroll, scroll-Window}
use c_client.Scroller.Start.{ShowsScene, get_scroller_effect-ShowsScene, buffer_colour}

abbrev white_buffer : Buffer
white_buffer = record { grid = blank_grid 60 24 white_pixel; pos = 0; width = 60 }

shaded_column : buffer_colour 70 ≡ rgb 255 0 164
unfolding buffer_colour
shaded_column = refl

shift_columns_example :
    Returns
      (Shifted (blank_grid 53 24 black_pixel) white_buffer)
      (shift_columns (blank_grid 53 24 black_pixel) white_buffer)
shift_columns_example =
    shift_columns-Shifted (blank_grid 53 24 black_pixel) (blank_grid-IsGrid 53 24 black_pixel)
      white_buffer (blank_grid-IsGrid 60 24 white_pixel)

scroll_example :
    Returns
      (Window (blank_grid 53 24 black_pixel) white_buffer 1000)
      (scroll 1000 (blank_grid 53 24 black_pixel) white_buffer)
scroll_example =
    scroll-Window (blank_grid 53 24 black_pixel) white_buffer (blank_grid-IsGrid 60 24 white_pixel)
      (omega arith) 1000 (blank_grid-IsGrid 53 24 black_pixel) refl

get_scroller_effect_example :
    Returns
      (λ (r : Option Storage). (s : Storage) × (r ≡ some s) × ShowsScene s)
      (get_scroller_effect true true (memory 100 24) (memory 53 24))
get_scroller_effect_example =
    get_scroller_effect-ShowsScene (memory 100 24) (memory 53 24) (memory-Given 100 24)
      (memory-Given 53 24)

abbrev first_state : State
first_state = (
  replicate 471 black_pixel,
  record { buff = white_buffer; pixel_grid = blank_grid 53 24 black_pixel },
  fresh_client,
)

ready : IsReady (pos 0) 0 layout first_state
unfolding find_sink
ready = record {
  map = blank_grid-IsGrid 53 24 black_pixel;
  buffer = blank_grid-IsGrid 60 24 white_pixel;
  room = omega arith;
  found = refl;
  entry = (shut_sink, refl);
}

scroller_run_example :
    Returns
      (Frame (pos 0) 0 layout slow_network first_state)
      (scroller_run slow_network (pos 0) layout (memory 8 64) true first_state)
scroller_run_example =
    scroller_run-Frame (pos 0) 0 layout slow_network (memory 8 64) first_state layout-AllWired
      (memory-Given 8 64) ready
