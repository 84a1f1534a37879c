-- ===== src/Image/Tests.antt =====
-- The theorem on src/effects/image.c on three pixels of the layout.
use c_client.Prelude.{◌≡◌, refl, true, some, arith, length-replicate, replicate, Returns}
use c_client.Prelude.Int.{pos}
use c_client.Extension.{black_pixel, grid_width, grid_height}
use c_client.Pixel.{Grid}
use c_client.Opc.{find_sink}
use c_client.Samples.{memory, memory-Given, layout, slow_network, shut_sink, fresh_client}
use c_client.Image.{image_run, get_image_effect}
use c_client.Image.White.{Shown, get_image_effect-Shown}

sink_found : find_sink (pos 0) fresh_client ≡ some 0
unfolding find_sink
sink_found = refl

get_image_effect-Shown_example :
    Returns
      (λ made.
        (map : Grid) × (made ≡ some map)
        × Returns
            (Shown layout slow_network (pos 0) 0 shut_sink (replicate 471 black_pixel) fresh_client)
            (image_run slow_network (pos 0) layout map (replicate 471 black_pixel, fresh_client)))
      (get_image_effect true (memory grid_width grid_height))
get_image_effect-Shown_example =
    get_image_effect-Shown layout slow_network (pos 0) 0 shut_sink (replicate 471 black_pixel)
      fresh_client (memory grid_width grid_height) (memory-Given grid_width grid_height)
      (length-replicate 471 black_pixel) (omega arith) sink_found refl
