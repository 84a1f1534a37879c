-- ===== src/Image.antt =====
-- The effect of src/effects/image.c: a picture on the grid of the map.
pub mod White
mod Tests
use c_client.Prelude.{ℕ, Bool, true, false, Option, none, some, List, ◌>>=◌, if◌then◌else◌}
use c_client.Prelude.Int.{ℤ}
use c_client.Extension.{Pixel, white_pixel, PixelInfo, grid_width, grid_height, num_pixels}
use c_client.Pixel.{Grid, GridMemory, new_grid, paint, read_grid_to_list}
use c_client.Opc.{Client, Kernel, opc_put_pixels}

-- The frame that `image_run` leaves, and the client.
unfoldable pub image_run :
    Kernel → ℤ → List PixelInfo → Grid → List Pixel × Client → Option (List Pixel × Client)
image_run k sink infos pixel_grid (frame, c) =
    read_grid_to_list frame pixel_grid infos >>= λ pixels.
    opc_put_pixels k sink 0 num_pixels pixels c >>= λ (_, c'). some (pixels, c')

-- Whether calloc gives the effect, and what malloc gives for its grid; `some none` for NULL.
pub get_image_effect : Bool → GridMemory → Option (Option Grid)
get_image_effect allocated map =
    if allocated
    then (new_grid grid_width grid_height map >>= λ blank.
        paint grid_width 0 (λ x y. white_pixel) blank >>= λ pixel_grid. some (some pixel_grid))
    else some none
