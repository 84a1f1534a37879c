-- ===== src/SmallEffects.antt =====
-- The effects of src/effects/alltest.c and src/effects/1test.c, which light one pixel.
pub mod Lit
mod Tests
use c_client.Prelude.{ℕ, Bool, if◌then◌else◌, Option, none, some, List, store, fill, ◌>>=◌}
use c_client.Prelude.Int.{ℤ}
use c_client.Extension.{
  Pixel, rgb, white_pixel, black_pixel, PixelInfo, grid_width, grid_height, num_pixels,
}
use c_client.Pixel.{Grid, GridMemory, new_grid, paint}
use c_client.Opc.{Client, Kernel, opc_put_pixel_list}

abbrev pub dim_pixel : Pixel
dim_pixel = rgb 50 50 50

-- The layout, the memory of opc_put_pixel_list, the frame and the client.
module _ (k : Kernel) (sink : ℤ) (infos : List PixelInfo) (strips : GridMemory)
    (zeroed : Bool) where
  pub alltest_run : ℕ → List Pixel × Client → Option (List Pixel × Client)
  unfolding store fill
  alltest_run frame_no (frame, c) = fill dim_pixel num_pixels 0 frame >>= λ dimmed.
      store dimmed frame_no white_pixel >>= λ lit.
      opc_put_pixel_list k sink lit infos strips zeroed c >>= λ (_, c'). some (lit, c')

  pub test1_run : List Pixel × Client → Option (List Pixel × Client)
  unfolding store fill
  test1_run (frame, c) = fill dim_pixel num_pixels 0 frame >>= λ dimmed.
      store dimmed 0 white_pixel >>= λ lit.
      opc_put_pixel_list k sink lit infos strips zeroed c >>= λ (_, c'). some (lit, c')

-- The grid that both effects keep as their object and do not show.
black_grid : GridMemory → Option Grid
black_grid m =
    new_grid grid_width grid_height m >>= λ blank. paint grid_width 0 (λ x y. black_pixel) blank

-- The effect that malloc gives is written without a test, so NULL is a fault.
pub get_alltest_effect : Bool → GridMemory → Option Grid
unfolding black_grid
get_alltest_effect allocated m = if allocated then black_grid m else none

pub get_test1_effect : Bool → GridMemory → Option Grid
unfolding black_grid
get_test1_effect allocated m = if allocated then black_grid m else none
