-- ===== src/Scroller.antt =====
-- src/effects/scroller.c: a buffer of columns that scrolls across the map.
pub mod Shift
pub mod Tape
pub mod Start
pub mod Frame
mod Tests
use c_client.Prelude.{
  ℕ, zero, suc, ◌+◌, ◌-◌, ◌*◌, ◌/◌, ◌%◌, Bool, true, false, ◌&&◌, Option, some, none, List, [], ltb,
  ◌==◌, if◌then◌else◌, get_elem?, store, replicate, ◌>>=◌, for_range, for_grid,
}
use c_client.Prelude.Int.{ℤ}
use c_client.Extension.{grid_width, grid_height, Pixel, rgb, black_pixel, PixelInfo}
use c_client.Pixel.{Grid, GridMemory, new_grid, grid_get, grid_set, paint, read_grid_to_list}
use c_client.Opc.{Kernel, Client, opc_put_pixel_list}

-- `buffer_t`
pub record Buffer : Type 0 where
  pub grid : Grid
  pub pos : ℕ
  pub width : ℕ

-- `scroller_storage_t`
pub record Storage : Type 0 where
  pub buff : Buffer
  pub pixel_grid : Grid

abbrev pub purple : Pixel
purple = rgb 255 0 255

-- The inner option is the NULL of a failed malloc.
pub buffer_new : ℕ → Bool → GridMemory → Option (Option Buffer)
buffer_new cols false m = some none
buffer_new cols true m =
    new_grid cols grid_height m >>= λ g. some (some (record { grid = g; pos = 0; width = cols }))

-- Column 0 is written in every round, whatever `x` is.
pub clear_buffer : Buffer → ℕ → Option Buffer
clear_buffer b width = for_grid width 0 grid_height (λ x y g. grid_set g 0 y purple) b.grid >>= λ g.
    some (record b { grid = g })

-- `left_col` is written whole before it is read.
save_left : Grid → Option (List Pixel)
save_left g =
    for_range grid_height 0 (λ y left_col. grid_get g 0 y >>= store left_col y)
      (replicate grid_height black_pixel)

shift_left : Grid → Option Grid
shift_left g =
    for_grid (grid_width - 1) 0 grid_height (λ x y h. grid_get h (x + 1) y >>= grid_set h x y) g

fill_right : List Pixel → Buffer → Grid → Option Grid
fill_right left_col buff g =
    for_range grid_height 0
      (λ y h.
        (if ltb buff.pos buff.width then grid_get buff.grid buff.pos y else get_elem? left_col y)
        >>= grid_set h (grid_width - 1) y)
      g

-- The two tests at the end of `shift_columns`, the second on what the first leaves.
pub next_pos : ℕ → ℕ → ℕ
next_pos pos width =
    let p = pos + 1 in
    let q = if (p == width) && ltb grid_width width then 0 else p in
    if (q == grid_width) && ltb width grid_width then 0 else q

pub shift_columns : Grid → Buffer → Option (Grid × Buffer)
unfolding save_left shift_left fill_right next_pos
shift_columns pixel_grid buff = save_left pixel_grid >>= λ left_col.
    shift_left pixel_grid >>= λ shifted. fill_right left_col buff shifted >>= λ filled.
    some (filled, record buff { pos = next_pos buff.pos buff.width })

-- What a frame of the effect leaves: the runner's pixels, the storage and the network. `strips` is
-- the memory that malloc gives `opc_put_pixel_list`, which `zeroed` says got its list from calloc.
pub scroller_run :
    Kernel
    → ℤ
    → List PixelInfo
    → GridMemory
    → Bool
    → List Pixel × Storage × Client
    → Option (List Pixel × Storage × Client)
scroller_run k sink pixel_info strips zeroed (frame, storage, client) =
    read_grid_to_list frame storage.pixel_grid pixel_info >>= λ pixels.
    opc_put_pixel_list k sink pixels pixel_info strips zeroed client >>= λ (_, client').
    shift_columns storage.pixel_grid storage.buff >>= λ (g, b).
    some (pixels, record { buff = b; pixel_grid = g }, client')

-- The columns of the buffer as `get_scroller_effect` paints them: shaded ones, the background, and
-- the background once more over the last of the shaded ones.
shade : ℕ → ℕ → Pixel
shade x y = rgb 255 0 (x * (255 / (100 - 60)) % 256)

paint_buffer : Grid → Option Grid
unfolding shade
paint_buffer g = paint 40 60 shade g >>= λ shaded.
    paint 60 0 (λ x y. purple) shaded >>= λ behind. paint 15 85 (λ x y. purple) behind

-- `effect_ok` and `buffer_ok` say whether malloc gave the two structures. A NULL buffer is
-- dereferenced at once.
pub get_scroller_effect : Bool → Bool → GridMemory → GridMemory → Option (Option Storage)
unfolding buffer_new clear_buffer paint_buffer
get_scroller_effect false buffer_ok m n = some none
get_scroller_effect true buffer_ok m n = buffer_new 100 buffer_ok m >>= λ b. b >>= λ buff.
    clear_buffer buff 100 >>= λ cleared. paint_buffer cleared.grid >>= λ g.
    new_grid grid_width grid_height n >>= λ blank.
    paint grid_width 0 (λ x y. purple) blank >>= λ pixel_grid.
    some (some (record { buff = record cleared { grid = g }; pixel_grid = pixel_grid }))
