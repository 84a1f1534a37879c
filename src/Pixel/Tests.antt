-- ===== src/Pixel/Tests.antt =====
-- The theorems on src/pixel.c at concrete grids and layouts.
use c_client.Prelude.{ℕ, ◌≡◌, refl, ◌↔◌, Option, some, List, [], ◌∷◌, arith, replicate, Returns}
use c_client.Prelude.Int.{pos, negsuc}
use c_client.Extension.{Pixel, white_pixel, black_pixel, grid_point}
use c_client.Samples.{blank_grid, blank_grid-IsGrid, layout}
use c_client.Pixel.{Grid, grid_new, get_pos, read_grid_to_list}
use c_client.Pixel.Access.{IsGrid}
use c_client.Pixel.Fill.{grid_new-IsGrid}
use c_client.Pixel.Positions.{LastAt, NoneAt, get_pos_lem}
use c_client.Pixel.ReadGrid.{Copied, read_grid_to_list-Copied}

get_pos_found : get_pos (pos 9) (pos 0) layout ≡ pos 1
unfolding get_pos
get_pos_found = refl

get_pos_missing : get_pos (pos 8) (pos 0) layout ≡ negsuc 0
unfolding get_pos
get_pos_missing = refl

get_pos_example :
    ((i : ℕ)
      → (get_pos (pos 9) (pos 0) layout ≡ pos i) ↔ LastAt layout (grid_point (pos 9) (pos 0)) i)
    × ((get_pos (pos 9) (pos 0) layout ≡ negsuc 0) ↔ NoneAt layout (grid_point (pos 9) (pos 0)))
get_pos_example = get_pos_lem (pos 9) (pos 0) layout

abbrev block : List Pixel
block = replicate 6 black_pixel

grid_new_example :
    Returns
      (λ (r : Option Grid). (g : Grid) × (r ≡ some g) × IsGrid 3 2 g × (g.cells ≡ block))
      (grid_new 3 2 (some (7 ∷ 8 ∷ 9 ∷ [])) (some block))
grid_new_example = grid_new-IsGrid 3 2 (7 ∷ 8 ∷ 9 ∷ []) block (omega arith) (omega arith) refl refl

read_grid_to_list_example :
    Returns
      (Copied (replicate 471 black_pixel) (blank_grid 53 24 white_pixel) layout)
      (read_grid_to_list (replicate 471 black_pixel) (blank_grid 53 24 white_pixel) layout)
read_grid_to_list_example =
    read_grid_to_list-Copied (replicate 471 black_pixel) (blank_grid 53 24 white_pixel) layout
      (blank_grid-IsGrid 53 24 white_pixel) (omega arith)
