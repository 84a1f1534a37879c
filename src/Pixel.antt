-- ===== src/Pixel.antt =====
-- src/pixel.c: the two-dimensional grids, the search of a grid point among the pixels, and the
-- copy of a grid to the pixels' list. A fault (`none`) is an access out of bounds.
pub mod Access
pub mod Fill
pub mod Positions
pub mod ReadGrid
mod Tests
use c_client.Prelude.{
  ℕ, zero, suc, ◌+◌, ◌*◌, ◌%◌, Bool, ◌&&◌, Option, none, some, List, [], ◌∷◌, ltb, if◌then◌else◌,
  get_elem?, store, ◌>>=◌, for_grid,
}
use c_client.Prelude.Int.{ℤ, pos, negsuc, eq_ℤ}
use c_client.LinkedList.{enum_values}
use c_client.Extension.{grid_width, grid_height, Pixel, GridPoint, grid_point, PixelInfo}

-- `opc_pixel_t **`: `columns` are the pointers matrix[x], each an offset into the one block `cells`
-- that matrix[0] points to.
pub record Grid : Type 0 where
  pub columns : List ℕ
  pub cells : List Pixel

-- matrix[x][y]
pub grid_get : Grid → ℕ → ℕ → Option Pixel
grid_get g x y = get_elem? g.columns x >>= λ start. get_elem? g.cells (start + y)

-- matrix[x][y] = v
pub grid_set : Grid → ℕ → ℕ → Pixel → Option Grid
grid_set g x y v = get_elem? g.columns x >>= λ start.
    store g.cells (start + y) v >>= λ cells. some (record g { cells = cells })

-- The loop of `grid_new` over the `uint8_t` counter i, on fuel: above 255 columns the counter
-- wraps below the bound for ever, and no fuel is enough.
set_columns : ℕ → ℕ → ℕ → ℕ → List ℕ → Option (List ℕ)
set_columns zero cols rows i matrix = none
set_columns (suc fuel) cols rows i matrix =
    let next = store matrix i (i * rows) >>= set_columns fuel cols rows ((i + 1) % 256) in
    if ltb i cols then next else some matrix

-- `matrix` and `block` are what the two calls of malloc return: NULL, or memory of the size asked
-- for with arbitrary contents. The inner option is the NULL that `grid_new` returns.
pub grid_new : ℕ → ℕ → Option (List ℕ) → Option (List Pixel) → Option (Option Grid)
unfolding set_columns
grid_new cols rows none block = some none
grid_new cols rows (some matrix) none = store matrix 0 0 >>= λ _. some none
grid_new cols rows (some matrix) (some block) = store matrix 0 0 >>= λ first.
    set_columns 256 cols rows 1 first >>= λ columns.
    some (some (record { columns = columns; cells = block }))

-- A NULL grid has no columns: each access through it faults.
abbrev pub null_grid : Grid
null_grid = record { columns = []; cells = [] }

-- What malloc returned for a grid: its two blocks, or NULL.
pub record GridMemory : Type 0 where
  pub matrix : Option (List ℕ)
  pub block : Option (List Pixel)

pub new_grid : ℕ → ℕ → GridMemory → Option Grid
new_grid cols rows m =
    grid_new cols rows m.matrix m.block >>= λ g. elim g [ none ↦ some null_grid | some g ↦ some g ]

-- The nested loops by which the effects paint columns `i` to `i + n - 1` of a grid.
pub paint : ℕ → ℕ → (ℕ → ℕ → Pixel) → Grid → Option Grid
paint n i colour = for_grid n i grid_height (λ x y g. grid_set g x y (colour x y))

-- `search_pair_t`, and the `grid` of its key.
pub record SearchPair : Type 0 where
  pub ret : ℤ
  pub cnt : ℕ
  pub key : GridPoint

pub same_point : GridPoint → GridPoint → Bool
same_point p q = eq_ℤ p.x q.x && eq_ℤ p.y q.y

pub get_pos_enum : PixelInfo → SearchPair → SearchPair
unfolding same_point
get_pos_enum info sp = record sp {
  ret = if same_point info.grid sp.key then pos sp.cnt else sp.ret;
  cnt = sp.cnt + 1;
}

pub get_pos : ℤ → ℤ → List PixelInfo → ℤ
unfolding enum_values get_pos_enum
get_pos x y pixel_info =
    (enum_values pixel_info get_pos_enum
      (record { ret = negsuc 0; cnt = 0; key = grid_point x y })).ret

-- The body of the loops of `read_grid_to_list`.
read_cell : Grid → List PixelInfo → ℕ → ℕ → List Pixel → Option (List Pixel)
read_cell grid pixel_info x y pixel_list = elim (get_pos (pos x) (pos y) pixel_info) [
  | pos i ↦ grid_get grid x y >>= store pixel_list i
  | negsuc _ ↦ some pixel_list
]

pub read_grid_to_list : List Pixel → Grid → List PixelInfo → Option (List Pixel)
unfolding read_cell
read_grid_to_list pixel_list grid pixel_info =
    for_grid grid_width 0 grid_height (read_cell grid pixel_info) pixel_list
