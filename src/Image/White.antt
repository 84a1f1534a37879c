-- ===== src/Image/White.antt =====
-- The picture that the image effect starts with is white.
use c_client.Prelude.{
  ℕ, ◌<◌, ◌≤◌, ◌≡◌, refl, ◌∙◌, Bool, true, some, List, arith, length, get_elem?, Returns, returns,
  Returns-bind, Returns-mono,
}
use c_client.Prelude.Int.{ℤ, pos}
use c_client.Extension.{Pixel, white_pixel, PixelInfo, grid_width, grid_height}
use c_client.Pixel.{Grid, GridMemory, grid_get, get_pos}
use c_client.Pixel.Access.{IsGrid}
use c_client.Pixel.Fill.{Given, new_grid-IsGrid, paint-Painted}
use c_client.Pixel.ReadGrid.{read_grid_to_list-Copied}
use c_client.Opc.{SinkInfo, Client, Kernel, find_sink}
use c_client.Opc.Message.{Put, opc_put_pixels-Put}
use c_client.Image.{image_run, get_image_effect}

-- A whole map, all white.
pub record White (map : Grid) : Type 0 where
  pub grid : IsGrid grid_width grid_height map
  pub white : (x y : ℕ) → x < grid_width → y < grid_height → grid_get map x y ≡ some white_pixel

pub get_image_effect-White :
    (m : GridMemory)
    → Given grid_width grid_height m
    → Returns (λ made. (map : Grid) × (made ≡ some map) × White map) (get_image_effect true m)
unfolding get_image_effect
get_image_effect-White m given =
    Returns-bind (new_grid-IsGrid grid_width grid_height m (omega arith) (omega arith) given)
      λ blank is.
        Returns-bind
          (paint-Painted grid_width 0 grid_width (λ x y. white_pixel) blank grid_width refl
            (omega arith) is)
          λ map painted. returns (
            map,
            refl,
            record {
              grid = painted.grid;
              white = λ x y hx hy. painted.inside x y (omega arith) hx hy;
            },
          )

module _ (infos : List PixelInfo) (k : Kernel) (sink : ℤ) (i : ℕ) (info : SinkInfo)
    (frame : List Pixel) (c : Client) where
  -- The frame is white wherever the map has a pixel of the layout, the rest is as before, and it was
  -- sent as `opc_put_pixels` sends it.
  pub record Shown (result : List Pixel × Client) : Type 0 where
    pub white :
        (x y n : ℕ)
        → x < grid_width
        → y < grid_height
        → get_pos (pos x) (pos y) infos ≡ pos n
        → get_elem? result.0 n ≡ some white_pixel
    pub size : length result.0 ≡ 471
    pub sent : (done : Bool) × Put k sink i info 0 471 result.0 c (done, result.1)

  show :
      (map : Grid)
      → IsGrid grid_width grid_height map
      → ((x y : ℕ) → x < grid_width → y < grid_height → grid_get map x y ≡ some white_pixel)
      → length frame ≡ 471
      → length infos ≤ 471
      → find_sink sink c ≡ some i
      → get_elem? c.sinks i ≡ some info
      → Returns Shown (image_run k sink infos map (frame, c))
  unfolding image_run
  show map is white size fits found entry =
      Returns-bind (read_grid_to_list-Copied frame map infos is (omega (arith, size, fits)))
        λ pixels copied.
          Returns-bind
            (opc_put_pixels-Put k sink i info 0 471 pixels c found entry
              (omega (arith, size, copied.size)))
            λ (done, c') put. returns (record {
              white = λ x y n hx hy at. copied.copied x y n hx hy at ∙ white x y hx hy;
              size = copied.size ∙ size;
              sent = (done, put);
            })

  -- With memory for the effect and its grid, a whole frame, a layout of at most 471 pixels and a sink
  -- that exists, `get_image_effect` makes an effect whose frames do not fault: each shows white at
  -- every position that `get_pos` finds for a point of the map, and is sent as `opc_put_pixels` sends
  -- it on channel 0, in the order of the runner's frame and not in that of the strips.
  pub get_image_effect-Shown :
      (m : GridMemory)
      → Given grid_width grid_height m
      → length frame ≡ 471
      → length infos ≤ 471
      → find_sink sink c ≡ some i
      → get_elem? c.sinks i ≡ some info
      → Returns
          (λ made.
            (map : Grid) × (made ≡ some map)
            × Returns Shown (image_run k sink infos map (frame, c)))
          (get_image_effect true m)
  get_image_effect-Shown m given size fits found entry =
      Returns-mono (get_image_effect-White m given) λ made (map, is_made, white).
        (map, is_made, show map white.grid white.white size fits found entry)
