-- ===== src/SmallEffects/Lit.antt =====
-- What a frame of `alltest_run` is.
use c_client.Prelude.{
  Bool, arith, ◌∙◌, ℕ, ◌<◌, ◌≤◌, ◌≡◌, refl, none, some, List, length, length-replicate, length-set,
  replicate, set, get_elem?, store, fill_lem, lt→ltb, le→ltb, Returns, Returns-bind, Returns-mono,
  returns, ◌>>=◌, true,
}
use c_client.Prelude.Int.{ℤ}
use c_client.Extension.{
  Pixel, white_pixel, black_pixel, grid_width, grid_height, PixelInfo, num_strips, max_strip_size,
}
use c_client.Pixel.{Grid, GridMemory, grid_get}
use c_client.Pixel.Access.{IsGrid}
use c_client.Pixel.Fill.{Given, new_grid-IsGrid, paint-Painted}
use c_client.Opc.{SinkInfo, Client, Kernel, find_sink, opc_put_pixel_list}
use c_client.Opc.Strips.Sizes.{AllWired}
use c_client.Opc.Strips.Organise.{Organised}
use c_client.Opc.Message.{Put, opc_put_pixel_list-Put}
use c_client.SmallEffects.{
  dim_pixel, alltest_run, test1_run, black_grid, get_alltest_effect, get_test1_effect,
}

-- All pixels are dim but the one.
abbrev pub lit_at : ℕ → List Pixel
lit_at n = set (replicate 471 dim_pixel) n white_pixel

pub length-lit_at : (n : ℕ) → length (lit_at n) ≡ 471
length-lit_at n =
    length-set (replicate 471 dim_pixel) n white_pixel ∙ length-replicate 471 dim_pixel

store-dimmed : (n : ℕ) → n < 471 → store (replicate 471 dim_pixel) n white_pixel ≡ some (lit_at n)
unfolding store
store-dimmed n h = rw (length-replicate 471 dim_pixel, lt→ltb n 471 h)

store-outside : (n : ℕ) → 471 ≤ n → store (replicate 471 dim_pixel) n white_pixel ≡ none
unfolding store
store-outside n h = rw (length-replicate 471 dim_pixel, le→ltb n 471 h)

module _ (k : Kernel) (sink : ℤ) (infos : List PixelInfo) (strips : GridMemory) where
  -- What a run leaves that lights pixel `n`: the frame, whose organised list was sent as
  -- `opc_put_pixels` sends it on channel 0.
  pub record Shown (i : ℕ) (info : SinkInfo) (n : ℕ) (c : Client) (result : List Pixel × Client)
      : Type 0 where
    pub frame : result.0 ≡ lit_at n
    pub out : List Pixel
    pub organised : Organised (lit_at n) infos out
    pub sent : Bool
    pub put : Put k sink i info 0 471 out c (sent, result.1)

  show :
      (i : ℕ) (info : SinkInfo) (n : ℕ) (c : Client)
      → find_sink sink c ≡ some i
      → get_elem? c.sinks i ≡ some info
      → AllWired infos
      → length infos ≤ 471
      → Given num_strips max_strip_size strips
      → Returns (Shown i info n c) (
          opc_put_pixel_list k sink (lit_at n) infos strips true c >>= λ (_, c').
          some (lit_at n, c'))
  show i info n c found entry wired fits given =
      Returns-bind
        (opc_put_pixel_list-Put k sink i info (lit_at n) infos strips c found entry wired
          (omega (arith, fits, length-lit_at n)) given)
        λ result (zero, out, o, sent, p).
          returns (record { frame = refl; out = out; organised = o; sent = sent; put = p })

  module _ (i : ℕ) (info : SinkInfo) (frame : List Pixel) (c : Client) where
    -- On a whole frame, with the layout wired, memory for `opc_put_pixel_list` and a sink that
    -- exists, frame `n` of `alltest_run` for n < 471 lights pixel `n` alone and shows it.
    pub alltest_run-Shown :
        (n : ℕ)
        → n < 471
        → length frame ≡ 471
        → find_sink sink c ≡ some i
        → get_elem? c.sinks i ≡ some info
        → AllWired infos
        → length infos ≤ 471
        → Given num_strips max_strip_size strips
        → Returns (Shown i info n c) (alltest_run k sink infos strips true n (frame, c))
    unfolding alltest_run
    alltest_run-Shown n small size found entry wired fits given =
        rw (fill_lem dim_pixel 471 frame size, store-dimmed n small)
          (show i info n c found entry wired fits given)

    -- On a whole frame, with the layout wired, memory for `opc_put_pixel_list` and a sink that
    -- exists, `test1_run` lights pixel 0 alone and shows it.
    pub test1_run-Shown :
        length frame ≡ 471
        → find_sink sink c ≡ some i
        → get_elem? c.sinks i ≡ some info
        → AllWired infos
        → length infos ≤ 471
        → Given num_strips max_strip_size strips
        → Returns (Shown i info 0 c) (test1_run k sink infos strips true (frame, c))
    unfolding test1_run
    test1_run-Shown size found entry wired fits given =
        rw (fill_lem dim_pixel 471 frame size) (show i info 0 c found entry wired fits given)

  -- On a whole frame, from frame number 471 on, `alltest_run` writes outside of the frame.
  pub alltest_run-fault :
      (n : ℕ) (frame : List Pixel) (c : Client) (zeroed : Bool)
      → 471 ≤ n
      → length frame ≡ 471
      → alltest_run k sink infos strips zeroed n (frame, c) ≡ none
  unfolding alltest_run
  alltest_run-fault n frame c zeroed large size =
      rw (fill_lem dim_pixel 471 frame size, store-outside n large)

-- A grid of the map's size, all black.
pub record Black (g : Grid) : Type 0 where
  pub grid : IsGrid grid_width grid_height g
  pub black : (x y : ℕ) → x < grid_width → y < grid_height → grid_get g x y ≡ some black_pixel

black_grid-Black : (m : GridMemory) → Given grid_width grid_height m → Returns Black (black_grid m)
unfolding black_grid
black_grid-Black m given =
    Returns-bind (new_grid-IsGrid grid_width grid_height m (omega arith) (omega arith) given)
      λ blank is.
        Returns-mono
          (paint-Painted grid_width 0 grid_width (λ x y. black_pixel) blank grid_width refl
            (omega arith) is)
          λ g painted. record {
            grid = painted.grid;
            black = λ x y hx hy. painted.inside x y (omega arith) hx hy;
          }

-- With memory for the effect and its grid, both constructors make a black grid.
pub constructors-Black :
    (m : GridMemory)
    → Given grid_width grid_height m
    → Returns Black (get_alltest_effect true m) × Returns Black (get_test1_effect true m)
unfolding get_alltest_effect get_test1_effect
constructors-Black m given = (black_grid-Black m given, black_grid-Black m given)
