-- ===== src/Scroller/Start.antt =====
-- `get_scroller_effect`: the map and the buffer that the effect starts with, and what it shows.
use native.Mathlib.Decide.{dec_lt}
use c_client.Prelude.{
  ℕ, ◌+◌, ◌-◌, ◌*◌, ◌%◌, ◌<◌, ◌≡◌, refl, ◌∙◌, Option, some, true, ltb, ◌&&◌, leb, if◌then◌else◌,
  lt→ltb, le→ltb, le→leb, gt→leb, arith, Returns, returns, Returns-bind, Returns-mono, for_grid-inv,
}
use c_client.Extension.{grid_width, grid_height, Pixel, rgb}
use c_client.Pixel.{Grid, GridMemory, grid_get}
use c_client.Pixel.Access.{IsGrid, grid_set-Written}
use c_client.Pixel.Fill.{Given, new_grid-IsGrid, Painted, paint-Painted}
use c_client.Scroller.{
  Buffer, Storage, purple, clear_buffer, shade, paint_buffer, get_scroller_effect,
}
use c_client.Scroller.Tape.{tape, tape-front, tape-behind, scroll, scroll-Window}

-- The buffer keeps its shape when it is cleared.
clear_buffer-IsGrid :
    (b : Buffer) (cols width : ℕ)
    → 0 < cols
    → IsGrid cols grid_height b.grid
    → Returns
        (λ c. IsGrid cols grid_height c.grid × (c.pos ≡ b.pos) × (c.width ≡ b.width))
        (clear_buffer b width)
unfolding clear_buffer
clear_buffer-IsGrid b cols width pos_ is =
    Returns-bind
      (for_grid-inv (λ x y g. IsGrid cols grid_height g) _ width 0 grid_height width (omega arith)
        (λ x y g _ _ hy q. Returns-mono (grid_set-Written q 0 y purple pos_ hy) λ h w. w.grid)
        (λ x g q. q) b.grid is)
      λ g q. returns (q, refl, refl)

-- The colour of a buffer's column: shaded from 60 to 84, and purple elsewhere.
unfoldable pub buffer_colour : ℕ → Pixel
buffer_colour x = if leb 60 x && ltb x 85 then rgb 255 0 (x * 6 % 256) else purple

pub record PaintedBuffer (g : Grid) : Type 0 where
  pub grid : IsGrid 100 grid_height g
  pub colours : (x y : ℕ) → x < 100 → y < grid_height → grid_get g x y ≡ some (buffer_colour x)

Painted-colours :
    (g g1 g2 g3 : Grid)
    → Painted 100 60 100 shade g g1
    → Painted 100 0 60 (λ x y. purple) g1 g2
    → Painted 100 85 100 (λ x y. purple) g2 g3
    → (x y : ℕ) → x < 100
    → y < grid_height
    → grid_get g3 x y ≡ some (buffer_colour x)
unfolding shade buffer_colour
Painted-colours g g1 g2 g3 p1 p2 p3 x y hx hy = elim (dec_lt x 60) [
  | yes front ↦
      p3.outside x y hx hy (omega arith)
      ∙ p2.inside x y (omega arith) front hy
      ∙ rw (gt→leb 60 x front)
  | no rest ↦ elim (dec_lt x 85) [
    | yes mid ↦
        p3.outside x y hx hy (omega arith)
        ∙ p2.outside x y hx hy (omega arith)
        ∙ p1.inside x y (omega arith) hx hy
        ∙ rw (le→leb 60 x (omega arith), lt→ltb x 85 mid)
    | no last ↦
        p3.inside x y (omega arith) hx hy
        ∙ rw (le→leb 60 x (omega arith), le→ltb x 85 (omega arith))
  ]
]

paint_buffer-PaintedBuffer :
    (g : Grid) → IsGrid 100 grid_height g → Returns PaintedBuffer (paint_buffer g)
unfolding paint_buffer
paint_buffer-PaintedBuffer g is =
    Returns-bind (paint-Painted 100 60 100 shade g 40 refl (omega arith) is) λ g1 p1.
      Returns-bind (paint-Painted 100 0 60 (λ x y. purple) g1 60 refl (omega arith) p1.grid)
        λ g2 p2.
          Returns-mono (paint-Painted 100 85 100 (λ x y. purple) g2 15 refl (omega arith) p2.grid)
            λ g3 p3. record { grid = p3.grid; colours = Painted-colours g g1 g2 g3 p1 p2 p3 }

-- What the effect starts with, if it could be made: a purple map, and at its start a buffer of 100
-- columns.
pub record Started (r : Option Storage) : Type 0 where
  pub storage : Storage
  pub made : r ≡ some storage
  pub map : IsGrid grid_width grid_height storage.pixel_grid
  pub map_colours :
      (x y : ℕ) → x < grid_width → y < grid_height → grid_get storage.pixel_grid x y ≡ some purple
  pub buffer : PaintedBuffer storage.buff.grid
  pub pos : storage.buff.pos ≡ 0
  pub width : storage.buff.width ≡ 100

-- When malloc gives all that is asked for, `get_scroller_effect` does not fault and starts so.
pub get_scroller_effect-Started :
    (m n : GridMemory)
    → Given 100 grid_height m
    → Given grid_width grid_height n
    → Returns Started (get_scroller_effect true true m n)
unfolding get_scroller_effect
get_scroller_effect-Started m n gm gn =
    Returns-bind
      (Returns-bind (new_grid-IsGrid 100 grid_height m (omega arith) (omega arith) gm)
        λ g is. fresh_buffer g is)
      λ b (buff, eb, is, ep, ew). rw eb (
        Returns-bind (clear_buffer-IsGrid buff 100 100 (omega arith) is) λ cleared (is', ep', ew').
          Returns-bind (paint_buffer-PaintedBuffer cleared.grid is') λ g pb.
            Returns-bind (new_grid-IsGrid grid_width grid_height n (omega arith) (omega arith) gn)
              λ blank isn.
                Returns-bind
                  (paint-Painted grid_width 0 grid_width (λ x y. purple) blank grid_width refl
                    (omega arith) isn)
                  λ map pm. returns (record {
                    storage = record { buff = record cleared { grid = g }; pixel_grid = map };
                    made = refl;
                    map = pm.grid;
                    map_colours = λ x y hx hy. pm.inside x y (omega arith) hx hy;
                    buffer = pb;
                    pos = ep' ∙ ep;
                    width = ew' ∙ ew;
                  }))
  where
    fresh_buffer :
        (g : Grid)
        → IsGrid 100 grid_height g
        → Returns
            (λ (r : Option Buffer).
              (b : Buffer) × (r ≡ some b)
              × IsGrid 100 grid_height b.grid
              × (b.pos ≡ 0)
              × (b.width ≡ 100))
            (some (some (record { grid = g; pos = 0; width = 100 })))
    fresh_buffer g is = returns (record { grid = g; pos = 0; width = 100 }, refl, is, refl, refl)

-- The colour of column `t` of the scene: purple for a map's width, and then the buffer's 100 columns
-- over and over.
pub scene : ℕ → Pixel
scene t = if ltb t grid_width then purple else buffer_colour ((t - grid_width) % 100)

Window-scene :
    (s : Storage)
    → ((x y : ℕ) → x < grid_width → y < grid_height → grid_get s.pixel_grid x y ≡ some purple)
    → PaintedBuffer s.buff.grid
    → s.buff.width ≡ 100
    → (t y : ℕ) → y < grid_height
    → tape s.pixel_grid s.buff t y ≡ some (scene t)
unfolding scene
Window-scene s purples pb ew t y hy = elim (dec_lt t grid_width) [
  | yes front ↦
      tape-front s.pixel_grid s.buff t y front
      ∙ purples t y front hy
      ∙ rw (lt→ltb t grid_width front)
  | no behind ↦
      tape-behind s.pixel_grid s.buff t y (omega arith)
      ∙ rw (ew, le→ltb t grid_width (omega arith))
          (pb.colours ((t - grid_width) % 100) y (omega arith) hy)
]

-- The storage's map, after `n` shifts.
abbrev pub ShowsScene : Storage → Type 0
ShowsScene s =
    (n : ℕ)
    → Returns
        (λ (result : Grid × Buffer).
          (x y : ℕ)
          → x < grid_width
          → y < grid_height
          → grid_get result.0 x y ≡ some (scene (n + x)))
        (scroll n s.pixel_grid s.buff)

Started-ShowsScene : {r : Option Storage} (st : Started r) → ShowsScene st.storage
Started-ShowsScene st n =
    Returns-mono
      (scroll-Window st.storage.pixel_grid st.storage.buff (rw st.width st.buffer.grid)
        (omega (arith, st.width)) n st.map st.pos)
      λ result w x y hx hy.
        w.shows x y hx hy ∙ Window-scene st.storage st.map_colours st.buffer st.width (n + x) y hy

-- When malloc gives all that is asked for, `get_scroller_effect` makes a storage from which any number
-- `n` of shifts leads without a fault to a map whose column `x` has the colour of the scene's column
-- `n + x` from top to bottom.
pub get_scroller_effect-ShowsScene :
    (m n : GridMemory)
    → Given 100 grid_height m
    → Given grid_width grid_height n
    → Returns
        (λ (r : Option Storage). (s : Storage) × (r ≡ some s) × ShowsScene s)
        (get_scroller_effect true true m n)
get_scroller_effect-ShowsScene m n gm gn =
    Returns-mono (get_scroller_effect-Started m n gm gn)
      λ r st. (st.storage, st.made, Started-ShowsScene st)
