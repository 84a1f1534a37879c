-- ===== src/Scroller/Shift.antt =====
-- `shift_columns` moves every column one to the left.
use c_client.Prelude.{
  ℕ, ◌+◌, ◌-◌, ◌<◌, ◌≤◌, ◌≡◌, refl, ◌∙◌, ◌⊎◌, inl, inr, Option, some, List, ltb, lt→ltb, Bool-cases,
  if◌then◌else◌, arith, length, length-replicate, get_elem?, Stored, store-Stored, Returns, returns,
  Returns-bind, Returns-mono, for_range-inv, for_grid-inv,
}
use c_client.Extension.{grid_width, grid_height, Pixel, black_pixel}
use c_client.Pixel.{Grid, grid_get}
use c_client.Pixel.Access.{IsGrid, Written, grid_get-some, grid_set-Written}
use c_client.Scroller.{Buffer, save_left, shift_left, fill_right, next_pos, shift_columns}

-- the rows of the leftmost column that are saved
record Saved (g : Grid) (y : ℕ) (col : List Pixel) : Type 0 where
  size : length col ≡ grid_height
  rows : (z : ℕ) → z < y → get_elem? col z ≡ grid_get g 0 z

-- The colour that comes in at the right edge.
pub incoming : Grid → Buffer → ℕ → Option Pixel
incoming g b y = if ltb b.pos b.width then grid_get b.grid b.pos y else grid_get g 0 y

pub incoming-inside :
    (g : Grid) (b : Buffer) (y : ℕ) → b.pos < b.width → incoming g b y ≡ grid_get b.grid b.pos y
unfolding incoming
incoming-inside g b y lt = rw (lt→ltb b.pos b.width lt)

-- Every column has moved one to the left, and the last one has come from the buffer at its
-- position, or is the first one when the position is past the buffer's end.
pub record Shifted (g : Grid) (b : Buffer) (result : Grid × Buffer) : Type 0 where
  pub grid : IsGrid grid_width grid_height result.0
  pub moved :
      (x y : ℕ)
      → x < grid_width - 1
      → y < grid_height
      → grid_get result.0 x y ≡ grid_get g (x + 1) y
  pub right : (y : ℕ) → y < grid_height → grid_get result.0 (grid_width - 1) y ≡ incoming g b y
  pub buffer : result.1 ≡ record b { pos = next_pos b.pos b.width }

module _ (g : Grid) (is : IsGrid grid_width grid_height g) where
  Stored-Saved :
      (y : ℕ) (p : Pixel) (col col' : List Pixel)
      → grid_get g 0 y ≡ some p
      → Saved g y col
      → Stored col y p col'
      → Saved g (y + 1) col'
  Stored-Saved y p col col' e s st = record {
    size = st.size ∙ s.size;
    rows = λ z lt. grind (arith, st.here, st.elsewhere z, s.rows z);
  }

  save_left-Saved : Returns (Saved g grid_height) (save_left g)
  unfolding save_left
  save_left-Saved =
      for_range-inv (Saved g) _ grid_height 0 grid_height refl
        (λ y col _ lt s.
          let (p, e) = grid_get-some is 0 y (omega arith) lt in
          rw e (
            Returns-mono (store-Stored col y p (omega (arith, s.size)))
              λ col' st. Stored-Saved y p col col' e s st))
        _
        (record {
          size = length-replicate grid_height black_pixel;
          rows = λ z lt. absurd (omega arith);
        })

  -- the cells before column `x`, row `y` in the order of the loops are shifted
  record Shifting (x y : ℕ) (h : Grid) : Type 0 where
    grid : IsGrid grid_width grid_height h
    done :
        (x' y' : ℕ)
        → x' < grid_width - 1
        → y' < grid_height
        → (x' < x) ⊎ ((x' ≡ x) × (y' < y))
        → grid_get h x' y' ≡ grid_get g (x' + 1) y'
    rest :
        (x' y' : ℕ)
        → x' < grid_width
        → y' < grid_height
        → (x < x') ⊎ ((x' ≡ x) × (y ≤ y'))
        → grid_get h x' y' ≡ grid_get g x' y'

  Written-Shifting :
      (x y : ℕ) (p : Pixel) (h k : Grid)
      → x < grid_width - 1
      → y < grid_height
      → grid_get h (x + 1) y ≡ some p
      → Shifting x y h
      → Written grid_width grid_height h x y p k
      → Shifting x (y + 1) k
  Written-Shifting x y p h k hx hy e s w = record {
    grid = w.grid;
    done = λ x' y' a b d.
        let from : grid_get h (x + 1) y ≡ grid_get g (x + 1) y =
          s.rest (x + 1) y (omega arith) hy (omega arith) in
        grind (arith, w.here, w.elsewhere x' y' (omega arith) b, s.done x' y' a b);
    rest = λ x' y' a b d. w.elsewhere x' y' a b (omega arith) ∙ s.rest x' y' a b (omega arith);
  }

  shift_left-Shifting : Returns (Shifting (grid_width - 1) 0) (shift_left g)
  unfolding shift_left
  shift_left-Shifting =
      for_grid-inv Shifting _ (grid_width - 1) 0 grid_height (grid_width - 1) refl
        (λ x y h _ hx hy s.
          let (p, e) = grid_get-some s.grid (x + 1) y (omega arith) hy in
          rw e (
            Returns-mono (grid_set-Written s.grid x y p (omega arith) hy)
              λ k w. Written-Shifting x y p h k hx hy e s w))
        (λ x h s. record {
          grid = s.grid;
          done = λ x' y' a b d. s.done x' y' a b (omega arith);
          rest = λ x' y' a b d. s.rest x' y' a b (omega arith);
        })
        g
        (record {
          grid = is;
          done = λ x' y' a b d. absurd (omega arith);
          rest = λ x' y' a b d. refl;
        })

  -- the rows of the last column that are filled
  record Filling (b : Buffer) (y : ℕ) (h : Grid) : Type 0 where
    grid : IsGrid grid_width grid_height h
    moved :
        (x' y' : ℕ)
        → x' < grid_width - 1
        → y' < grid_height
        → grid_get h x' y' ≡ grid_get g (x' + 1) y'
    right : (z : ℕ) → z < y → z < grid_height → grid_get h (grid_width - 1) z ≡ incoming g b z

  module _ (b : Buffer) (isb : IsGrid b.width grid_height b.grid) where
    incoming-some : (y : ℕ) → y < grid_height → (p : Pixel) × (incoming g b y ≡ some p)
    unfolding incoming
    incoming-some y hy = elim (Bool-cases (ltb b.pos b.width)) [
      | inl inside ↦ rw inside (grid_get-some isb b.pos y (ground arith) hy)
      | inr past ↦ rw past (grid_get-some is 0 y (omega arith) hy)
    ]

    incoming-column :
        (col : List Pixel) (y : ℕ)
        → y < grid_height
        → Saved g grid_height col
        → (if ltb b.pos b.width then grid_get b.grid b.pos y else get_elem? col y) ≡ incoming g b y
    unfolding incoming
    incoming-column col y hy s = elim (Bool-cases (ltb b.pos b.width)) [
      | inl inside ↦ rw inside
      | inr past ↦ rw past (s.rows y hy)
    ]

    Written-Filling :
        (y : ℕ) (p : Pixel) (h k : Grid)
        → y < grid_height
        → incoming g b y ≡ some p
        → Filling b y h
        → Written grid_width grid_height h (grid_width - 1) y p k
        → Filling b (y + 1) k
    Written-Filling y p h k hy e f w = record {
      grid = w.grid;
      moved = λ x' y' a c. w.elsewhere x' y' (omega arith) c (omega arith) ∙ f.moved x' y' a c;
      right = λ z lt hz. grind (arith, w.here, w.elsewhere (grid_width - 1) z, f.right z);
    }

    fill_right-Filling :
        (col : List Pixel) (h : Grid)
        → Saved g grid_height col
        → Shifting (grid_width - 1) 0 h
        → Returns (Filling b grid_height) (fill_right col b h)
    unfolding fill_right
    fill_right-Filling col h s sh =
        for_range-inv (Filling b) _ grid_height 0 grid_height refl
          (λ y m _ hy f.
            let (p, e) = incoming-some y hy in
            rw (incoming-column col y hy s, e)
              (Returns-mono (grid_set-Written f.grid (grid_width - 1) y p (omega arith) hy)
                λ k w. Written-Filling y p m k hy e f w))
          h
          (record {
            grid = sh.grid;
            moved = λ x' y' a c. sh.done x' y' a c (omega arith);
            right = λ z lt hz. absurd (omega arith);
          })

    -- On a whole map and a whole buffer, `shift_columns` does not fault, and shifts.
    pub shift_columns-Shifted : Returns (Shifted g b) (shift_columns g b)
    unfolding shift_columns
    shift_columns-Shifted = Returns-bind save_left-Saved λ col s.
        Returns-bind shift_left-Shifting λ h sh. Returns-bind (fill_right-Filling col h s sh) λ k f.
          returns (record {
            grid = f.grid;
            moved = f.moved;
            right = λ y hy. f.right y hy hy;
            buffer = refl;
          })
