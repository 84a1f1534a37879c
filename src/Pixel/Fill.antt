-- ===== src/Pixel/Fill.antt =====
-- `grid_new` lays the columns out in one block, and the painting loops set a range of columns.
use native.Mathlib.Decide.{dec_lt}
use c_client.Prelude.{
  ℕ, zero, suc, ◌+◌, ◌*◌, ◌%◌, ◌<◌, ◌≤◌, ◌≡◌, refl, ◌∙◌, ◌⊎◌, inl, inr, Option, some, List, arith,
  length, get_elem?, Stored, store-Stored, Returns, returns, Returns-bind, Returns-mono, ltb,
  Bool-cases, for_grid-inv,
}
use c_client.Extension.{Pixel, grid_height}
use c_client.Pixel.{Grid, GridMemory, new_grid, grid_get, grid_new, set_columns, paint}
use c_client.Pixel.Access.{IsGrid, Written, grid_set-Written}

module _ (cols rows : ℕ) where
  -- the matrix once the columns below `i` are set
  record Columns (i : ℕ) (matrix : List ℕ) : Type 0 where
    width : length matrix ≡ cols
    set_below : (x : ℕ) → x < i → get_elem? matrix x ≡ some (x * rows)

  Stored-Columns :
      (i v : ℕ) (m m' : List ℕ) → v ≡ i * rows → Columns i m → Stored m i v m' → Columns (i + 1) m'
  Stored-Columns i v m m' e c st = record {
    width = st.size ∙ c.width;
    set_below = λ x hx. elim (dec_lt x i) [
      | yes p ↦ st.elsewhere x (omega arith) ∙ c.set_below x p
      | no q ↦ let same : i ≡ x = omega arith in ground (arith, st.here)
    ];
  }

  -- The loop of `grid_new` ends within 256 rounds, since its counter does not wrap.
  set_columns-Columns :
      (fuel i : ℕ) (m : List ℕ)
      → cols ≤ 255
      → i ≤ cols
      → cols < i + fuel
      → Columns i m
      → Returns (Columns cols) (set_columns fuel cols rows i m)
  unfolding set_columns
  set_columns-Columns zero i m small le fuel c = absurd (omega arith)
  set_columns-Columns (suc f) i m small le fuel c = elim (Bool-cases (ltb i cols)) [
    | inl more ↦
        let lt : i < cols = ground arith in
        let next : (i + 1) % 256 ≡ i + 1 = omega arith in
        rw (more, next)
          (Returns-bind (store-Stored m i (i * rows) (omega (arith, c.width))) λ m' st.
            set_columns-Columns f (i + 1) m' small (omega arith) (omega arith)
              (Stored-Columns i (i * rows) m m' refl c st))
    | inr done ↦
        let end : i ≡ cols = ground arith in
        rw done
          (returns (record { width = c.width; set_below = λ x hx. c.set_below x (omega arith) }))
  ]

  -- For one to 255 columns, given the memory that it asks for, `grid_new` returns a well-formed grid
  -- over the second block.
  pub grid_new-IsGrid :
      (matrix : List ℕ) (block : List Pixel)
      → 0 < cols
      → cols ≤ 255
      → length matrix ≡ cols
      → length block ≡ rows * cols
      → Returns
          (λ (r : Option Grid). (g : Grid) × (r ≡ some g) × IsGrid cols rows g × (g.cells ≡ block))
          (grid_new cols rows (some matrix) (some block))
  unfolding grid_new
  grid_new-IsGrid matrix block some_cols small wm wb =
      Returns-bind (store-Stored matrix 0 0 (omega arith)) λ first st.
        Returns-bind
          (set_columns-Columns 256 1 first small (omega arith) (omega arith) (record {
            width = st.size ∙ wm;
            set_below = λ x hx. let z : x ≡ 0 = omega arith in ground (arith, st.here);
          }))
          λ columns c. returns (
            record { columns = columns; cells = block },
            refl,
            record { width = c.width; columns = c.set_below; size = wb },
            refl,
          )

-- malloc gave both blocks of a grid.
pub record Given (cols rows : ℕ) (m : GridMemory) : Type 0 where
  pub matrix : (columns : List ℕ) × (m.matrix ≡ some columns) × (length columns ≡ cols)
  pub block : (cells : List Pixel) × (m.block ≡ some cells) × (length cells ≡ rows * cols)

-- With the memory for one to 255 columns, the grid is well formed.
pub new_grid-IsGrid :
    (cols rows : ℕ) (m : GridMemory)
    → 0 < cols
    → cols ≤ 255
    → Given cols rows m
    → Returns (IsGrid cols rows) (new_grid cols rows m)
unfolding new_grid
new_grid-IsGrid cols rows m pos_ small given =
    let (columns, em, wm) = given.matrix in
    let (cells, eb, wb) = given.block in
    rw (em, eb)
      (Returns-bind (grid_new-IsGrid cols rows columns cells pos_ small wm wb)
        λ r (g, e, is, _). rw e (returns is))

-- Columns `i` to `j - 1` have the colours, and the others are as before.
pub record Painted (cols i j : ℕ) (colour : ℕ → ℕ → Pixel) (g h : Grid) : Type 0 where
  pub grid : IsGrid cols grid_height h
  pub inside : (x y : ℕ) → i ≤ x → x < j → y < grid_height → grid_get h x y ≡ some (colour x y)
  pub outside :
      (x y : ℕ) → x < cols → y < grid_height → (x < i) ⊎ (j ≤ x) → grid_get h x y ≡ grid_get g x y

module _ (cols i j : ℕ) (colour : ℕ → ℕ → Pixel) (g : Grid) where
  -- the state of the two loops
  record Painting (x y : ℕ) (h : Grid) : Type 0 where
    grid : IsGrid cols grid_height h
    done :
        (x' y' : ℕ)
        → i ≤ x'
        → x' < cols
        → y' < grid_height
        → (x' < x) ⊎ ((x' ≡ x) × (y' < y))
        → grid_get h x' y' ≡ some (colour x' y')
    rest :
        (x' y' : ℕ)
        → x' < cols
        → y' < grid_height
        → (x' < i) ⊎ (x < x') ⊎ ((x' ≡ x) × (y ≤ y'))
        → grid_get h x' y' ≡ grid_get g x' y'

  Written-Painting :
      (x y : ℕ) (h k : Grid)
      → i ≤ x
      → Painting x y h
      → Written cols grid_height h x y (colour x y) k
      → Painting x (y + 1) k
  Written-Painting x y h k le p w = record {
    grid = w.grid;
    done = λ x' y' a b c d. grind (arith, w.here, w.elsewhere x' y' b c, p.done x' y' a b c);
    rest = λ x' y' a b c. grind (arith, w.elsewhere x' y' a b, p.rest x' y' a b);
  }

  -- The painting loops write each cell of their columns once, and no other.
  pub paint-Painted :
      (n : ℕ)
      → i + n ≡ j
      → j ≤ cols
      → IsGrid cols grid_height g
      → Returns (Painted cols i j colour g) (paint n i colour g)
  unfolding paint
  paint-Painted n e le is =
      Returns-mono
        (for_grid-inv Painting _ n i grid_height j e
          (λ x y h lo hi hy p.
            Returns-mono (grid_set-Written p.grid x y (colour x y) (omega arith) hy)
              (λ k w. Written-Painting x y h k lo p w))
          (λ x h p. record {
            grid = p.grid;
            done = λ x' y' a b c d. p.done x' y' a b c (omega arith);
            rest = λ x' y' a b c. p.rest x' y' a b (omega arith);
          })
          g
          (record {
            grid = is;
            done = λ x' y' a b c d. absurd (omega arith);
            rest = λ x' y' a b c. refl;
          }))
        λ h p. record {
          grid = p.grid;
          inside = λ x y a b c. p.done x y a (omega arith) c (omega arith);
          outside = λ x y a b c. p.rest x y a b (omega arith);
        }
