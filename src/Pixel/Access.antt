-- ===== src/Pixel/Access.antt =====
-- Access to a well-formed grid.
use native.Mathlib.Decide.{dec_lt}
use c_client.Prelude.{
  ℕ, ◌+◌, ◌*◌, ◌<◌, ◌≤◌, ◌≡◌, ◌≢◌, sym, ap, ◌∙◌, ◌⊎◌, inl, inr, some, List, arith, length,
  get_elem?, get_elem?-some, Stored, store-Stored, Returns, returns, Returns-bind,
}
use c_client.Extension.{Pixel}
use c_client.Pixel.{Grid, grid_get, grid_set}

-- Every column's pointer leads to its place in a block of `rows * cols` pixels.
pub record IsGrid (cols rows : ℕ) (g : Grid) : Type 0 where
  pub width : length g.columns ≡ cols
  pub columns : (x : ℕ) → x < cols → get_elem? g.columns x ≡ some (x * rows)
  pub size : length g.cells ≡ rows * cols

pub index-lt : (x y cols rows : ℕ) → x < cols → y < rows → x * rows + y < rows * cols
index-lt x y cols rows hx hy = grind arith

row_step : (x x' rows : ℕ) → x < x' → x * rows + rows ≤ x' * rows
row_step x x' rows h = grind arith

-- Distinct cells have distinct offsets.
index-inj :
    (x y x' y' rows : ℕ)
    → y < rows
    → y' < rows
    → x * rows + y ≡ x' * rows + y'
    → (x ≡ x') × (y ≡ y')
index-inj x y x' y' rows hy hy' e = elim (dec_lt x x') [
  | yes p ↦ absurd (omega (arith, row_step x x' rows p))
  | no p ↦ elim (dec_lt x' x) [
    | yes q ↦ absurd (omega (arith, row_step x' x rows q))
    | no q ↦ let same : x ≡ x' = omega arith in (same, omega (arith, ap (λ (t : ℕ). t * rows) same))
  ]
]

module _ {cols rows : ℕ} {g : Grid} (is : IsGrid cols rows g) where
  pub grid_get-eq : (x y : ℕ) → x < cols → grid_get g x y ≡ get_elem? g.cells (x * rows + y)
  unfolding grid_get
  grid_get-eq x y hx = rw (is.columns x hx)

  -- A read in range does not fault.
  pub grid_get-some : (x y : ℕ) → x < cols → y < rows → (p : Pixel) × (grid_get g x y ≡ some p)
  grid_get-some x y hx hy =
      rw (grid_get-eq x y hx) (
        get_elem?-some g.cells (x * rows + y)
          (omega (arith, index-lt x y cols rows hx hy, is.size)))

-- A write in range keeps the grid, sets its cell and no other.
pub record Written (cols rows : ℕ) (g : Grid) (x y : ℕ) (v : Pixel) (h : Grid) : Type 0 where
  pub grid : IsGrid cols rows h
  pub here : grid_get h x y ≡ some v
  pub elsewhere :
      (x' y' : ℕ)
      → x' < cols
      → y' < rows
      → (x ≢ x') ⊎ (y ≢ y')
      → grid_get h x' y' ≡ grid_get g x' y'

module _ {cols rows : ℕ} {g : Grid} (is : IsGrid cols rows g) (x y : ℕ) (v : Pixel) where
  pub Stored-Written :
      x < cols
      → y < rows
      → (cells : List Pixel) → Stored g.cells (x * rows + y) v cells
      → Written cols rows g x y v (record g { cells = cells })
  Stored-Written hx hy cells st = record {
    grid = kept;
    here = grid_get-eq kept x y hx ∙ st.here;
    elsewhere = λ x' y' hx' hy' ne.
        grid_get-eq kept x' y' hx'
        ∙ (st.elsewhere (x' * rows + y') (apart x' y' hy' ne) ∙ sym (grid_get-eq is x' y' hx'));
  }
    where
      kept : IsGrid cols rows (record g { cells = cells })
      kept = record { width = is.width; columns = is.columns; size = st.size ∙ is.size }

      apart : (x' y' : ℕ) → y' < rows → (x ≢ x') ⊎ (y ≢ y') → x * rows + y ≢ x' * rows + y'
      apart x' y' hy' (inl ne) e = ne (index-inj x y x' y' rows hy hy' e).0
      apart x' y' hy' (inr ne) e = ne (index-inj x y x' y' rows hy hy' e).1

  pub grid_set-Written :
      x < cols → y < rows → Returns (Written cols rows g x y v) (grid_set g x y v)
  unfolding grid_set
  grid_set-Written hx hy = rw (is.columns x hx) (
      Returns-bind
        (store-Stored g.cells (x * rows + y) v
          (omega (arith, index-lt x y cols rows hx hy, is.size)))
        λ cells st. returns (Stored-Written hx hy cells st))
