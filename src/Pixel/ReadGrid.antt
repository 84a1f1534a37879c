-- ===== src/Pixel/ReadGrid.antt =====
-- `read_grid_to_list` copies each pixel of the layout from its point of the grid.
use c_client.Prelude.{
  ℕ, ◌+◌, ◌<◌, ◌≤◌, ◌≡◌, refl, ◌≢◌, ap, sym, ◌∙◌, ◌⊎◌, inl, inr, some, List, arith, length,
  get_elem?, get_elem?-lt, Stored, store-Stored, Returns, returns, Returns-mono, for_grid-inv,
}
use c_client.Prelude.Int.{ℤ, pos, negsuc}
use c_client.Extension.{grid_width, grid_height, Pixel, PixelInfo}
use c_client.Pixel.{Grid, grid_get, get_pos, read_cell, read_grid_to_list}
use c_client.Pixel.Access.{IsGrid, grid_get-some}
use c_client.Pixel.Positions.{get_pos-inj, get_pos-lt}

module _ (old : List Pixel) (grid : Grid) (infos : List PixelInfo) where
  -- Each position that the search finds for a point of the map has the point's pixel; the others
  -- are as before.
  pub record Copied (out : List Pixel) : Type 0 where
    pub size : length out ≡ length old
    pub copied :
        (x y i : ℕ)
        → x < grid_width
        → y < grid_height
        → get_pos (pos x) (pos y) infos ≡ pos i
        → get_elem? out i ≡ grid_get grid x y
    pub kept :
        (i : ℕ)
        → ((x y : ℕ) → x < grid_width → y < grid_height → get_pos (pos x) (pos y) infos ≢ pos i)
        → get_elem? out i ≡ get_elem? old i

  -- the point lies before column `x`, row `y` in the order of the loops
  abbrev Before : ℕ → ℕ → ℕ → ℕ → Type 0
  Before x y x' y' = (x' < x) ⊎ ((x' ≡ x) × (y' < y))

  record Copying (x y : ℕ) (out : List Pixel) : Type 0 where
    size : length out ≡ length old
    copied :
        (x' y' i : ℕ)
        → y' < grid_height
        → Before x y x' y'
        → get_pos (pos x') (pos y') infos ≡ pos i
        → get_elem? out i ≡ grid_get grid x' y'
    kept :
        (i : ℕ)
        → ((x' y' : ℕ)
            → y' < grid_height
            → Before x y x' y'
            → get_pos (pos x') (pos y') infos ≢ pos i)
        → get_elem? out i ≡ get_elem? old i

  -- a point before the next round is before this one, or is this one
  Before-step : (x y x' y' : ℕ) → Before x (y + 1) x' y' → Before x y x' y' ⊎ ((x' ≡ x) × (y' ≡ y))
  Before-step x y x' y' b = omega arith

  step_found :
      (x y k : ℕ) (out out' : List Pixel) (p : Pixel)
      → y < grid_height
      → get_pos (pos x) (pos y) infos ≡ pos k
      → grid_get grid x y ≡ some p
      → Copying x y out
      → Stored out k p out'
      → Copying x (y + 1) out'
  step_found x y k out out' p hy e g c st = record {
    size = st.size ∙ c.size;
    copied = λ x' y' i hy' b e'. elim (Before-step x y x' y' b) [
      | inr (ex, ey) ↦ here x' y' i ex ey e'
      | inl b' ↦
          st.elsewhere i (λ same. apart x' y' b' (e' ∙ ap pos (sym same)))
          ∙ c.copied x' y' i hy' b' e'
    ];
    kept = λ i out_of.
        st.elsewhere i (λ same. out_of x y hy (omega arith) (e ∙ ap pos same))
        ∙ c.kept i (λ x' y' hy' b'. out_of x' y' hy' (omega arith));
  }
    where
      here :
          (x' y' i : ℕ)
          → x' ≡ x
          → y' ≡ y
          → get_pos (pos x') (pos y') infos ≡ pos i
          → get_elem? out' i ≡ grid_get grid x' y'
      here x' y' i ex ey e' = ground (arith, st.here)

      apart : (x' y' : ℕ) → Before x y x' y' → get_pos (pos x') (pos y') infos ≢ pos k
      apart x' y' b e' =
          let same = get_pos-inj (pos x') (pos y') (pos x) (pos y) infos k e' e in ground arith

  step_missing :
      (x y n : ℕ) (out : List Pixel)
      → get_pos (pos x) (pos y) infos ≡ negsuc n
      → Copying x y out
      → Copying x (y + 1) out
  step_missing x y n out e c = record {
    size = c.size;
    copied = λ x' y' i hy' b e'. elim (Before-step x y x' y' b) [
      | inr (ex, ey) ↦ ground arith
      | inl b' ↦ c.copied x' y' i hy' b' e'
    ];
    kept = λ i out_of. c.kept i (λ x' y' hy' b'. out_of x' y' hy' (omega arith));
  }

  read_cell-Copying :
      (x y : ℕ) (out : List Pixel) (r : ℤ)
      → get_pos (pos x) (pos y) infos ≡ r
      → x < grid_width
      → y < grid_height
      → IsGrid grid_width grid_height grid
      → length infos ≤ length old
      → Copying x y out
      → Returns (Copying x (y + 1)) (read_cell grid infos x y out)
  unfolding read_cell
  read_cell-Copying x y out (negsuc n) e hx hy is fits c =
      rw (e, read_cell) (returns (step_missing x y n out e c))
  read_cell-Copying x y out (pos k) e hx hy is fits c =
      let (p, g) = grid_get-some is x y hx hy in
      let (info, at, _) = get_pos-lt (pos x) (pos y) infos k e in
      rw (e, read_cell, g)
        (Returns-mono (store-Stored out k p (omega (arith, get_elem?-lt infos k at, c.size)))
          λ out' st. step_found x y k out out' p hy e g c st)

  -- On a whole grid, and with room for every pixel of the layout, the copy does not fault. It puts
  -- at each position found for a point of the map that point's pixel, and leaves every other
  -- position alone.
  pub read_grid_to_list-Copied :
      IsGrid grid_width grid_height grid
      → length infos ≤ length old
      → Returns Copied (read_grid_to_list old grid infos)
  unfolding read_grid_to_list
  read_grid_to_list-Copied is fits =
      Returns-mono
        (for_grid-inv Copying (read_cell grid infos) grid_width 0 grid_height grid_width refl
          (λ x y out lo hi hy c. read_cell-Copying x y out _ refl hi hy is fits c)
          (λ x out c. record {
            size = c.size;
            copied = λ x' y' i hy b e. c.copied x' y' i hy (omega arith) e;
            kept = λ i f. c.kept i (λ x' y' hy b. f x' y' hy (omega arith));
          })
          old
          (record {
            size = refl;
            copied = λ x' y' i hy b e. absurd (omega arith);
            kept = λ i f. refl;
          }))
        λ out c. record {
          size = c.size;
          copied = λ x y i hx hy e. c.copied x y i hy (omega arith) e;
          kept = λ i f. c.kept i (λ x y hy b. f x y (omega arith) hy);
        }
