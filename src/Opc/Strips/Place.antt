-- ===== src/Opc/Strips/Place.antt =====
-- The loop of `opc_put_pixel_list` that puts each pixel at its place on its strip.
use c_client.Prelude.{
  ℕ, zero, suc, ◌+◌, ◌*◌, ◌<◌, ◌≤◌, ◌≡◌, refl, ◌≢◌, ap, ◌∙◌, ◌⊎◌, some, List, [], ◌∷◌, arith,
  length, get_elem?, get_elem?-some, store-Stored, Returns, returns, Returns-bind, Returns-mono,
}
use c_client.Extension.{num_strips, max_strip_size, Pixel, Strip, PixelInfo}
use c_client.Pixel.{Grid, grid_get}
use c_client.Pixel.Access.{IsGrid, Written, Stored-Written, index-lt}
use c_client.Opc.Strips.{set_strip, place_strips}
use c_client.Opc.Strips.Sizes.{strip, AllWired, strip_size-bounds}

module _ (pixels : List Pixel) where
  -- what the loop over `infos`, whose first pixel is number `at`, has made of `g`
  pub record Placed (infos : List PixelInfo) (at : ℕ) (g h : Grid) : Type 0 where
    pub grid : IsGrid num_strips max_strip_size h
    pub placed :
        (i c s : ℕ) (info : PixelInfo)
        → get_elem? infos i ≡ some info
        → info.strip ≡ strip c s
        → c < num_strips
        → s < max_strip_size
        → ((j : ℕ) (later : PixelInfo)
            → i < j
            → get_elem? infos j ≡ some later
            → later.strip ≢ strip c s)
        → grid_get h c s ≡ get_elem? pixels (at + i)
    pub kept :
        (c s : ℕ)
        → c < num_strips
        → s < max_strip_size
        → ((j : ℕ) (info : PixelInfo) → get_elem? infos j ≡ some info → info.strip ≢ strip c s)
        → grid_get h c s ≡ grid_get g c s

  set_strip-Written :
      (g : Grid) (st : Strip) (c s : ℕ) (p : Pixel)
      → st ≡ strip c s
      → IsGrid num_strips max_strip_size g
      → c < num_strips
      → s < max_strip_size
      → Returns (Written num_strips max_strip_size g c s p) (set_strip g st p)
  unfolding set_strip
  set_strip-Written g st c s p e is hc hs =
      rw (e, is.columns c hc)
        (Returns-bind
          (store-Stored g.cells (c * 64 + s) p
            (omega (arith, index-lt c s num_strips max_strip_size hc hs, is.size)))
          λ cells q. returns (Stored-Written is c s p hc hs cells q))

  Placed-cons :
      (info : PixelInfo) (infos : List PixelInfo) (at c s : ℕ) (p : Pixel) (g h k : Grid)
      → info.strip ≡ strip c s
      → c < num_strips
      → s < max_strip_size
      → get_elem? pixels at ≡ some p
      → Written num_strips max_strip_size g c s p h
      → Placed infos (at + 1) h k
      → Placed (info ∷ infos) at g k
  Placed-cons info infos at c s p g h k e hc hs ep w pl = record {
    grid = pl.grid;
    placed = placed;
    kept = λ c' s' hc' hs' out.
        pl.kept c' s' hc' hs' (λ j info' q. out (suc j) info' q)
        ∙ w.elsewhere c' s' hc' hs' (apart c' s' (out 0 info refl));
  }
    where
      apart : (c' s' : ℕ) → info.strip ≢ strip c' s' → (c ≢ c') ⊎ (s ≢ s')
      apart c' s' ne = ground arith

      placed :
          (i c' s' : ℕ) (info' : PixelInfo)
          → get_elem? (info ∷ infos) i ≡ some info'
          → info'.strip ≡ strip c' s'
          → c' < num_strips
          → s' < max_strip_size
          → ((j : ℕ) (later : PixelInfo)
              → i < j
              → get_elem? (info ∷ infos) j ≡ some later
              → later.strip ≢ strip c' s')
          → grid_get k c' s' ≡ get_elem? pixels (at + i)
      placed zero c' s' info' q e' hc' hs' last =
          let none_later = pl.kept c' s' hc' hs' (λ j l r. last (suc j) l (omega arith) r) in
          ground (arith, w.here)
      placed (suc i) c' s' info' q e' hc' hs' last =
          pl.placed i c' s' info' q e' hc' hs' (λ j l lt r. last (suc j) l (omega arith) r)
          ∙ ap (get_elem? pixels) (omega arith)

  -- With every pixel wired, the loop does not fault, and the last pixel of each place holds it.
  pub place_strips-Placed :
      (infos : List PixelInfo) (at : ℕ) (g : Grid)
      → AllWired infos
      → at + length infos ≤ length pixels
      → IsGrid num_strips max_strip_size g
      → Returns (Placed infos at g) (place_strips infos at pixels g)
  unfolding place_strips
  place_strips-Placed [] at g wired fits is =
      returns (record { grid = is; placed = λ i c s info e. cc; kept = λ c s hc hs out. refl })
  place_strips-Placed (info ∷ infos) at g (w, ws) fits is =
      let (p, ep) = get_elem?-some pixels at (omega arith) in
      let (hc, hs, _) = strip_size-bounds w.channel w.size w.size_of in
      let hs' : w.num < max_strip_size = omega (arith, w.inside) in
      rw ep (
        Returns-bind (set_strip-Written g info.strip w.channel w.num p w.at is hc hs') λ h wr.
          Returns-mono (place_strips-Placed infos (at + 1) h ws (omega arith) wr.grid)
            λ k pl. Placed-cons info infos at w.channel w.num p g h k w.at hc hs' ep wr pl)
