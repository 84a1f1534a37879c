-- ===== src/Opc/Strips/Organise.antt =====
-- `opc_put_pixel_list` sends the strips one behind the other.
use native.Mathlib.Decide.{dec_lt}
use native.Mathlib.Numerals.{add-one}
use c_client.Prelude.{
  ℕ, ◌+◌, ◌<◌, ◌≤◌, ◌≡◌, refl, ◌≢◌, ap, sym, ◌∙◌, true, some, List, arith, length, get_elem?,
  get_elem?-some, Stored, store-Stored, replicate, length-replicate, Returns, returns, Returns-bind,
  Returns-mono, for_range, for_range-inv,
}
use c_client.Extension.{num_strips, max_strip_size, Pixel, PixelInfo, black_pixel}
use c_client.Pixel.{Grid, GridMemory, grid_get}
use c_client.Pixel.Fill.{Given, new_grid-IsGrid}
use c_client.Pixel.Access.{IsGrid, grid_get-some}
use c_client.Opc.Strips.{strip_size, copy_strip, copy_channel, organise}
use c_client.Opc.Strips.Sizes.{
  strip, AllWired, strip_start, strip_size-bounds, total_before_mono, total_before-suc,
}
use c_client.Opc.Strips.Place.{Placed, place_strips-Placed}

module _ (g : Grid) (is : IsGrid num_strips max_strip_size g) where
  -- the strips below `c` are copied, each behind those before it
  pub record Copied (c : ℕ) (out : List Pixel) : Type 0 where
    pub size : length out ≡ 1413
    pub at :
        (d n s : ℕ)
        → d < c
        → get_elem? strip_size d ≡ some n
        → s < n
        → get_elem? out (strip_start d + s) ≡ grid_get g d s

  -- so are `s` pixels of strip `c`
  record Copying (c s : ℕ) (out : List Pixel) : Type 0 where
    before : Copied c out
    at : (t : ℕ) → t < s → get_elem? out (strip_start c + t) ≡ grid_get g c t

  Stored-Copying :
      (c n s : ℕ) (p : Pixel) (out out' : List Pixel)
      → get_elem? strip_size c ≡ some n
      → grid_get g c s ≡ some p
      → Copying c s out
      → Stored out (s + strip_start c) p out'
      → Copying c (s + 1) out'
  Stored-Copying c n s p out out' en ep cp st = record {
    before = record {
      size = st.size ∙ cp.before.size;
      at = λ d m t lt em hs.
          st.elsewhere (strip_start d + t)
            (λ same. omega (arith, total_before_mono strip_size d c m lt em))
          ∙ cp.before.at d m t lt em hs;
    };
    at = λ t lt. elim (dec_lt t s) [
      | yes old ↦ st.elsewhere (strip_start c + t) (λ same. omega arith) ∙ cp.at t old
      | no new ↦
          let this : s ≡ t = omega arith in
          let here : s + strip_start c ≡ strip_start c + t = omega arith in
          rw (← here, ← this) (st.here ∙ sym ep)
    ];
  }

  copy_strip-Copying :
      (c n : ℕ) (out : List Pixel)
      → get_elem? strip_size c ≡ some n
      → Copied c out
      → Returns (Copying c n) (copy_strip g c (strip_start c) n out)
  unfolding copy_strip
  copy_strip-Copying c n out e cp =
      let (hc, hn, fits) = strip_size-bounds c n e in
      for_range-inv (Copying c) _ n 0 n (omega arith)
        (λ s t _ lt q.
          let (p, ep) = grid_get-some is c s hc (omega arith) in
          rw ep (
            Returns-mono (store-Stored t (s + strip_start c) p (omega (arith, q.before.size)))
              λ t' st. Stored-Copying c n s p t t' e ep q st))
        out (record { before = cp; at = λ t lt. absurd (omega arith) })

  Copying-Copied :
      (c n : ℕ) (out : List Pixel)
      → get_elem? strip_size c ≡ some n
      → Copying c n out
      → Copied (c + 1) out
  Copying-Copied c n out e cp = record {
    size = cp.before.size;
    at = λ d m s lt em hs. elim (dec_lt d c) [
      | yes old ↦ cp.before.at d m s old em hs
      | no new ↦ let this : d ≡ c = omega arith in this_strip d m s this em hs
    ];
  }
    where
      this_strip :
          (d m s : ℕ)
          → d ≡ c
          → get_elem? strip_size d ≡ some m
          → s < m
          → get_elem? out (strip_start d + s) ≡ grid_get g d s
      this_strip d m s this em hs =
          let em' : get_elem? strip_size c ≡ some m = rw this at em in
          let same : m ≡ n = ground arith in rw this (cp.at s (omega arith))

  copy_channel-Copied :
      (c start : ℕ) (out : List Pixel)
      → c < num_strips
      → start ≡ strip_start c
      → Copied c out
      → Returns
          (λ (st : ℕ × List Pixel). (st.0 ≡ strip_start (c + 1)) × Copied (c + 1) st.1)
          (copy_channel g c (start, out))
  unfolding copy_channel
  copy_channel-Copied c start out lt e cp =
      let (n, en) = get_elem?-some strip_size c lt in
      let next : strip_start (c + 1) ≡ strip_start c + n =
        rw add-one (total_before-suc strip_size c n en) in
      rw (en, e)
        (Returns-bind (copy_strip-Copying c n out en cp)
          λ out' q. returns (sym next, Copying-Copied c n out' en q))

  pub copy_channels :
      Returns
        (λ (st : ℕ × List Pixel). Copied num_strips st.1)
        (for_range num_strips 0 (copy_channel g) (0, replicate 1413 black_pixel))
  copy_channels =
      Returns-mono
        (for_range-inv (λ c (st : ℕ × List Pixel). (st.0 ≡ strip_start c) × Copied c st.1)
          (copy_channel g) num_strips 0 num_strips refl
          (λ c st _ lt q. copy_channel-Copied c st.0 st.1 lt q.0 q.1)
          (0, replicate 1413 black_pixel)
          (
            refl,
            record {
              size = length-replicate 1413 black_pixel;
              at = λ d m s l. absurd (omega arith);
            },
          ))
        λ st q. q.1

-- The list that is sent has the pixel of the layout's entry `i` at the place of its strip: behind
-- the strips of the channels before its own, at its number. Of two entries for one place the last
-- counts.
pub record Organised (pixels : List Pixel) (infos : List PixelInfo) (out : List Pixel)
    : Type 0 where
  pub size : length out ≡ 1413
  pub at :
      (i c n s : ℕ) (info : PixelInfo)
      → get_elem? infos i ≡ some info
      → info.strip ≡ strip c s
      → get_elem? strip_size c ≡ some n
      → s < n
      → ((j : ℕ) (later : PixelInfo)
          → i < j
          → get_elem? infos j ≡ some later
          → later.strip ≢ strip c s)
      → get_elem? out (strip_start c + s) ≡ get_elem? pixels i

Placed-Organised :
    (pixels : List Pixel) (infos : List PixelInfo) (fresh g : Grid)
    (is : IsGrid num_strips max_strip_size g) (out : List Pixel)
    → Placed pixels infos 0 fresh g
    → Copied g is num_strips out
    → Organised pixels infos out
Placed-Organised pixels infos fresh g is out pl cp = record {
  size = cp.size;
  at = λ i c n s info ei est en hs last.
      let (hc, hn, _) = strip_size-bounds c n en in
      cp.at c n s hc en hs
      ∙ pl.placed i c s info ei est hc (omega arith) last
      ∙ ap (get_elem? pixels) (omega arith);
}

-- If every pixel of the layout is wired, there is a colour for each, and memory for the grid and the
-- list, `opc_put_pixel_list` organises the pixels without a fault.
pub organise-Organised :
    (pixels : List Pixel) (infos : List PixelInfo) (strips : GridMemory)
    → AllWired infos
    → length infos ≤ length pixels
    → Given num_strips max_strip_size strips
    → Returns (Organised pixels infos) (organise pixels infos strips true)
unfolding organise
organise-Organised pixels infos strips wired fits given =
    Returns-bind
      (new_grid-IsGrid num_strips max_strip_size strips (omega arith) (omega arith) given)
      λ fresh is.
        Returns-bind (place_strips-Placed pixels infos 0 fresh wired (omega arith) is) λ g pl.
          Returns-bind (copy_channels g pl.grid)
            λ (_, out) cp. returns (Placed-Organised pixels infos fresh g pl.grid out pl cp)
