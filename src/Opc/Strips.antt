-- ===== src/Opc/Strips.antt =====
-- The first half of `opc_put_pixel_list` in src/opc/opc_client.c: the pixels in the order of the
-- strips that they are wired on.
pub mod Sizes
pub mod Place
pub mod Organise
use c_client.Prelude.{
  ℕ, zero, suc, ◌+◌, ◌-◌, ◌*◌, Bool, true, false, Option, some, none, List, [], ◌∷◌, ltb,
  if◌then◌else◌, get_elem?, store, replicate, ◌>>=◌, for_range,
}
use c_client.Prelude.Int.{ℤ, pos, negsuc}
use c_client.Extension.{num_strips, max_strip_size, Pixel, black_pixel, Strip, PixelInfo}
use c_client.Pixel.{Grid, GridMemory, new_grid, grid_get}

abbrev pub strip_size : List ℕ
strip_size = 63 ∷ 60 ∷ 64 ∷ 44 ∷ 60 ∷ 64 ∷ 52 ∷ 64 ∷ []

-- start + num, in the block of the grid.
pub offset : ℕ → ℤ → Option ℕ
offset start (pos n) = some (start + n)
offset start (negsuc n) = if ltb n start then some (start - n - 1) else none

-- channel_pixels[strip.channel][strip.num] = p
pub set_strip : Grid → Strip → Pixel → Option Grid
unfolding offset
set_strip g strip p = elim strip.channel [
  | negsuc _ ↦ none
  | pos c ↦ get_elem? g.columns c >>= λ start. offset start strip.num >>= λ at.
      store g.cells at p >>= λ cells. some (record g { cells = cells })
]

-- The loop over the list of pixels.
pub place_strips : List PixelInfo → ℕ → List Pixel → Grid → Option Grid
unfolding set_strip
place_strips [] at pixels g = some g
place_strips (info ∷ infos) at pixels g =
    get_elem? pixels at >>= λ p. set_strip g info.strip p >>= place_strips infos (at + 1) pixels

-- The inner loop: `size` pixels of one channel.
pub copy_strip : Grid → ℕ → ℕ → ℕ → List Pixel → Option (List Pixel)
copy_strip g channel start size =
    for_range size 0 (λ s out. grid_get g channel s >>= store out (s + start))

-- The outer loop's body, with `offset` in the state.
pub copy_channel : Grid → ℕ → ℕ × List Pixel → Option (ℕ × List Pixel)
unfolding copy_strip
copy_channel g channel (start, out) = get_elem? strip_size channel >>= λ size.
    copy_strip g channel start size out >>= λ out'. some (start + size, out')

-- `strips` is the memory for the grid of strips. `zeroed` says whether
-- `calloc(sizeof(opc_pixel_t) * 471, sizeof(opc_pixel_t))` gave its block, which has place for three
-- times as many pixels as there are; through NULL the first write faults.
pub organise : List Pixel → List PixelInfo → GridMemory → Bool → Option (List Pixel)
unfolding place_strips copy_channel
organise pixels pixel_info strips zeroed = new_grid num_strips max_strip_size strips >>= λ fresh.
    place_strips pixel_info 0 pixels fresh >>= λ g.
    (let block = if zeroed then replicate 1413 black_pixel else [] in
      for_range num_strips 0 (copy_channel g) (0, block) >>= λ (_, out). some out)
