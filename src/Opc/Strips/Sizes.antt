-- ===== src/Opc/Strips/Sizes.antt =====
-- The table of strip sizes of src/opc/opc_client.c, and the layouts whose pixels are wired on it.
use c_client.Prelude.{
  ℕ, zero, suc, ◌+◌, ◌<◌, ◌≤◌, ◌≡◌, some, List, [], ◌∷◌, arith, get_elem?, get_elem?-lt,
}
use c_client.Prelude.Int.{pos}
use c_client.Extension.{num_strips, max_strip_size, Strip, PixelInfo}
use c_client.Opc.Strips.{strip_size}

abbrev pub strip : ℕ → ℕ → Strip
strip c s = record { channel = pos c; num = pos s }

-- Every pixel is wired on one of the strips, inside its length.
pub record Wired (info : PixelInfo) : Type 0 where
  pub channel : ℕ
  pub num : ℕ
  pub size : ℕ
  pub at : info.strip ≡ strip channel num
  pub size_of : get_elem? strip_size channel ≡ some size
  pub inside : num < size

abbrev pub AllWired : List PixelInfo → Type 0
AllWired [] = Unit {0}
AllWired (info ∷ infos) = Wired info × AllWired infos

-- The number of pixels on the strips before one.
abbrev pub total_before : List ℕ → ℕ → ℕ
total_before [] c = 0
total_before (n ∷ ns) zero = 0
total_before (n ∷ ns) (suc c) = n + total_before ns c

abbrev pub strip_start : ℕ → ℕ
strip_start = total_before strip_size

abbrev AllLe : ℕ → List ℕ → Type 0
AllLe m [] = Unit {0}
AllLe m (n ∷ ns) = (n ≤ m) × AllLe m ns

pub total_before_mono :
    (ns : List ℕ) (c d n : ℕ)
    → c < d
    → get_elem? ns c ≡ some n
    → total_before ns c + n ≤ total_before ns d
total_before_mono [] c d n h e = cc
total_before_mono (m ∷ ns) zero zero n h e = absurd (omega arith)
total_before_mono (m ∷ ns) zero (suc d) n h e = ground arith
total_before_mono (m ∷ ns) (suc c) zero n h e = absurd (omega arith)
total_before_mono (m ∷ ns) (suc c) (suc d) n h e =
    omega (arith, total_before_mono ns c d n (omega arith) e)

pub total_before-suc :
    (ns : List ℕ) (c n : ℕ)
    → get_elem? ns c ≡ some n
    → total_before ns (suc c) ≡ total_before ns c + n
total_before-suc [] c n e = cc
total_before-suc (m ∷ []) zero n e = ground arith
total_before-suc (m ∷ k ∷ ns) zero n e = ground arith
total_before-suc (m ∷ ns) (suc c) n e = omega (arith, total_before-suc ns c n e)

le_of_get_elem? : (ns : List ℕ) (m c n : ℕ) → AllLe m ns → get_elem? ns c ≡ some n → n ≤ m
le_of_get_elem? [] m c n h e = cc
le_of_get_elem? (k ∷ ns) m zero n h e = ground arith
le_of_get_elem? (k ∷ ns) m (suc c) n h e = le_of_get_elem? ns m c n h.1 e

-- A strip of the table is one of the eight, has at most 64 pixels, and lies within the 471.
pub strip_size-bounds :
    (c n : ℕ)
    → get_elem? strip_size c ≡ some n
    → (c < num_strips) × (n ≤ max_strip_size) × (strip_start c + n ≤ 471)
strip_size-bounds c n e =
    let lt : c < 8 = get_elem?-lt strip_size c e in
    (lt, le_of_get_elem? strip_size 64 c n (omega arith) e, total_before_mono strip_size c 8 n lt e)
