-- ===== src/Samples.antt =====
-- Whole grids, layouts and networks for the tests.
use mathlib.Core.Bool.{false≢true}
use c_client.Prelude.{
  ℕ, zero, suc, ◌+◌, ◌*◌, ◌<◌, ◌≡◌, refl, ◌∙◌, ap, sym, true, some, ◌≤◌, List, [], ◌∷◌, arith,
  length, length-replicate, get_elem?, replicate,
}
use c_client.Prelude.Int.{ℤ, pos, negsuc, pos_part}
use c_client.Extension.{Pixel, rgb, black_pixel, PixelInfo, grid_point}
use c_client.Pixel.{Grid, GridMemory}
use c_client.Pixel.Access.{IsGrid}
use c_client.Pixel.Fill.{Given}
use c_client.Opc.Strips.Sizes.{Wired, AllWired}
use c_client.CtrlServer.{Peer, bytes, waiting, nobody, ok}
use c_client.EffectRunner.{Constructor, get_scroller_effect, Effects, Runner}
use c_client.Opc.{SinkInfo, Client, Kernel, connected}

columns_from : ℕ → ℕ → ℕ → List ℕ
columns_from zero i rows = []
columns_from (suc n) i rows = (i * rows) ∷ columns_from n (i + 1) rows

length-columns_from : (n i rows : ℕ) → length (columns_from n i rows) ≡ n
unfolding columns_from
length-columns_from zero i rows = refl
length-columns_from (suc n) i rows = ap suc (length-columns_from n (i + 1) rows)

get_elem?-columns_from :
    (n i rows x : ℕ) → x < n → get_elem? (columns_from n i rows) x ≡ some ((i + x) * rows)
unfolding columns_from
get_elem?-columns_from zero i rows x h = elim h [ ]
get_elem?-columns_from (suc n) i rows zero h = ap (λ k. some (k * rows)) (omega arith)
get_elem?-columns_from (suc n) i rows (suc x) h =
    get_elem?-columns_from n (i + 1) rows x (omega arith) ∙ ap (λ k. some (k * rows)) (omega arith)

-- A grid of one colour.
pub blank_grid : ℕ → ℕ → Pixel → Grid
unfolding columns_from
blank_grid cols rows p = record {
  columns = columns_from cols 0 rows;
  cells = replicate (rows * cols) p;
}

pub blank_grid-IsGrid : (cols rows : ℕ) (p : Pixel) → IsGrid cols rows (blank_grid cols rows p)
unfolding blank_grid
blank_grid-IsGrid cols rows p = record {
  width = length-columns_from cols 0 rows;
  columns = λ x h. get_elem?-columns_from cols 0 rows x h ∙ ap (λ k. some (k * rows)) (omega arith);
  size = length-replicate (rows * cols) p;
}

-- The memory that malloc gives for a grid.
pub memory : ℕ → ℕ → GridMemory
memory cols rows = record {
  matrix = some (replicate cols 7);
  block = some (replicate (rows * cols) (rgb 9 9 9));
}

pub memory-Given : (cols rows : ℕ) → Given cols rows (memory cols rows)
unfolding memory
memory-Given cols rows = record {
  matrix = (replicate cols 7, refl, length-replicate cols 7);
  block = (replicate (rows * cols) (rgb 9 9 9), refl, length-replicate (rows * cols) (rgb 9 9 9));
}

-- A pixel of the layout at a point of the map, on a strip.
abbrev pub info : ℕ → ℕ → ℕ → ℕ → PixelInfo
info x y channel num = record {
  grid = grid_point (pos x) (pos y);
  geo = record { latitude = 0; longitude = 0 };
  strip = record { channel = pos channel; num = pos num };
}

-- The first three pixels of layout/coordinates.txt and layout/strip_config.txt.
abbrev pub layout : List PixelInfo
layout = info 7 0 3 8 ∷ info 9 0 3 7 ∷ info 10 0 3 6 ∷ []

on_fourth : (x y num : ℕ) → num < 44 → Wired (info x y 3 num)
on_fourth x y num h = record {
  channel = 3;
  num = num;
  size = 44;
  at = refl;
  size_of = refl;
  inside = h;
}

pub layout-AllWired : AllWired layout
layout-AllWired = (
  on_fourth 7 0 8 (omega arith),
  (on_fourth 9 0 7 (omega arith), (on_fourth 10 0 6 (omega arith), tt)),
)

-- A network on which all goes well, a byte at a time.
unfoldable pub one : (call n : ℕ) → ℤ
one call zero = pos 0
one call (suc n) = pos 1

pub one-le : (call n : ℕ) → pos_part (one call n) ≤ n
unfolding one
one-le call zero = omega arith
one-le call (suc n) = omega arith

abbrev pub slow_network : Kernel
slow_network = record {
  socket = λ call. pos 5;
  connect = λ call. connected;
  writable = λ call. true;
  so_error = λ call. 0;
  send = one;
  send_bounded = one-le;
  bad_socket = λ call bad. absurd (false≢true (sym bad));
}

-- One sink that is not connected yet.
abbrev pub shut_sink : SinkInfo
shut_sink = record { address = 1; port = 7890; sockid = negsuc 0 }

abbrev pub fresh_client : Client
fresh_client = record { sinks = shut_sink ∷ []; next_sink = 1; calls = 0; log = [] }

-- Effects that leave the frame alone, in a world that records the scripts.
abbrev pub recording : Effects Constructor (List (List ℕ))
recording = record {
  construct = λ new scripts. ok (some new, scripts);
  run = λ e frame frame_no scripts. ok (e, (frame, (frame_no, scripts)));
  remove = λ e scripts. scripts;
  system = λ line scripts. line ∷ scripts;
}

abbrev pub scrolling : Runner Constructor (List (List ℕ))
scrolling = record {
  effect = some get_scroller_effect;
  frame = replicate 471 black_pixel;
  frame_no = 12;
  world = [];
}

pub silent_bounded : (n : ℕ) (bs : List ℕ) → waiting ≡ bytes bs → (0 < length bs) × (length bs ≤ n)
silent_bounded n bs e = cc

-- A client that is there and sends nothing.
abbrev pub silent_peer : Peer
silent_peer = record {
  recv = λ call n. waiting;
  recv_bounded = λ call n bs e. silent_bounded n bs e;
  accept = λ call. nobody;
  write = λ call bs. pos (length bs);
  closes = λ call. true;
}
