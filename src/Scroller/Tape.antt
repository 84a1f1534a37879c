-- ===== src/Scroller/Tape.antt =====
-- Frame after frame the map is a window that moves along an endless tape: the map's first columns,
-- and behind them the buffer over and over.
use native.Mathlib.Decide.{dec_lt}
use native.Mathlib.Nat.{mod-eq_of_lt, mod_self, mod-add-mod, zero-mod}
use Prim.Native.Nat.add
use c_client.Prelude.{
  ℕ, zero, suc, ◌+◌, ◌-◌, ◌%◌, ◌<◌, ◌≤◌, ◌≡◌, sym, ap, ◌∙◌, Option, some, ltb, if◌then◌else◌,
  lt→ltb, le→ltb, arith, Returns, returns, Returns-bind, Returns-mono, ◌>>=◌,
}
use c_client.Extension.{grid_width, grid_height, Pixel}
use c_client.Pixel.{Grid, grid_get}
use c_client.Pixel.Access.{IsGrid}
use c_client.Scroller.{Buffer, next_pos, shift_columns}
use c_client.Scroller.Shift.{incoming-inside, Shifted, shift_columns-Shifted}

-- `n` calls of `shift_columns`.
pub scroll : ℕ → Grid → Buffer → Option (Grid × Buffer)
scroll zero g b = some (g, b)
scroll (suc n) g b = scroll n g b >>= λ (g', b'). shift_columns g' b'

-- Column `t` of the tape.
pub tape : Grid → Buffer → ℕ → ℕ → Option Pixel
tape g b t y =
    if ltb t grid_width then grid_get g t y else grid_get b.grid ((t - grid_width) % b.width) y

-- A position in a buffer wider than the map goes round at the buffer's width.
pub next_pos-mod :
    (pos width : ℕ) → grid_width < width → pos < width → next_pos pos width ≡ (pos + 1) % width
unfolding next_pos
next_pos-mod pos width wide lt = elim (dec_lt (pos + 1) width) [
  | yes more ↦ ground (arith, mod-eq_of_lt more)
  | no end ↦ let e : pos + 1 ≡ width = omega arith in ground (arith, mod_self width)
]

module _ (g : Grid) (b : Buffer) where
  pub tape-front : (t y : ℕ) → t < grid_width → tape g b t y ≡ grid_get g t y
  unfolding tape
  tape-front t y lt = rw (lt→ltb t grid_width lt)

  pub tape-behind :
      (t y : ℕ) → grid_width ≤ t → tape g b t y ≡ grid_get b.grid ((t - grid_width) % b.width) y
  unfolding tape
  tape-behind t y le = rw (le→ltb t grid_width le)

  -- The window at column `n`.
  pub record Window (n : ℕ) (result : Grid × Buffer) : Type 0 where
    pub map : IsGrid grid_width grid_height result.0
    pub shows :
        (x y : ℕ) → x < grid_width → y < grid_height → grid_get result.0 x y ≡ tape g b (n + x) y
    pub buffer : result.1 ≡ record b { pos = n % b.width }

  module _ (isb : IsGrid b.width grid_height b.grid) (wide : grid_width < b.width) where
    Shifted-Window :
        (n : ℕ) (h : Grid) (r : Grid × Buffer)
        → Window n (h, record b { pos = n % b.width })
        → Shifted h (record b { pos = n % b.width }) r
        → Window (suc n) r
    Shifted-Window n h r w sh = record { map = sh.grid; shows = shows; buffer = at }
      where
        within : n % b.width < b.width
        within = omega arith

        at : r.1 ≡ record b { pos = suc n % b.width }
        at =
            sh.buffer
            ∙ ap (λ p. record b { pos = p }) (next_pos-mod (n % b.width) b.width wide within ∙ step)
          where
            step : (n % b.width + 1) % b.width ≡ suc n % b.width
            step = rw mod-add-mod (ap (λ k. k % b.width) (omega arith))

        shows :
            (x y : ℕ) → x < grid_width → y < grid_height → grid_get r.0 x y ≡ tape g b (suc n + x) y
        shows x y hx hy = elim (dec_lt x (grid_width - 1)) [
          | yes lt ↦
              sh.moved x y lt hy
              ∙ w.shows (x + 1) y (omega arith) hy
              ∙ ap (λ t. tape g b t y) (omega arith)
          | no edge ↦
              let last : x ≡ grid_width - 1 = omega arith in
              let column : (suc n + (grid_width - 1) - grid_width) % b.width ≡ n % b.width =
                ap (λ k. k % b.width) (omega arith) in
              rw (last, tape-behind (suc n + (grid_width - 1)) y (omega arith), column)
                (sh.right y hy ∙ incoming-inside h (record b { pos = n % b.width }) y within)
        ]

    onward :
        (n : ℕ) (h : Grid) (b' : Buffer)
        → Window n (h, b')
        → Returns (Window (suc n)) (shift_columns h b')
    onward n h b' w = rw w.buffer (
        Returns-mono (shift_columns-Shifted h w.map (record b { pos = n % b.width }) isb)
          λ r sh. Shifted-Window n h r (rw (← w.buffer) w) sh)

    -- A whole map and a buffer that is wider than the map, at its start, show the tape's window at
    -- column `n` after `n` frames.
    pub scroll-Window :
        (n : ℕ) → IsGrid grid_width grid_height g → b.pos ≡ 0 → Returns (Window n) (scroll n g b)
    unfolding scroll
    scroll-Window zero is start = returns (record {
      map = is;
      shows = λ x y hx hy. rw add.zero (sym (tape-front x y hx));
      buffer = ap (λ p. record b { pos = p }) (start ∙ sym (zero-mod b.width));
    })
    scroll-Window (suc n) is start =
        Returns-bind (scroll-Window n is start) λ (h, b') w. onward n h b' w
