-- ===== src/Weather/Place.antt =====
-- The place of `temp_timelapse_get_pixel` in the file.
use native.Mathlib.Decide.{dec_lt}
use c_client.Prelude.{
  ℕ, suc, ◌*◌, ◌%◌, ◌<◌, ◌≤◌, ◌≡◌, refl, ap, ◌∙◌, true, false, some, List, [], ◌++◌, ◌∷◌, arith,
  length, length-set, set, drop, drop-get_elem?, drop-length, get_elem?, get_elem?-some, ◌==◌,
  if◌then◌else◌,
}
use c_client.Prelude.Int.{ℤ, pos}
use c_client.Extension.{Double, Pixel}
use c_client.Floats.{Floats}
use c_client.Process.{Ends, Ends-of_eq}
use c_client.Weather.{Bytes, Weather, temp_timelapse_get_pixel}
use c_client.Weather.Palette.{set_temp_pixel_colour}
use c_client.Weather.Lines.{
  TempLine, IsTempLine, write_line, write_lines, value_text, temp_timelapse_get_pixel-line,
  temp_timelapse_get_pixel-ended,
}

module _ (fl : Floats) (atof : Bytes → Double) (ls : List TempLine) where
  -- Whole passes over the positions in their order, one at least, with temperatures that have a colour.
  pub record AreTemps : Type 0 where
    pub passes : ℕ
    pub size : length ls ≡ 471 * passes
    pub some_pass : 1 ≤ passes
    pub loc : (p : ℕ) (l : TempLine) → get_elem? ls p ≡ some l → l.loc ≡ p % 471
    pub lines : (p : ℕ) (l : TempLine) → get_elem? ls p ≡ some l → IsTempLine l
    pub colours :
        (p : ℕ) (l : TempLine)
        → get_elem? ls p ≡ some l
        → (pixel : Pixel) × (set_temp_pixel_colour fl (atof (value_text l)) ≡ some pixel)

  -- The line after the one at a place: the first line is passed when the file begins again.
  abbrev pub next : ℕ → ℕ
  next p = if p == length ls then 1 else suc p

  pub record InStep (p : ℕ) (w : Weather) : Type 0 where
    pub content : w.content ≡ write_lines ls
    pub left : w.temp_file ≡ write_lines (drop p ls)
    pub bound : p ≤ length ls
    pub frame : length w.frame ≡ 471

  pub InStep-same :
      (p : ℕ) (w w' : Weather)
      → InStep p w
      → w'.content ≡ w.content
      → w'.temp_file ≡ w.temp_file
      → w'.frame ≡ w.frame
      → InStep p w'
  InStep-same p w w' step content left frame = record {
    content = content ∙ step.content;
    left = left ∙ step.left;
    bound = step.bound;
    frame = ap length frame ∙ step.frame;
  }

  -- The pixel at `i` has the colour of the line at the place, and the others stay; at the end all stay.
  pub record Painted (p i : ℕ) (old new : List Pixel) : Type 0 where
    pub painted :
        p < length ls
        → (l : TempLine) × (pixel : Pixel) × (get_elem? ls p ≡ some l)
          × (set_temp_pixel_colour fl (atof (value_text l)) ≡ some pixel)
          × (new ≡ set old i pixel)
    pub kept : p ≡ length ls → new ≡ old

  module _ (are : AreTemps) (p i : ℕ) (w : Weather) (before : InStep p w) where
    -- What getting the pixel leaves.
    pub record Passed (result : ℤ × Weather) : Type 0 where
      pub code : result.0 ≡ pos 0
      pub painted : Painted p i w.frame result.1.frame
      pub step : InStep (next p) result.1
      pub frame_no : result.1.frame_no ≡ w.frame_no
      pub client : result.1.client ≡ w.client

    get_pixel-line :
        p < length ls → i ≡ p % 471 → Ends Passed (temp_timelapse_get_pixel fl atof i w)
    unfolding write_lines
    get_pixel-line more turn =
        let (l, at) = get_elem?-some ls p more in
        let (pixel, colour) = are.colours p l at in
        let rest = write_lines (drop (suc p) ls) in
        let here : w.temp_file ≡ write_line l [] ++ (b'\n' ∷ rest) =
          before.left ∙ ap write_lines (drop-get_elem? ls p l at) in
        let inner : (p == length ls) ≡ false = ground arith in
        Ends-of_eq
          (temp_timelapse_get_pixel-line l (are.lines p l at) fl atof w rest i pixel here
            (are.loc p l at ∙ omega (arith, turn)) colour (omega (arith, turn, before.frame)))
          (record {
            code = refl;
            painted = record {
              painted = λ _. (l, pixel, at, colour, refl);
              kept = λ ended. absurd (omega arith);
            };
            step = record {
              content = before.content;
              left = rw inner refl;
              bound = rw inner (omega arith);
              frame = length-set w.frame i pixel ∙ before.frame;
            };
            frame_no = refl;
            client = refl;
          })

    get_pixel-ended : p ≡ length ls → Ends Passed (temp_timelapse_get_pixel fl atof i w)
    unfolding write_lines
    get_pixel-ended ended =
        let (l, at) = get_elem?-some ls 0 (omega (arith, are.size, are.some_pass)) in
        let rest = write_lines (drop 1 ls) in
        let first : w.content ≡ write_line l [] ++ (b'\n' ∷ rest) =
          before.content ∙ ap write_lines (drop-get_elem? ls 0 l at) in
        let over : w.temp_file ≡ [] =
          before.left ∙ ap write_lines (drop-length p ls (omega (arith, ended))) in
        let last : (p == length ls) ≡ true = ground arith in
        Ends-of_eq (temp_timelapse_get_pixel-ended l (are.lines 0 l at) fl atof w rest i over first)
          (record {
            code = refl;
            painted = record { painted = λ more. absurd (omega arith); kept = λ _. refl };
            step = record {
              content = before.content;
              left = rw last refl;
              bound = rw last (omega (arith, are.size, are.some_pass));
              frame = before.frame;
            };
            frame_no = refl;
            client = refl;
          })

    pub get_pixel-Passed : i ≡ p % 471 → Ends Passed (temp_timelapse_get_pixel fl atof i w)
    get_pixel-Passed turn = elim (dec_lt p (length ls)) [
      | yes more ↦ get_pixel-line more turn
      | no ended ↦ get_pixel-ended (omega (arith, before.bound))
    ]
