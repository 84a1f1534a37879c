-- ===== src/Weather/Lines.antt =====
-- The lines of the file of temperatures, read back by `temp_timelapse_get_pixel`.
use c_client.Prelude.{
  ℕ, ◌^◌, ◌<◌, ◌≡◌, refl, ◌≢◌, ap, ◌∙◌, false, none, some, List, [], ◌∷◌, ◌++◌, append_assoc, arith,
  length, set, ◌==◌, lt→ltb, store,
}
use c_client.Prelude.Int.{pos, eq_ℤ_refl}
use c_client.Extension.{Double, Pixel}
use c_client.Strtol.Decimal.{Stops-nil}
use c_client.Strtol.Atoi.{write_number, atoi-write_number}
use c_client.Strings.{split, strtok, fgets}
use c_client.Strings.Tokens.{
  NotDigit, strtok-write_number, strtok-head, Avoids, Avoids-write_number, write_number-append,
  fgets-line, c_string-Avoids,
}
use c_client.Floats.{Floats}
use c_client.Process.{ok}
use c_client.Weather.{Bytes, Weather, set_pixel, parse_temp, rewound, temp_timelapse_get_pixel}
use c_client.Weather.Palette.{set_temp_pixel_colour}

-- A line: a position, and a temperature as it is written.
pub record TempLine : Type 0 where
  pub loc : ℕ
  pub value : Bytes

unfoldable pub write_line : TempLine → Bytes → Bytes
write_line l rest = write_number l.loc (b' ' ∷ (l.value ++ rest))

-- The text of a file of such lines.
unfoldable pub write_lines : List TempLine → Bytes
write_lines [] = []
write_lines (l ∷ ls) = write_line l [] ++ (b'\n' ∷ write_lines ls)

-- A line that fits into the buffer of 50 characters.
pub record IsTempLine (l : TempLine) : Type 0 where
  pub loc : l.loc < 2 ^ 31
  pub one_line : Avoids b'\n' l.value
  pub one_token : Avoids b' ' l.value
  pub no_nul : Avoids 0 l.value
  pub fits : length (write_line l []) < 49

-- What atof is given.
abbrev pub value_text : TempLine → Bytes
value_text l = l.value ++ (b'\n' ∷ [])

Avoids-append : (d : ℕ) (a b : Bytes) → Avoids d a → Avoids d b → Avoids d (a ++ b)
Avoids-append d [] b h h' = h'
Avoids-append d (c ∷ cs) b h h' = (h.0, Avoids-append d cs b h.1 h')

split-Avoids : (d : ℕ) (text : Bytes) → Avoids d text → split d text ≡ (text, [])
unfolding split
split-Avoids d [] h = refl
split-Avoids d (c ∷ cs) h =
    let plain : (c == d) ≡ false = ground (arith, h.0) in rw (plain, split-Avoids d cs h.1) refl

-- The last token.
strtok-Avoids : (d c : ℕ) (cs : Bytes) → Avoids d (c ∷ cs) → strtok d (c ∷ cs) ≡ some (c ∷ cs, [])
strtok-Avoids d c cs h = strtok-head d c cs h.0 ∙ ap some (split-Avoids d (c ∷ cs) h)

strtok-line :
    (d : ℕ) (v : Bytes)
    → b'\n' ≢ d
    → Avoids d v
    → strtok d (v ++ (b'\n' ∷ [])) ≡ some (v ++ (b'\n' ∷ []), [])
strtok-line d [] ne h = strtok-Avoids d b'\n' [] (ne, tt)
strtok-line d (c ∷ cs) ne h =
    strtok-Avoids d c (cs ++ (b'\n' ∷ [])) (h.0, Avoids-append d cs (b'\n' ∷ []) h.1 (ne, tt))

split-space : (rest : Bytes) → split b' ' (b' ' ∷ rest) ≡ ([], rest)
unfolding split
split-space rest = refl

space-NotDigit : NotDigit b' '
space-NotDigit n small = λ e. omega arith

fgets-nil : fgets 50 [] ≡ none
unfolding fgets
fgets-nil = refl

rewound-first :
    (w : Weather) (line rest : Bytes)
    → fgets 50 w.content ≡ some (line, rest)
    → rewound w ≡ record w { temp_file = rest }
unfolding rewound
rewound-first w line rest got = rw (rewound, got) refl

pub set_pixel-inside :
    (i : ℕ) (pixel : Pixel) (w : Weather)
    → i < length w.frame
    → set_pixel i pixel w ≡ ok (tt, record w { frame = set w.frame i pixel })
unfolding set_pixel store
set_pixel-inside i pixel w inside = rw (set_pixel, lt→ltb i (length w.frame) inside) refl

module _ (l : TempLine) (is : IsTempLine l) where
  -- A line is read back.
  parse_temp-write_line :
      (atof : Bytes → Double)
      → parse_temp atof (write_line l (b'\n' ∷ [])) ≡ some (pos l.loc, atof (value_text l))
  unfolding parse_temp write_line
  parse_temp-write_line atof =
      rw
        (
          parse_temp,
          strtok-write_number b' ' l.loc (b' ' ∷ value_text l) [] (value_text l) space-NotDigit
              (split-space (value_text l)),
          strtok-line b' ' l.value (λ e. omega arith) is.one_token,
          atoi-write_number l.loc [] Stops-nil is.loc,
        )
        refl

  Avoids-write_line :
      (d : ℕ) (rest : Bytes)
      → NotDigit d
      → b' ' ≢ d
      → Avoids d l.value
      → Avoids d rest
      → Avoids d (write_line l rest)
  unfolding write_line
  Avoids-write_line d rest other space value h =
      Avoids-write_number d l.loc _ other (space, Avoids-append d l.value rest value h)

  write_line-append : (a rest : Bytes) → write_line l a ++ rest ≡ write_line l (a ++ rest)
  unfolding write_line
  write_line-append a rest = simp (write_number-append, append_assoc)

  -- The next line of a text.
  pub fgets-write_line :
      (rest : Bytes)
      → fgets 50 (write_line l [] ++ (b'\n' ∷ rest)) ≡ some (write_line l (b'\n' ∷ []), rest)
  fgets-write_line rest =
      let one_line =
        Avoids-write_line b'\n' [] (λ n small e. omega arith) (λ e. omega arith) is.one_line tt in
      fgets-line 50 (write_line l []) rest one_line (omega (arith, is.fits))
      ∙ ap (λ t. some (t, rest)) (write_line-append [] (b'\n' ∷ []))

  module _ (fl : Floats) (atof : Bytes → Double) (w : Weather) where
    -- The line of the pixel: the colour of its temperature is stored, and the line passed.
    pub temp_timelapse_get_pixel-line :
        (rest : Bytes) (i : ℕ) (pixel : Pixel)
        → w.temp_file ≡ write_line l [] ++ (b'\n' ∷ rest)
        → l.loc ≡ i
        → set_temp_pixel_colour fl (atof (value_text l)) ≡ some pixel
        → i < length w.frame
        → temp_timelapse_get_pixel fl atof i w
          ≡ ok (pos 0, record w { temp_file = rest; frame = set w.frame i pixel })
    unfolding temp_timelapse_get_pixel
    temp_timelapse_get_pixel-line rest i pixel here loc colour inside =
        let got : fgets 50 w.temp_file ≡ some (write_line l (b'\n' ∷ []), rest) =
          ap (fgets 50) here ∙ fgets-write_line rest in
        let no_nul =
          Avoids-write_line 0 (b'\n' ∷ []) (λ n small e. omega arith) (λ e. omega arith) is.no_nul
            ((λ e. omega arith), tt) in
        rw
          (
            temp_timelapse_get_pixel,
            got,
            c_string-Avoids (write_line l (b'\n' ∷ [])) no_nul,
            parse_temp-write_line atof,
            loc,
            eq_ℤ_refl (pos i),
            colour,
            set_pixel-inside i pixel (record w { temp_file = rest }) inside,
          )
          refl

    -- At the end of the file the first line is passed, and no pixel stored.
    pub temp_timelapse_get_pixel-ended :
        (rest : Bytes) (i : ℕ)
        → w.temp_file ≡ []
        → w.content ≡ write_line l [] ++ (b'\n' ∷ rest)
        → temp_timelapse_get_pixel fl atof i w ≡ ok (pos 0, record w { temp_file = rest })
    unfolding temp_timelapse_get_pixel
    temp_timelapse_get_pixel-ended rest i ended first =
        let line = write_line l (b'\n' ∷ []) in
        let got : fgets 50 w.content ≡ some (line, rest) =
          ap (fgets 50) first ∙ fgets-write_line rest in
        let nothing : fgets 50 w.temp_file ≡ none = ap (fgets 50) ended ∙ fgets-nil in
        rw (temp_timelapse_get_pixel, nothing, rewound-first w line rest got) refl
