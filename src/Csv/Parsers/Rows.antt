-- ===== src/Csv/Parsers/Rows.antt =====
-- Calls of `csv_parser_getRow`.
use mathlib.Core.Bool.{and-false}
use mathlib.Core.Path.{subst}
use c_client.Prelude.{
  ℕ, ◌+◌, ◌<◌, ◌≡◌, refl, ◌≢◌, ap, sym, ◌∙◌, ◌⊎◌, inl, inr, true, false, Option, none, some, List,
  [], ◌∷◌, map, arith, length, ltb, ltb, lt→ltb, ltb, drop, if◌then◌else◌, Bool, ◌==◌, Returns,
  returns, Returns-value,
}
use c_client.Csv.{Bytes, fresh_row, Scan, got_row, last_row, reached_eof, scan_row}
use c_client.Csv.Parsers.{
  Parser, Files, file_result, string_result, allocated, row_of_file, row_of_string, row_of,
  csv_parser_get_row, set_error, eof_message, failed,
}
use c_client.Csv.Total.{Lines, Scanned, scan_row-Scanned}
use c_client.Csv.RoundTrip.{
  Cell, text_of, write_row, IsWritable, AllWritable, fresh_row-Plain, scan_row-write_row,
}
use c_client.Csv.Ends.{IsDelimiter}

module _ (fs : Files) where
  -- What is allocated is there.
  pub record HasMemory : Type 0 where
    pub row_memory : fs.row_memory ≡ true
    pub field_memory : fs.field_memory ≡ true
    pub pixel_memory : fs.pixel_memory ≡ true

  -- The parser of a file of which this content is left; the first call opens the file, and there is
  -- memory.
  pub record Reads (p : Parser) (content : Bytes) : Type 0 where
    pub name : Bytes
    pub path : p.path ≡ some name
    pub of_file : p.from_string ≡ false
    pub delimiter : IsDelimiter p.delimiter
    pub ne_nul : p.delimiter ≢ 0
    pub memory : HasMemory
    pub left : (p.file ≡ some content) ⊎ ((p.file ≡ none) × (fs.fopen name ≡ some content))

  allocated-enough : (s : Option Scan) → HasMemory → allocated fs s ≡ s
  unfolding allocated
  allocated-enough none memory = refl
  allocated-enough (some reached_eof) memory = rw memory.row_memory refl
  allocated-enough (some (got_row r rest)) memory = rw (memory.row_memory, memory.field_memory) refl
  allocated-enough (some (last_row r)) memory = rw (memory.row_memory, memory.field_memory) refl

  row_of_file-Reads :
      (p : Parser) (content : Bytes) (r : Reads p content)
      → row_of_file fs r.name p ≡ file_result p (scan_row p.delimiter fresh_row content)
  unfolding row_of_file
  row_of_file-Reads p content r =
      let enough = allocated-enough (scan_row p.delimiter fresh_row content) r.memory in
      elim r.left [
        | inl open_file ↦ simp (open_file, row_of_file, enough)
        | inr (closed, opens) ↦ simp (closed, opens, row_of_file, enough)
      ]

  csv_parser_get_row-Reads :
      (p : Parser) (content : Bytes)
      → Reads p content
      → csv_parser_get_row fs p ≡ file_result p (scan_row p.delimiter fresh_row content)
  unfolding csv_parser_get_row row_of
  csv_parser_get_row-Reads p content r =
      let supported : (p.delimiter == 0) ≡ false = ground (arith, r.ne_nul) in
      simp (r.path, r.of_file, and-false, supported) (row_of_file-Reads p content r)

  -- At the end of the file.
  pub csv_parser_get_row-empty :
      (p : Parser)
      → Reads p []
      → csv_parser_get_row fs p ≡ some (none, set_error eof_message (record p { file = some [] }))
  unfolding file_result scan_row failed
  csv_parser_get_row-empty p r = csv_parser_get_row-Reads p [] r

  -- What a call leaves of a file that holds lines: a row of at least one field, and lines again; or
  -- the end of the file.
  pub record Advanced (p : Parser) (result : Option (List Bytes) × Parser) : Type 0 where
    pub rest : Bytes
    pub lines : Lines rest
    pub left : result.1.file ≡ some rest
    pub path : result.1.path ≡ p.path
    pub delimiter : result.1.delimiter ≡ p.delimiter
    pub fields :
        (result.0 ≡ none) × (rest ≡ [])
        ⊎ ((row : List Bytes) × (result.0 ≡ some row) × (0 < length row))

  file_result-Advanced :
      (p : Parser) (s : Scan) → Scanned s → Returns (Advanced p) (file_result p (some s))
  unfolding file_result failed
  file_result-Advanced p (got_row row rest) (size, lines) = returns (record {
    rest = rest;
    lines = lines;
    left = refl;
    path = refl;
    delimiter = refl;
    fields = inr (row, refl, size);
  })
  file_result-Advanced p (last_row row) size = returns (record {
    rest = [];
    lines = tt;
    left = refl;
    path = refl;
    delimiter = refl;
    fields = inr (row, refl, size);
  })
  file_result-Advanced p reached_eof h = returns (record {
    rest = [];
    lines = tt;
    left = refl;
    path = refl;
    delimiter = refl;
    fields = inl (refl, refl);
  })

  -- On a file with an accepted delimiter that ends in a newline, or of which nothing is left, a call
  -- does not fault. It returns
  -- a row of at least one field, and what is left ends in a newline or is empty again; or NULL, and
  -- nothing is left.
  pub csv_parser_get_row-Advanced :
      (p : Parser) (content : Bytes)
      → Reads p content
      → Lines content
      → Returns (Advanced p) (csv_parser_get_row fs p)
  csv_parser_get_row-Advanced p content r lines =
      let (s, e, scanned) = Returns-value (
        scan_row-Scanned p.delimiter fresh_row content r.delimiter.ne_quote fresh_row-Plain.sound
          lines (λ empty. refl)) in
      subst (Returns (Advanced p))
        (sym (csv_parser_get_row-Reads p content r ∙ ap (file_result p) e))
        (file_result-Advanced p s scanned)

  -- A row of fields is written, each as it is, without delimiters, quotes and newlines, or in quotes
  -- with its quotes doubled, and none with a carriage return or a NUL. From a file with an accepted
  -- delimiter it is read back, and what follows it is left.
  pub csv_parser_get_row-write_row :
      (p : Parser) (cell : Cell) (cells : List Cell) (rest : Bytes)
      → Reads p (write_row p.delimiter cell cells rest)
      → IsWritable p.delimiter cell
      → AllWritable p.delimiter cells
      → csv_parser_get_row fs p
        ≡ some (some (map text_of (cell ∷ cells)), record p { file = some rest })
  unfolding file_result
  csv_parser_get_row-write_row p cell cells rest r ok all =
      csv_parser_get_row-Reads p (write_row p.delimiter cell cells rest) r
      ∙ ap (file_result p) (
          scan_row-write_row p.delimiter r.delimiter [] cell cells rest fresh_row ok all
            fresh_row-Plain)

  -- Behind the terminator of the string.
  row_of_string-past_end :
      (text : Bytes) (p : Parser) → p.iter ≡ length text + 1 → row_of_string fs text p ≡ none
  unfolding row_of_string
  row_of_string-past_end text p past = rw (lt→ltb (length text) p.iter (omega arith)) refl

  -- After an answer of NULL to a parser of a string the index is past the terminator.
  string_result-null :
      (p q : Parser) (len : ℕ) (s : Option Scan)
      → string_result p len s ≡ some (none, q)
      → q ≡ set_error eof_message (record p { iter = len + 1 })
  unfolding string_result failed
  string_result-null p q len none e = cc
  string_result-null p q len (some (got_row fields rest)) e = cc
  string_result-null p q len (some (last_row fields)) e = cc
  string_result-null p q len (some reached_eof) e = cc

  guarded-null :
      (p q : Parser) (len : ℕ) (s : Option Scan) (behind : Bool)
      → (if behind then none else string_result p len s) ≡ some (none, q)
      → q ≡ set_error eof_message (record p { iter = len + 1 })
  guarded-null p q len s true e = cc
  guarded-null p q len s false e = string_result-null p q len s e

  row_of_string-null :
      (text : Bytes) (p q : Parser)
      → row_of_string fs text p ≡ some (none, q)
      → q ≡ set_error eof_message (record p { iter = length text + 1 })
  unfolding row_of_string
  row_of_string-null text p q e =
      guarded-null p q (length text)
        (allocated fs (scan_row p.delimiter fresh_row (drop p.iter text)))
        (ltb (length text) p.iter) e

  -- The parser of this string, with a delimiter.
  pub record ReadsString (p : Parser) (text : Bytes) : Type 0 where
    pub of_string : p.from_string ≡ true
    pub held : p.csv_string ≡ some text
    pub ne_nul : p.delimiter ≢ 0

  csv_parser_get_row-ReadsString :
      (p : Parser) (text : Bytes)
      → ReadsString p text
      → csv_parser_get_row fs p ≡ row_of_string fs text p
  unfolding csv_parser_get_row row_of
  csv_parser_get_row-ReadsString p text r =
      let supported : (p.delimiter == 0) ≡ false = ground (arith, r.ne_nul) in
      simp (r.of_string, r.held, and-false, supported)

  -- A parser of a string, with a delimiter other than NUL, that has answered NULL at the end of the
  -- string reads behind the string when it is called again.
  pub csv_parser_get_row-again :
      (p q : Parser) (text : Bytes)
      → ReadsString p text
      → csv_parser_get_row fs p ≡ some (none, q)
      → csv_parser_get_row fs q ≡ none
  csv_parser_get_row-again p q text r answered =
      let left =
        row_of_string-null text p q (sym (csv_parser_get_row-ReadsString p text r) ∙ answered) in
      rw left (
        csv_parser_get_row-ReadsString (set_error eof_message (record p { iter = length text + 1 }))
          text (record { of_string = r.of_string; held = r.held; ne_nul = r.ne_nul })
        ∙ row_of_string-past_end text (set_error eof_message (record p { iter = length text + 1 }))
            refl)
