-- ===== src/Layout/Rows.antt =====
-- The rows of a layout file of three columns.
use mathlib.Core.Path.{subst}
use c_client.Prelude.{ℕ, ◌≡◌, refl, sym, inl, inr, none, some, List, [], ◌∷◌, map, arith, codes}
use c_client.Csv.{Bytes}
use c_client.Csv.Parsers.{Parser, Files, csv_parser_new, csv_parser_get_row}
use c_client.Csv.Ends.{IsDelimiter}
use c_client.Csv.RoundTrip.{IsWritable, AllWritable, bare, write_row}
use c_client.Csv.Parsers.Rows.{
  HasMemory, Reads, csv_parser_get_row-empty, csv_parser_get_row-write_row,
}

pub record Line : Type 0 where
  pub first : Bytes
  pub second : Bytes
  pub third : Bytes

abbrev pub fields_of : Line → List Bytes
fields_of l = l.first ∷ l.second ∷ l.third ∷ []

abbrev pub IsLine : Line → Type 0
IsLine l =
    IsWritable b' ' (bare l.first)
    × IsWritable b' ' (bare l.second)
    × IsWritable b' ' (bare l.third)

abbrev pub AllLines : List Line → Type 0
AllLines [] = Unit {0}
AllLines (l ∷ ls) = IsLine l × AllLines ls

-- The text of a file of these lines, each with a newline behind it.
unfoldable pub write_lines : List Line → Bytes
write_lines [] = []
write_lines (l ∷ ls) =
    write_row b' ' (bare l.first) (bare l.second ∷ bare l.third ∷ []) (write_lines ls)

module _ (fs : Files) where
  -- The parser returns these rows and then NULL.
  abbrev pub Yields : Parser → List (List Bytes) → Type 0
  Yields p [] = (p' : Parser) × (csv_parser_get_row fs p ≡ some (none, p'))
  Yields p (row ∷ rows) =
      (p' : Parser) × (csv_parser_get_row fs p ≡ some (some row, p')) × Yields p' rows

  Yields-nil : (p : Parser) → Reads fs p [] → Yields p []
  Yields-nil p r = (_, csv_parser_get_row-empty fs p r)

  reading : Bytes → Parser → Parser
  reading rest p = record p { file = some rest }

  Reads-rest :
      (p : Parser) (content rest : Bytes) → Reads fs p content → Reads fs (reading rest p) rest
  unfolding reading
  Reads-rest p content rest r = record {
    name = r.name;
    path = r.path;
    of_file = r.of_file;
    delimiter = r.delimiter;
    ne_nul = r.ne_nul;
    memory = r.memory;
    left = inl refl;
  }

  read_line :
      (p : Parser) (d : ℕ) (l : Line) (rest : Bytes)
      → p.delimiter ≡ d
      → Reads fs p (write_row d (bare l.first) (bare l.second ∷ bare l.third ∷ []) rest)
      → IsWritable d (bare l.first)
      → AllWritable d (bare l.second ∷ bare l.third ∷ [])
      → csv_parser_get_row fs p ≡ some (some (fields_of l), reading rest p)
  unfolding reading
  read_line p d l rest e r first others =
      let back = sym e in
      csv_parser_get_row-write_row fs p (bare l.first) (bare l.second ∷ bare l.third ∷ []) rest
        (subst
          (λ c. Reads fs p (write_row c (bare l.first) (bare l.second ∷ bare l.third ∷ []) rest))
          back r)
        (subst (λ c. IsWritable c (bare l.first)) back first)
        (subst (λ c. AllWritable c (bare l.second ∷ bare l.third ∷ [])) back others)

  pub Yields-write_lines :
      (p : Parser) (ls : List Line)
      → p.delimiter ≡ b' '
      → Reads fs p (write_lines ls)
      → AllLines ls
      → Yields p (map fields_of ls)
  unfolding write_lines reading
  Yields-write_lines p [] space r all = Yields-nil p r
  Yields-write_lines p (l ∷ ls) space r ((first, second, third), all) =
      let rest = write_lines ls in
      (
        reading rest p,
        read_line p b' ' l rest space r first (second, (third, tt)),
        Yields-write_lines (reading rest p) ls space (Reads-rest p (write_lines (l ∷ ls)) rest r)
            all,
      )

  space_IsDelimiter : IsDelimiter b' '
  space_IsDelimiter = record {
    ne_quote = λ e. omega arith;
    ne_newline = λ e. omega arith;
    ne_return = λ e. omega arith;
  }

  -- A new parser of such a file.
  pub Yields-file :
      (path : Bytes) (ls : List Line)
      → HasMemory fs
      → fs.fopen path ≡ some (write_lines ls)
      → AllLines ls
      → Yields (csv_parser_new (some path) (some (codes " "))) (map fields_of ls)
  unfolding csv_parser_new
  Yields-file path ls memory opens all =
      let p = csv_parser_new (some path) (some (codes " ")) in
      Yields-write_lines p ls refl
        (record {
          name = path;
          path = refl;
          of_file = refl;
          delimiter = space_IsDelimiter;
          ne_nul = λ e. omega arith;
          memory = memory;
          left = inr (refl, opens);
        })
        all
