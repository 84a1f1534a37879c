-- ===== src/Csv/Parsers/Tests.antt =====
-- The theorems on src/utils/csv.c on the lines of a layout.
use c_client.Prelude.{
  ◌≡◌, refl, inr, false, none, some, List, [], ◌∷◌, arith, true, codes, c_string,
}
use c_client.Csv.{Bytes, step}
use c_client.Csv.Parsers.{
  Parser, Files, csv_parser_new, csv_parser_new_from_string, csv_parser_get_row,
}
use c_client.Csv.Chars.{IsPlain}
use c_client.Csv.Ends.{IsDelimiter}
use c_client.Csv.RoundTrip.{Cell, bare, wrapped, write_row}
use c_client.Csv.Parsers.Rows.{
  Reads, csv_parser_get_row-write_row, ReadsString, csv_parser_get_row-again,
}

-- The first field of each line but the last one; the last one is in quotes, with a quote in it.
abbrev cells : List Cell
cells = bare (codes "7") ∷ wrapped (codes "b\" c") ∷ []

abbrev layout : Bytes
layout = codes "0 7 \"b\"\" c\"\n1 2 3\n"

-- Every file has the same contents.
abbrev files : Files
files = record {
  fopen = λ path. some layout;
  strerror = [];
  row_memory = true;
  field_memory = true;
  pixel_memory = true;
}

abbrev parser : Parser
parser = record {
  path = some (codes "layout");
  delimiter = b' ';
  err_msg = none;
  file = none;
  from_string = false;
  csv_string = none;
  iter = 0;
}

parser_lem : csv_parser_new (some (codes "layout")) (some (codes " ")) ≡ parser
unfolding csv_parser_new
parser_lem = refl

space : IsDelimiter b' '
space = record {
  ne_quote = λ e. omega arith;
  ne_newline = λ e. omega arith;
  ne_return = λ e. omega arith;
}

parser-Reads : Reads files parser layout
parser-Reads = record {
  name = codes "layout";
  path = refl;
  of_file = refl;
  delimiter = space;
  ne_nul = λ e. omega arith;
  memory = record { row_memory = refl; field_memory = refl; pixel_memory = refl };
  left = inr (refl, refl);
}

zero-IsPlain : IsPlain b' ' b'0'
zero-IsPlain = record {
  ne_delimiter = λ e. omega arith;
  ne_newline = λ e. omega arith;
  ne_return = λ e. omega arith;
  ne_quote = λ e. omega arith;
  ne_nul = λ e. omega arith;
}

seven-IsPlain : IsPlain b' ' b'7'
seven-IsPlain = record {
  ne_delimiter = λ e. omega arith;
  ne_newline = λ e. omega arith;
  ne_return = λ e. omega arith;
  ne_quote = λ e. omega arith;
  ne_nul = λ e. omega arith;
}

csv_parser_get_row-write_row_example :
    csv_parser_get_row files parser
    ≡ some (
      some (codes "0" ∷ codes "7" ∷ codes "b\" c" ∷ []),
      record parser { file = some (codes "1 2 3\n") },
    )
unfolding write_row
csv_parser_get_row-write_row_example =
    csv_parser_get_row-write_row files parser (bare (codes "0")) cells (codes "1 2 3\n")
      parser-Reads (zero-IsPlain, tt)
      (
        (seven-IsPlain, tt),
        (
          (
            (omega arith, (omega arith, (omega arith, (omega arith, tt)))),
            (omega arith, (omega arith, (omega arith, (omega arith, tt)))),
          ),
          tt,
        ),
      )

-- A parser of a line, from which the line was read.
abbrev line_read : Parser
line_read = record (csv_parser_new_from_string (some (codes "a,b\n")) none) { iter = 4 }

abbrev past_line : Parser
past_line = record line_read { err_msg = some (codes "Reached EOF"); iter = 5 }

first_row :
    csv_parser_get_row files (csv_parser_new_from_string (some (codes "a,b\n")) none)
    ≡ some (some (codes "a" ∷ codes "b" ∷ []), line_read)
unfolding csv_parser_get_row csv_parser_new_from_string step c_string
first_row = refl

line_read-past_line : csv_parser_get_row files line_read ≡ some (none, past_line)
unfolding csv_parser_get_row csv_parser_new_from_string step c_string
line_read-past_line = refl

line_read-ReadsString : ReadsString files line_read (codes "a,b\n")
unfolding csv_parser_new_from_string
line_read-ReadsString = record { of_string = refl; held = refl; ne_nul = λ e. omega arith }

csv_parser_get_row-again_example : csv_parser_get_row files past_line ≡ none
csv_parser_get_row-again_example =
    csv_parser_get_row-again files line_read past_line (codes "a,b\n") line_read-ReadsString
      line_read-past_line

-- A quoted field with a delimiter in it, and then the end of the file.
quoted_at_end :
    csv_parser_get_row files (record parser { file = some (codes "\"a b\"") })
    ≡ some (some (codes "a b" ∷ []), record parser { file = some [] })
unfolding csv_parser_get_row step c_string
quoted_at_end = refl

-- An opening quote at the end of the file: the terminator is written in front of the field.
open_quote_fault : csv_parser_get_row files (record parser { file = some (codes "a \"") }) ≡ none
unfolding csv_parser_get_row step
open_quote_fault = refl
