-- ===== src/Csv/Parsers.antt =====
-- src/utils/csv.c: the parsers of files and of strings, and a call of `csv_parser_getRow`.
pub mod Rows
mod Tests
use c_client.Prelude.{
  ℕ, zero, suc, ◌+◌, ◌-◌, ◌*◌, ◌%◌, Bool, true, false, not, ◌&&◌, ◌||◌, Option, none, some, List,
  [], ◌∷◌, ◌++◌, length, take, drop, ltb, ◌==◌, if◌then◌else◌, ◌>>=◌, codes, c_string,
}
use c_client.Csv.{
  Bytes, quote, newline, carriage_return, fresh_row, Scan, got_row, last_row, reached_eof, scan_row,
}

-- `csv_parser_t`. An open file is what is left of it. `iter` is `csv_stringIter`, which counts for a
-- string alone, and no string has a NUL.
pub record Parser : Type 0 where
  pub path : Option Bytes
  pub delimiter : ℕ
  pub err_msg : Option Bytes
  pub file : Option Bytes
  pub from_string : Bool
  pub csv_string : Option Bytes
  pub iter : ℕ

delimiter_is_accepted : ℕ → Bool
delimiter_is_accepted c = not (c == newline || c == carriage_return || c == 0 || c == quote)

-- The first character of a string, its NUL if it is empty.
abbrev first_char : Bytes → ℕ
first_char [] = 0
first_char (c ∷ cs) = c

chosen_delimiter : Option Bytes → ℕ
unfolding delimiter_is_accepted
chosen_delimiter none = b','
chosen_delimiter (some d) = if delimiter_is_accepted (first_char d) then first_char d else 0

unfoldable pub csv_parser_new : Option Bytes → Option Bytes → Parser
unfolding chosen_delimiter
csv_parser_new path delimiter = record {
  path = path;
  delimiter = chosen_delimiter delimiter;
  err_msg = none;
  file = none;
  from_string = false;
  csv_string = none;
  iter = 0;
}

unfoldable pub csv_parser_new_from_string : Option Bytes → Option Bytes → Parser
unfolding csv_parser_new
csv_parser_new_from_string csv_string delimiter = record (csv_parser_new none delimiter) {
  from_string = true;
  csv_string = csv_string;
}

-- csv_parser_setErrorMessage
abbrev pub set_error : Bytes → Parser → Parser
set_error message p = record p { err_msg = some message }

abbrev pub Result : Type 0
Result = Option (Option (List Bytes) × Parser)

failed : Bytes → Parser → Result
failed message p = some (none, set_error message p)

abbrev eof_message : Bytes
eof_message = codes "Reached EOF"

-- After a scan of a file.
file_result : Parser → Option Scan → Result
unfolding failed
file_result p none = none
file_result p (some (got_row fields rest)) = some (some fields, record p { file = some rest })
file_result p (some (last_row fields)) = some (some fields, record p { file = some [] })
file_result p (some reached_eof) = failed eof_message (record p { file = some [] })

-- After a scan of a string from an index on, whose end lies at `len`. The terminator is passed over.
pub string_result : Parser → ℕ → Option Scan → Result
unfolding failed
string_result p len none = none
string_result p len (some (got_row fields rest)) =
    some (some fields, record p { iter = len - length rest })
string_result p len (some (last_row fields)) = some (some fields, record p { iter = len + 1 })
string_result p len (some reached_eof) = failed eof_message (record p { iter = len + 1 })

-- The files of the system, `strerror` after a failed `fopen`, and whether there is memory for a row,
-- for its fields and their characters, and for a pixel of the layout with its element of the list, in
-- a whole run.
pub record Files : Type 0 where
  pub fopen : Bytes → Option Bytes
  pub strerror : Bytes
  pub row_memory : Bool
  pub field_memory : Bool
  pub pixel_memory : Bool

abbrev is_null : Option Bytes → Bool
is_null none = true
is_null (some t) = false

module _ (fs : Files) where
  -- The row is written at once, and its array and characters when a field ends; NULL is not tested.
  allocated : Option Scan → Option Scan
  allocated none = none
  allocated (some reached_eof) = if fs.row_memory then some reached_eof else none
  allocated (some s) = if fs.row_memory && fs.field_memory then some s else none

  open_error : Bytes → Bytes
  open_error path =
      codes "Error opening CSV file for reading: " ++ (path ++ (codes " : " ++ fs.strerror))

  row_of_file : Bytes → Parser → Result
  unfolding file_result scan_row open_error failed allocated
  row_of_file path p = elim p.file [
    | some rest ↦ file_result p (allocated (scan_row p.delimiter fresh_row rest))
    | none ↦ elim (fs.fopen path) [
      | none ↦ failed (open_error path) p
      | some content ↦ file_result p (allocated (scan_row p.delimiter fresh_row content))
    ]
  ]

  -- The read of a string that is past its terminator is out of bounds.
  row_of_string : Bytes → Parser → Result
  unfolding string_result scan_row allocated
  row_of_string text p =
      if ltb (length text) p.iter
      then none
      else string_result p (length text)
          (allocated (scan_row p.delimiter fresh_row (drop p.iter text)))

  row_of : Option Bytes → Option Bytes → Parser → Result
  unfolding row_of_file row_of_string failed
  row_of path text p =
      if p.delimiter == 0
      then failed (codes "Supplied delimiter is not supported") p
      else if p.from_string
      then elim text [ none ↦ none | some t ↦ row_of_string t p ]
      else elim path [ none ↦ none | some f ↦ row_of_file f p ]

  unfoldable pub csv_parser_get_row : Parser → Result
  unfolding row_of failed
  csv_parser_get_row p =
      if is_null p.path && not p.from_string
      then failed (codes "Supplied CSV file path is NULL") p
      else if is_null p.csv_string && p.from_string
      then failed (codes "Supplied CSV string is NULL") p
      else row_of p.path p.csv_string p
