-- ===== src/Csv.antt =====
-- src/utils/csv.c: the loop that reads a row.
pub mod Bounds
pub mod Total
pub mod Chars
pub mod Ends
pub mod RoundTrip
pub mod Parsers
use c_client.Prelude.{
  ℕ, zero, suc, ◌+◌, ◌-◌, ◌*◌, ◌%◌, Bool, true, false, not, ◌&&◌, ◌||◌, Option, none, some, List,
  [], ◌∷◌, ◌++◌, length, take, drop, ltb, ◌==◌, if◌then◌else◌, ◌>>=◌, codes, c_string,
}

abbrev pub Bytes : Type 0
Bytes = List ℕ

abbrev pub quote : ℕ
quote = 34

abbrev pub newline : ℕ
newline = 10

abbrev pub carriage_return : ℕ
carriage_return = 13

-- The locals of `csv_parser_getRow` that the loop changes: the fields of the row and how often their
-- array grew, the characters of the field (`currFieldCharIter` is their number) and the size of their
-- buffer, and the three flags. `series` is `seriesOfQuotesLength`.
pub record Building : Type 0 where
  pub fields : List Bytes
  pub num_row_realloc : ℕ
  pub field : Bytes
  pub accepted : ℕ
  pub inside : Bool
  pub series : ℕ
  pub last_quote : Bool

abbrev pub fresh_row : Building
fresh_row = record {
  fields = [];
  num_row_realloc = 0;
  field = [];
  accepted = 64;
  inside = false;
  series = 0;
  last_quote = false;
}

pub data Step : Type 0 where
  next : Building → Step
  row : List Bytes → Step

-- seriesOfQuotesLength % 2 == 0
abbrev pub is_even : ℕ → Bool
is_even n = n % 2 == 0

abbrev pub drop_last : Bytes → Bytes
drop_last cs = take (length cs - 1) cs

-- The branches behind the first one: a quote inside of a field, or another character. A quote that
-- follows a quote takes back the one before it, a fault if there is none.
abbrev pub note_char : ℕ → Building → Option Building
note_char c r =
    if length r.field == 0 && not r.last_quote
    then some r
    else if c == quote
    then (if is_even (r.series + 1)
        then (if length r.field == 0
            then none
            else some
                (record r { series = r.series + 1; inside = true; field = drop_last r.field }))
        else some (record r { series = r.series + 1; inside = false }))
    else some (record r { series = 0 })

-- Where the terminator is written: in front of a closing quote.
abbrev pub field_end : Building → Option ℕ
field_end r =
    if r.last_quote
    then (if length r.field == 0 then none else some (length r.field - 1))
    else some (length r.field)

abbrev pub in_bounds : ℕ → Building → Bool
in_bounds end r = ltb end r.accepted && ltb (length r.fields) ((r.num_row_realloc + 1) * 64)

-- The end of a field at the character `c`, which is a newline at the end of the row.
pub finish_field : ℕ → Building → Option Step
finish_field c r = field_end r >>= λ end.
    let fields = r.fields ++ (c_string (take end r.field) ∷ []) in
    if in_bounds end r
    then (if c == newline
        then some (row fields)
        else some (
            next (record {
              fields = fields;
              num_row_realloc =
                  if length fields % 64 == 0 then r.num_row_realloc + 1 else r.num_row_realloc;
              field = [];
              accepted = 64;
              inside = false;
              series = r.series;
              last_quote = c == quote;
            })))
    else none

pub push_char : ℕ → Building → Option Step
push_char c r =
    if ltb (length r.field) r.accepted
    then some (
        next (record r {
          field = r.field ++ (c ∷ []);
          accepted = if length r.field + 1 == r.accepted - 1 then r.accepted * 2 else r.accepted;
          last_quote = c == quote;
        }))
    else none

-- A round of the loop. `eof` is `isEndOfFile`, and `c` is a newline then.
unfoldable pub step : ℕ → Bool → ℕ → Building → Option Step
unfolding finish_field push_char
step delimiter eof c r =
    if c == carriage_return
    then some (next r)
    else if (length r.field == 0 && not r.last_quote) && c == quote
    then some (next (record r { inside = true; last_quote = true }))
    else (note_char c r >>= λ noted.
        if eof || ((c == delimiter || c == newline) && not noted.inside)
        then finish_field c noted
        else push_char c noted)

-- A row and what follows it, the last row, which the end of the input ends, or the end alone.
pub data Scan : Type 0 where
  got_row : List Bytes → Bytes → Scan
  last_row : List Bytes → Scan
  reached_eof : Scan

at_end : ℕ → Building → Option Scan
at_end delimiter r =
    if length r.field == 0 && length r.fields == 0
    then some reached_eof
    else (step delimiter true newline r >>= λ st. elim st [
      | row fields ↦ some (last_row fields)
      | next r' ↦ none
    ])

-- The loop, over the characters that are left. The end of the input ends the row in one round.
unfoldable pub scan_row : ℕ → Building → Bytes → Option Scan
unfolding at_end
scan_row delimiter r [] = at_end delimiter r
scan_row delimiter r (c ∷ cs) = step delimiter false c r >>= λ st. elim st [
  | row fields ↦ some (got_row fields cs)
  | next r' ↦ scan_row delimiter r' cs
]
