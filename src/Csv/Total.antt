-- ===== src/Csv/Total.antt =====
-- `csv_parser_getRow` on texts that end in a newline.
use mathlib.Core.Bool.{false≢true}
use c_client.Prelude.{
  ℕ, ◌<◌, ◌≡◌, refl, ◌≢◌, sym, ◌∙◌, inl, inr, true, false, not, ◌&&◌, some, [], ◌∷◌, arith, length,
  ◌==◌, Returns, returns, Returns-bind, Bool-cases,
}
use c_client.Csv.{
  Bytes, quote, newline, Building, Step, next, row, step, Scan, got_row, last_row, reached_eof,
  at_end, scan_row,
}
use c_client.Csv.Bounds.{
  Sound, note_char-Noted, field_end-some, finish_field-IsRow, IsRow, After, step-After,
}

-- What ends in a newline, or is empty.
abbrev pub Lines : Bytes → Type 0
Lines [] = Unit {0}
Lines (c ∷ []) = c ≡ newline
Lines (c ∷ d ∷ cs) = Lines (d ∷ cs)

Lines-rest : (c : ℕ) (cs : Bytes) → Lines (c ∷ cs) → Lines cs
Lines-rest c [] lines = tt
Lines-rest c (d ∷ cs) lines = lines

Lines-last : (c : ℕ) (cs : Bytes) → Lines (c ∷ cs) → cs ≡ [] → c ≡ newline
Lines-last c [] lines e = lines
Lines-last c (d ∷ cs) lines e = cc

-- A row of at least one field, and again lines; or the end of the input.
abbrev pub Scanned : Scan → Type 0
Scanned (got_row fields rest) = (0 < length fields) × Lines rest
Scanned (last_row fields) = 0 < length fields
Scanned reached_eof = Unit {0}

-- At the end of the input the round ends the row.
step-eof :
    (delimiter : ℕ) (r : Building)
    → Sound r
    → r.last_quote ≡ false
    → Returns IsRow (step delimiter true newline r)
unfolding step
step-eof delimiter r s plain =
    let opens : ((length r.field == 0 && not r.last_quote) && newline == quote) ≡ false =
      ground arith in
    rw opens (
      Returns-bind (note_char-Noted newline r s) λ n noted.
        let closed = λ (last : n.last_quote ≡ true).
          absurd (false≢true (sym (noted.last_quote ∙ plain) ∙ last)) in
        let (end, at) = field_end-some n closed in finish_field-IsRow newline r n s noted end at)

at_end-Scanned :
    (delimiter : ℕ) (r : Building)
    → Sound r
    → r.last_quote ≡ false
    → Returns Scanned (at_end delimiter r)
unfolding at_end
at_end-Scanned delimiter r s plain =
    elim (Bool-cases (length r.field == 0 && length r.fields == 0)) [
      | inl nothing ↦ rw nothing (returns tt)
      | inr more ↦
          rw more (
            Returns-bind (step-eof delimiter r s plain) λ st (fields, e, size). rw e (returns size))
    ]

pub scan_row-Scanned :
    (delimiter : ℕ) (r : Building) (text : Bytes)
    → delimiter ≢ quote
    → Sound r
    → Lines text
    → ((text ≡ []) → r.last_quote ≡ false)
    → Returns Scanned (scan_row delimiter r text)
unfolding scan_row
scan_row-Scanned delimiter r [] accepted s lines plain = at_end-Scanned delimiter r s (plain refl)
scan_row-Scanned delimiter r (c ∷ cs) accepted s lines plain =
    Returns-bind (step-After delimiter c r accepted s) (
      rest
        λ r' s' plain'. scan_row-Scanned delimiter r' cs accepted s' (Lines-rest c cs lines) plain')
  where
    rest :
        ((r' : Building)
          → Sound r'
          → (cs ≡ [] → r'.last_quote ≡ false)
          → Returns Scanned (scan_row delimiter r' cs))
        → (st : Step) → After c st
        → Returns Scanned
            (elim st [ row fields ↦ some (got_row fields cs) | next r' ↦ scan_row delimiter r' cs ])
    rest ih (row fields) size = returns (size, Lines-rest c cs lines)
    rest ih (next r') (s', plain') = ih r' s' λ e. plain' (Lines-last c cs lines e)
