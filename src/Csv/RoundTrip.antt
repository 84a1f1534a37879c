-- ===== src/Csv/RoundTrip.antt =====
-- Rows that are written and read back.
use mathlib.Core.Path.{subst}
use mathlib.Core.Bool.{false≢true}
use c_client.Prelude.{
  ℕ, ◌≡◌, refl, ◌≢◌, not, ◌&&◌, length, ap, sym, ◌∙◌, inl, inr, true, false, some, List, [], ◌∷◌,
  ◌++◌, append-nil, append_assoc, arith, ◌==◌, if◌then◌else◌, NoNul, Bool-cases, map,
}
use c_client.Csv.{
  Bytes, quote, newline, carriage_return, Building, fresh_row, next, step, got_row, scan_row,
}
use c_client.Csv.Chars.{
  Plain, Quoted, IsPlain, StepsTo, step-Plain, step-Quoted, step-Closing, step_reopens,
}
use c_client.Csv.Ends.{Ends, IsDelimiter, Plain-Ends, Closing-Ends}

-- A field as it is written: as it is, or in quotes.
pub data Cell : Type 0 where
  bare : Bytes → Cell
  wrapped : Bytes → Cell

abbrev pub text_of : Cell → Bytes
text_of (bare text) = text
text_of (wrapped text) = text

-- A quote is written twice.
unfoldable pub escape : Bytes → Bytes
escape [] = []
escape (c ∷ cs) = let rest = escape cs in if c == quote then quote ∷ quote ∷ rest else c ∷ rest

-- A field in front of the rest of a text.
unfoldable pub write_cell : Cell → Bytes → Bytes
unfolding escape
write_cell (bare text) rest = text ++ rest
write_cell (wrapped text) rest = quote ∷ (escape text ++ (quote ∷ rest))

-- A row of at least one field, in front of the rest of a text.
unfoldable pub write_row : ℕ → Cell → List Cell → Bytes → Bytes
unfolding write_cell
write_row delimiter cell [] rest = write_cell cell (newline ∷ rest)
write_row delimiter cell (next_cell ∷ cells) rest =
    write_cell cell (delimiter ∷ write_row delimiter next_cell cells rest)

abbrev AllPlain : ℕ → Bytes → Type 0
AllPlain delimiter [] = Unit {0}
AllPlain delimiter (c ∷ cs) = IsPlain delimiter c × AllPlain delimiter cs

abbrev NoReturn : Bytes → Type 0
NoReturn [] = Unit {0}
NoReturn (c ∷ cs) = (c ≢ carriage_return) × NoReturn cs

-- A bare field has no delimiter, newline or quote; no field has a carriage return or a NUL.
abbrev pub IsWritable : ℕ → Cell → Type 0
IsWritable delimiter (bare text) = AllPlain delimiter text
IsWritable delimiter (wrapped text) = NoNul text × NoReturn text

abbrev pub AllWritable : ℕ → List Cell → Type 0
AllWritable delimiter [] = Unit {0}
AllWritable delimiter (cell ∷ cells) = IsWritable delimiter cell × AllWritable delimiter cells

module _ (delimiter : ℕ) (d : IsDelimiter delimiter) where
  scan_row-next :
      (c : ℕ) (r r' : Building) (cs : Bytes)
      → step delimiter false c r ≡ some (next r')
      → scan_row delimiter r (c ∷ cs) ≡ scan_row delimiter r' cs
  unfolding scan_row
  scan_row-next c r r' cs e = rw e

  -- The scan goes on behind some text, in a state of which `P` holds.
  abbrev GoesOn : Building → Bytes → Bytes → (Building → Type 0) → Type 0
  GoesOn r text rest P =
      (r' : Building) × (scan_row delimiter r text ≡ scan_row delimiter r' rest) × P r'

  scan_bare :
      (fs : List Bytes) (chars text rest : Bytes) (r : Building)
      → AllPlain delimiter text
      → Plain fs chars r
      → GoesOn r (text ++ rest) rest (Plain fs (chars ++ text))
  scan_bare fs chars [] rest r all p = (r, refl, rw append-nil p)
  scan_bare fs chars (c ∷ cs) rest r (is, all) p =
      let (r1, e, p1) = step-Plain delimiter c fs chars r is p in
      let (r2, e2, p2) = scan_bare fs (chars ++ (c ∷ [])) cs rest r1 all p1 in
      (
        r2,
        scan_row-next c r r1 (cs ++ rest) e ∙ e2,
        subst (λ t. Plain fs t r2) (append_assoc chars (c ∷ []) cs) p2,
      )

  scan_escaped :
      (fs : List Bytes) (chars text rest : Bytes) (r : Building)
      → NoReturn text
      → Quoted fs chars r
      → GoesOn r (escape text ++ rest) rest (Quoted fs (chars ++ text))
  unfolding escape
  scan_escaped fs chars [] rest r none_there q = (r, refl, rw append-nil q)
  scan_escaped fs chars (c ∷ cs) rest r (not_return, others) q = elim (Bool-cases (c == quote)) [
    | inr plain ↦
        let (r1, e, q1) = step-Quoted delimiter c fs chars r (ground arith) not_return q in
        let (r2, e2, q2) = scan_escaped fs (chars ++ (c ∷ [])) cs rest r1 others q1 in
        (
          r2,
          rw plain (scan_row-next c r r1 (escape cs ++ rest) e ∙ e2),
          subst (λ t. Quoted fs t r2) (append_assoc chars (c ∷ []) cs) q2,
        )
    | inl is_quote ↦
        let same : c ≡ quote = ground arith in
        let (r1, e, closing) = step-Closing delimiter fs chars r d.ne_quote q in
        let (r2, e2, q2) = step_reopens delimiter fs chars r1 closing in
        let (r3, e3, q3) = scan_escaped fs (chars ++ (quote ∷ [])) cs rest r2 others q2 in
        (
          r3,
          rw is_quote (
              scan_row-next quote r r1 (quote ∷ (escape cs ++ rest)) e
              ∙ scan_row-next quote r1 r2 (escape cs ++ rest) e2
              ∙ e3),
          subst (λ t. Quoted fs t r3)
              (append_assoc chars (quote ∷ []) cs ∙ ap (λ k. chars ++ (k ∷ cs)) (sym same)) q3,
        )
  ]

  AllPlain-NoNul : (text : Bytes) → AllPlain delimiter text → NoNul text
  AllPlain-NoNul [] all = tt
  AllPlain-NoNul (c ∷ cs) (is, all) = (is.ne_nul, AllPlain-NoNul cs all)

  -- A quote opens a field.
  opening :
      (fs : List Bytes) (r : Building) → Plain fs [] r → StepsTo delimiter quote r (Quoted fs [])
  unfolding step
  opening fs r p =
      let start : ((length r.field == 0 && not r.last_quote) && quote == quote) ≡ true =
        rw (p.field, p.last_quote) in
      (
        record r { inside = true; last_quote = true },
        rw start,
        record {
          sound = record {
            room = p.sound.room;
            slots_low = p.sound.slots_low;
            slots_high = p.sound.slots_high;
            quiet = p.sound.quiet;
            opened = λ none_there last. refl;
          };
          fields = p.fields;
          field = p.field;
          inside = refl;
          even = let none_yet = p.sound.quiet (ap length p.field) in rw none_yet;
          opened = λ none_there. refl;
        },
      )

  scan_cell :
      (fs : List Bytes) (cell : Cell) (rest : Bytes) (r : Building)
      → IsWritable delimiter cell
      → Plain fs [] r
      → GoesOn r (write_cell cell rest) rest (Ends delimiter fs (text_of cell))
  unfolding write_cell
  scan_cell fs (bare text) rest r all p =
      let (r1, e, p1) = scan_bare fs [] text rest r all p in
      (r1, e, Plain-Ends delimiter fs text r1 d (AllPlain-NoNul text all) p1)
  scan_cell fs (wrapped text) rest r (no_nul, no_return) p =
      let (r1, e, q) = opening fs r p in
      let (r2, e2, q2) = scan_escaped fs [] text (quote ∷ rest) r1 no_return q in
      let (r3, e3, closing) = step-Closing delimiter fs text r2 d.ne_quote q2 in
      (
        r3,
        scan_row-next quote r r1 (escape text ++ (quote ∷ rest)) e
            ∙ e2
            ∙ scan_row-next quote r2 r3 rest e3,
        Closing-Ends delimiter fs text r3 d no_nul closing,
      )

  pub scan_row-write_row :
      (fs : List Bytes) (cell : Cell) (cells : List Cell) (rest : Bytes) (r : Building)
      → IsWritable delimiter cell
      → AllWritable delimiter cells
      → Plain fs [] r
      → scan_row delimiter r (write_row delimiter cell cells rest)
        ≡ some (got_row (fs ++ map text_of (cell ∷ cells)) rest)
  unfolding write_row
  scan_row-write_row fs cell [] rest r ok all p =
      let (r1, e, ends) = scan_cell fs cell (newline ∷ rest) r ok p in
      e ∙ unfold scan_row in (rw (ends.at_newline))
  scan_row-write_row fs cell (more ∷ cells) rest r ok (ok', all) p =
      let (r1, e, ends) =
        scan_cell fs cell (delimiter ∷ write_row delimiter more cells rest) r ok p in
      let (r2, e2, p2) = ends.at_delimiter in
      e
      ∙ scan_row-next delimiter r1 r2 (write_row delimiter more cells rest) e2
      ∙ scan_row-write_row (fs ++ (text_of cell ∷ [])) more cells rest r2 ok' all p2
      ∙ ap (λ t. some (got_row t rest)) (append_assoc fs (text_of cell ∷ []) _)

pub fresh_row-Plain : Plain [] [] fresh_row
fresh_row-Plain = record {
  sound = record {
    room = omega arith;
    slots_low = omega arith;
    slots_high = omega arith;
    quiet = λ none_there. refl;
    opened = λ none_there last. absurd (false≢true last);
  };
  fields = refl;
  field = refl;
  inside = refl;
  last_quote = refl;
}
