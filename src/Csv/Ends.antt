-- ===== src/Csv/Ends.antt =====
-- The end of a field.
use mathlib.Core.Path.{subst}
use c_client.Prelude.{
  ℕ, ◌+◌, ◌-◌, ◌%◌, ◌≡◌, refl, ◌≢◌, ap, ◌∙◌, inr, true, false, not, ◌&&◌, ◌||◌, some, List, [], ◌∷◌,
  ◌++◌, arith, length, length-append, take, take-length, ◌==◌, if◌then◌else◌, Returns,
  Returns-value, Returns-some, c_string, NoNul,
}
use c_client.Csv.{
  Bytes, quote, newline, carriage_return, Building, next, row, field_end, finish_field, step,
}
use c_client.Csv.Bounds.{Sound, Noted, note_char-Noted, in_bounds-true, finish_field-After, After}
use c_client.Csv.Chars.{Plain, Closing, StepsTo, step_finish, drop_last-append}

-- A newline ends the row with the text as its last field; a delimiter goes on to the next field.
pub record Ends (delimiter : ℕ) (fs : List Bytes) (text : Bytes) (r : Building) : Type 0 where
  pub at_newline : step delimiter false newline r ≡ some (row (fs ++ (text ∷ [])))
  pub at_delimiter : StepsTo delimiter delimiter r (Plain (fs ++ (text ∷ [])) [])

c_string_self : (text : Bytes) → NoNul text → c_string text ≡ text
unfolding c_string
c_string_self [] h = refl
c_string_self (c ∷ cs) h = ground (arith, c_string_self cs h.1)

module _ (c : ℕ) (r n : Building) (s : Sound r) (noted : Noted c r n) (end : ℕ)
    (at : field_end n ≡ some end) (text : Bytes)
    (is_text : c_string (take end n.field) ≡ text) where
  finish_newline : c ≡ newline → finish_field c n ≡ some (row (r.fields ++ (text ∷ [])))
  unfolding finish_field
  finish_newline e =
      let bounds = in_bounds-true c r n s noted end at in rw (at, bounds, is_text, e, noted.fields)

  after_delimiter : Building
  after_delimiter = record {
    fields = n.fields ++ (text ∷ []);
    num_row_realloc =
        if length (n.fields ++ (text ∷ [])) % 64 == 0
        then n.num_row_realloc + 1
        else n.num_row_realloc;
    field = [];
    accepted = 64;
    inside = false;
    series = n.series;
    last_quote = c == quote;
  }

  finish_delimiter :
      c ≢ quote
      → c ≢ newline
      → (finish_field c n ≡ some (next after_delimiter))
        × Plain (r.fields ++ (text ∷ [])) [] after_delimiter
  unfolding after_delimiter
  finish_delimiter plain more =
      let bounds = in_bounds-true c r n s noted end at in
      let not_newline : (c == newline) ≡ false = ground (arith, more) in
      let e : finish_field c n ≡ some (next after_delimiter) =
        unfold finish_field in rw (at, bounds, is_text, not_newline) in
      let after : After c (next after_delimiter) = Returns-some (
        subst (Returns (After c)) e
          (finish_field-After c r n s noted end at (inr (plain, more)))) in
      (
        e,
        record {
          sound = after.0;
          fields = ap (λ t. t ++ (text ∷ [])) noted.fields;
          field = refl;
          inside = refl;
          last_quote = ground (arith, plain);
        },
      )

module _ (delimiter : ℕ) (r : Building) (s : Sound r) (outside : r.inside ≡ false)
    (ne_quote : delimiter ≢ quote) (ne_newline : delimiter ≢ newline)
    (ne_return : delimiter ≢ carriage_return) (text : Bytes)
    (ends : (n : Building)
      → n.field ≡ r.field
      → n.last_quote ≡ r.last_quote
      → (end : ℕ) × (field_end n ≡ some end) × (c_string (take end n.field) ≡ text)) where
  outside-Ends : Ends delimiter r.fields text r
  outside-Ends = record { at_newline = line; at_delimiter = more }
    where
      line : step delimiter false newline r ≡ some (row (r.fields ++ (text ∷ [])))
      line =
          let (n, e, noted) = Returns-value (note_char-Noted newline r s) in
          let (field, inside) = noted.kept (omega arith) in
          let (end, at, is_text) = ends n field noted.last_quote in
          let later : ((length r.field == 0 && not r.last_quote) && newline == quote) ≡ false =
            ground arith in
          let over : ((newline == delimiter || newline == newline) && not n.inside) ≡ true =
            ground (arith, inside, outside) in
          step_finish delimiter newline r n s e refl later over
          ∙ finish_newline newline r n s noted end at text is_text refl

      more : StepsTo delimiter delimiter r (Plain (r.fields ++ (text ∷ [])) [])
      more =
          let (n, e, noted) = Returns-value (note_char-Noted delimiter r s) in
          let (field, inside) = noted.kept ne_quote in
          let (end, at, is_text) = ends n field noted.last_quote in
          let kept : (delimiter == carriage_return) ≡ false = ground (arith, ne_return) in
          let later : ((length r.field == 0 && not r.last_quote) && delimiter == quote) ≡ false =
            ground (arith, ne_quote) in
          let over : ((delimiter == delimiter || delimiter == newline) && not n.inside) ≡ true =
            ground (arith, inside, outside) in
          let (finished, plain) =
            finish_delimiter delimiter r n s noted end at text is_text ne_quote ne_newline in
          (
            after_delimiter delimiter r n s noted end at text is_text,
            step_finish delimiter delimiter r n s e kept later over ∙ finished,
            plain,
          )

-- What the parser takes for a delimiter is none of these.
pub record IsDelimiter (delimiter : ℕ) : Type 0 where
  pub ne_quote : delimiter ≢ quote
  pub ne_newline : delimiter ≢ newline
  pub ne_return : delimiter ≢ carriage_return

pub Plain-Ends :
    (delimiter : ℕ) (fs : List Bytes) (chars : Bytes) (r : Building)
    → IsDelimiter delimiter
    → NoNul chars
    → Plain fs chars r
    → Ends delimiter fs chars r
Plain-Ends delimiter fs chars r d no_nul p =
    subst (λ f. Ends delimiter f chars r) p.fields
      (outside-Ends delimiter r p.sound p.inside d.ne_quote d.ne_newline d.ne_return chars
        λ n field last. (
          length n.field,
          rw (last, p.last_quote),
          rw (take-length (length n.field) n.field (omega arith), field, p.field)
              (c_string_self chars no_nul),
        ))

pub Closing-Ends :
    (delimiter : ℕ) (fs : List Bytes) (chars : Bytes) (r : Building)
    → IsDelimiter delimiter
    → NoNul chars
    → Closing fs chars r
    → Ends delimiter fs chars r
Closing-Ends delimiter fs chars r d no_nul p =
    subst (λ f. Ends delimiter f chars r) p.fields
      (outside-Ends delimiter r p.sound p.inside d.ne_quote d.ne_newline d.ne_return chars
        λ n field last.
          let whole : n.field ≡ chars ++ (quote ∷ []) = field ∙ p.field in
          let size = length-append chars (quote ∷ []) in
          let some_chars : (length (chars ++ (quote ∷ [])) == 0) ≡ false = ground (arith, size) in
          (
            length n.field - 1,
            rw (last, p.last_quote, whole, some_chars),
            rw whole (ap c_string (drop_last-append chars quote) ∙ c_string_self chars no_nul),
          ))
