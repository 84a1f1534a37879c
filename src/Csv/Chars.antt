-- ===== src/Csv/Chars.antt =====
-- The characters of a field, one by one.
use mathlib.Core.Path.{subst}
use c_client.Prelude.{
  ℕ, ◌+◌, ◌-◌, ◌≡◌, refl, ◌≢◌, ap, ◌∙◌, true, false, not, ◌&&◌, ◌||◌, some, List, [], ◌∷◌, ◌++◌,
  arith, length, length-append, take-append, ltb, lt→ltb, ◌==◌, Returns, Returns-value,
  Returns-some,
}
use c_client.Csv.{
  Bytes, quote, newline, carriage_return, Building, next, is_even, drop_last, note_char,
  finish_field, step,
}
use c_client.Csv.Bounds.{Sound, Noted, note_char-Noted, pushed, pushed-Sound}

-- A field with the characters so far, outside of quotes.
pub record Plain (fs : List Bytes) (chars : Bytes) (r : Building) : Type 0 where
  pub sound : Sound r
  pub fields : r.fields ≡ fs
  pub field : r.field ≡ chars
  pub inside : r.inside ≡ false
  pub last_quote : r.last_quote ≡ false

-- Inside of quotes.
pub record Quoted (fs : List Bytes) (chars : Bytes) (r : Building) : Type 0 where
  pub sound : Sound r
  pub fields : r.fields ≡ fs
  pub field : r.field ≡ chars
  pub inside : r.inside ≡ true
  pub even : is_even r.series ≡ true
  pub opened : length chars ≡ 0 → r.last_quote ≡ true

-- After a quote that closes the field, or will turn out to be the first one of a pair.
pub record Closing (fs : List Bytes) (chars : Bytes) (r : Building) : Type 0 where
  pub sound : Sound r
  pub fields : r.fields ≡ fs
  pub field : r.field ≡ chars ++ (quote ∷ [])
  pub inside : r.inside ≡ false
  pub odd : is_even r.series ≡ false
  pub last_quote : r.last_quote ≡ true

module _ (delimiter c : ℕ) (r n : Building) (s : Sound r) (noted : note_char c r ≡ some n)
    (kept : (c == carriage_return) ≡ false)
    (later : ((length r.field == 0 && not r.last_quote) && c == quote) ≡ false) where
  -- `n` is what `note_char` leaves.
  note_char-some : Noted c r n
  note_char-some = Returns-some (subst (Returns (Noted c r)) noted (note_char-Noted c r s))

  pushes : Building
  pushes = pushed c r n s note_char-some

  pushes-Sound : Sound pushes
  unfolding pushes
  pushes-Sound = (pushed-Sound c r n s note_char-some).0

  step_push :
      ((c == delimiter || c == newline) && not n.inside) ≡ false
      → step delimiter false c r ≡ some (next pushes)
  unfolding step pushes pushed
  step_push more =
      let fits : ltb (length n.field) n.accepted ≡ true =
        lt→ltb (length n.field) n.accepted
          (omega (arith, s.room, note_char-some.accepted, note_char-some.shorter)) in
      rw (kept, later, noted, more, fits)

  pub step_finish :
      ((c == delimiter || c == newline) && not n.inside) ≡ true
      → step delimiter false c r ≡ finish_field c n
  unfolding step
  step_finish ends = rw (kept, later, noted, ends)

-- A character that means nothing outside of quotes.
pub record IsPlain (delimiter c : ℕ) : Type 0 where
  pub ne_delimiter : c ≢ delimiter
  pub ne_newline : c ≢ newline
  pub ne_return : c ≢ carriage_return
  pub ne_quote : c ≢ quote
  pub ne_nul : c ≢ 0

abbrev pub StepsTo : (delimiter c : ℕ) → Building → (Building → Type 0) → Type 0
StepsTo delimiter c r P = (r' : Building) × (step delimiter false c r ≡ some (next r')) × P r'

pub step-Plain :
    (delimiter c : ℕ) (fs : List Bytes) (chars : Bytes) (r : Building)
    → IsPlain delimiter c
    → Plain fs chars r
    → StepsTo delimiter c r (Plain fs (chars ++ (c ∷ [])))
unfolding pushes pushed
step-Plain delimiter c fs chars r is p =
    let (n, e, noted) = Returns-value (note_char-Noted c r p.sound) in
    let (field, inside) = noted.kept is.ne_quote in
    let kept : (c == carriage_return) ≡ false = ground (arith, is.ne_return) in
    let later : ((length r.field == 0 && not r.last_quote) && c == quote) ≡ false =
      ground (arith, is.ne_quote) in
    let more : ((c == delimiter || c == newline) && not n.inside) ≡ false =
      ground (arith, is.ne_delimiter, is.ne_newline) in
    (
      pushes delimiter c r n p.sound e kept later,
      step_push delimiter c r n p.sound e kept later more,
      record {
        sound = pushes-Sound delimiter c r n p.sound e kept later;
        fields = noted.fields ∙ p.fields;
        field = ap (λ t. t ++ (c ∷ [])) (field ∙ p.field);
        inside = inside ∙ p.inside;
        last_quote = ground (arith, is.ne_quote);
      },
    )

pub step-Quoted :
    (delimiter c : ℕ) (fs : List Bytes) (chars : Bytes) (r : Building)
    → c ≢ quote
    → c ≢ carriage_return
    → Quoted fs chars r
    → StepsTo delimiter c r (Quoted fs (chars ++ (c ∷ [])))
unfolding pushes pushed
step-Quoted delimiter c fs chars r plain not_return q =
    let (n, e, noted) = Returns-value (note_char-Noted c r q.sound) in
    let (field, inside) = noted.kept plain in
    let kept : (c == carriage_return) ≡ false = ground (arith, not_return) in
    let later : ((length r.field == 0 && not r.last_quote) && c == quote) ≡ false =
      ground (arith, plain) in
    let more : ((c == delimiter || c == newline) && not n.inside) ≡ false =
      rw (inside, q.inside) (ground arith) in
    (
      pushes delimiter c r n q.sound e kept later,
      step_push delimiter c r n q.sound e kept later more,
      record {
        sound = pushes-Sound delimiter c r n q.sound e kept later;
        fields = noted.fields ∙ q.fields;
        field = ap (λ t. t ++ (c ∷ [])) (field ∙ q.field);
        inside = inside ∙ q.inside;
        even = rw (noted.quiet plain);
        opened = λ none_there. absurd (omega (arith, length-append chars (c ∷ [])));
      },
    )

pub step-Closing :
    (delimiter : ℕ) (fs : List Bytes) (chars : Bytes) (r : Building)
    → delimiter ≢ quote
    → Quoted fs chars r
    → StepsTo delimiter quote r (Closing fs chars)
unfolding pushes pushed
step-Closing delimiter fs chars r accepted q =
    let n = record r { series = r.series + 1; inside = false } in
    let going : (length r.field == 0 && not r.last_quote) ≡ false =
      ground (arith, q.opened, ap length q.field) in
    let odd : is_even (r.series + 1) ≡ false = ground (arith, q.even) in
    let e : note_char quote r ≡ some n = rw (going, odd) in
    let later : ((length r.field == 0 && not r.last_quote) && quote == quote) ≡ false = rw going in
    let more : ((quote == delimiter || quote == newline) && not n.inside) ≡ false =
      ground (arith, accepted) in
    (
      pushes delimiter quote r n q.sound e refl later,
      step_push delimiter quote r n q.sound e refl later more,
      record {
        sound = pushes-Sound delimiter quote r n q.sound e refl later;
        fields = q.fields;
        field = ap (λ t. t ++ (quote ∷ [])) q.field;
        inside = refl;
        odd = odd;
        last_quote = refl;
      },
    )

pub drop_last-append : (cs : Bytes) (c : ℕ) → drop_last (cs ++ (c ∷ [])) ≡ cs
drop_last-append cs c =
    let size : length (cs ++ (c ∷ [])) - 1 ≡ length cs = omega (arith, length-append cs (c ∷ [])) in
    rw size (take-append cs (c ∷ []))

pub step_reopens :
    (delimiter : ℕ) (fs : List Bytes) (chars : Bytes) (r : Building)
    → Closing fs chars r
    → StepsTo delimiter quote r (Quoted fs (chars ++ (quote ∷ [])))
unfolding pushes pushed
step_reopens delimiter fs chars r q =
    let n = record r { series = r.series + 1; inside = true; field = drop_last r.field } in
    let size = length-append chars (quote ∷ []) in
    let some_chars : (length r.field == 0) ≡ false = ground (arith, size, ap length q.field) in
    let even : is_even (r.series + 1) ≡ true = ground (arith, q.odd) in
    let e : note_char quote r ≡ some n = rw (some_chars, even) in
    let later : ((length r.field == 0 && not r.last_quote) && quote == quote) ≡ false =
      rw some_chars in
    let more : ((quote == delimiter || quote == newline) && not n.inside) ≡ false = ground arith in
    (
      pushes delimiter quote r n q.sound e refl later,
      step_push delimiter quote r n q.sound e refl later more,
      record {
        sound = pushes-Sound delimiter quote r n q.sound e refl later;
        fields = q.fields;
        field = ap (λ t. t ++ (quote ∷ [])) (ap drop_last q.field ∙ drop_last-append chars quote);
        inside = refl;
        even = even;
        opened = λ none_there. absurd (omega (arith, size));
      },
    )
