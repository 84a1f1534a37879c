-- ===== src/Csv/Bounds.antt =====
-- The accesses of `csv_parser_getRow` to its arrays.
use c_client.Prelude.{
  ℕ, ◌+◌, ◌-◌, ◌*◌, ◌%◌, ◌<◌, ◌≤◌, ◌≡◌, refl, ◌≢◌, ap, ◌∙◌, ◌⊎◌, inl, inr, true, false, not, ◌&&◌,
  ◌||◌, some, List, [], ◌∷◌, ◌++◌, arith, length, length-append, length-take, take, lt→ltb, ◌==◌,
  if◌then◌else◌, Returns, returns, Returns-bind, Returns-mono, c_string, Bool-cases,
}
use c_client.Csv.{
  Bytes, quote, newline, carriage_return, Building, Step, next, row, is_even, drop_last, note_char,
  field_end, in_bounds, finish_field, push_char, step,
}

-- There is room for one more character and its terminator, and for one more field; a field that is
-- empty has seen no quotes but one that opens it.
pub record Sound (r : Building) : Type 0 where
  pub room : length r.field + 1 < r.accepted
  pub slots_low : r.num_row_realloc * 64 ≤ length r.fields
  pub slots_high : length r.fields < (r.num_row_realloc + 1) * 64
  pub quiet : length r.field ≡ 0 → r.series ≡ 0
  pub opened : length r.field ≡ 0 → r.last_quote ≡ true → r.inside ≡ true

length-drop_last : (cs : Bytes) → length (drop_last cs) ≡ length cs - 1
length-drop_last cs = omega (arith, length-take (length cs - 1) cs)

-- What `note_char` leaves.
pub record Noted (c : ℕ) (r n : Building) : Type 0 where
  pub fields : n.fields ≡ r.fields
  pub num_row_realloc : n.num_row_realloc ≡ r.num_row_realloc
  pub accepted : n.accepted ≡ r.accepted
  pub last_quote : n.last_quote ≡ r.last_quote
  pub kept : c ≢ quote → (n.field ≡ r.field) × (n.inside ≡ r.inside)
  pub shorter : length n.field ≤ length r.field
  pub quiet : c ≢ quote → n.series ≡ 0
  pub closed : c ≢ quote → n.inside ≡ false → n.last_quote ≡ true → 0 < length n.field

pub note_char-Noted : (c : ℕ) (r : Building) → Sound r → Returns (Noted c r) (note_char c r)
note_char-Noted c r s = elim (Bool-cases (length r.field == 0 && not r.last_quote)) [
  | inl start ↦ rw start (
      returns (record {
        fields = refl;
        num_row_realloc = refl;
        accepted = refl;
        last_quote = refl;
        kept = λ other. (refl, refl);
        shorter = omega arith;
        quiet = λ other. s.quiet (ground arith);
        closed = λ other out last. ground arith;
      }))
  | inr later ↦ elim (Bool-cases (c == quote)) [
    | inr plain ↦
        rw (later, plain)
          (returns (record {
            fields = refl;
            num_row_realloc = refl;
            accepted = refl;
            last_quote = refl;
            kept = λ other. (refl, refl);
            shorter = omega arith;
            quiet = λ other. refl;
            closed = λ other out last. ground (arith, s.opened);
          }))
    | inl quoted ↦ elim (Bool-cases (is_even (r.series + 1))) [
      | inr odd ↦
          rw (later, quoted, odd)
            (returns (record {
              fields = refl;
              num_row_realloc = refl;
              accepted = refl;
              last_quote = refl;
              kept = λ other. absurd (other (ground arith));
              shorter = omega arith;
              quiet = λ other. absurd (other (ground arith));
              closed = λ other out last. absurd (other (ground arith));
            }))
      | inl even ↦
          let some_chars : (length r.field == 0) ≡ false = ground (arith, s.quiet) in
          rw (quoted, even, some_chars)
            (returns (record {
              fields = refl;
              num_row_realloc = refl;
              accepted = refl;
              last_quote = refl;
              kept = λ other. absurd (other (ground arith));
              shorter = omega (arith, length-drop_last r.field);
              quiet = λ other. absurd (other (ground arith));
              closed = λ other out last. absurd (other (ground arith));
            }))
    ]
  ]
]

-- What a round leaves: a row of at least one field, or a state in which the next accesses are in
-- bounds.
abbrev pub After : ℕ → Step → Type 0
After c (next r) = Sound r × (c ≡ newline → r.last_quote ≡ false)
After c (row fields) = 0 < length fields

abbrev pub IsRow : Step → Type 0
IsRow st = (fields : List Bytes) × (st ≡ row fields) × (0 < length fields)

slots_grow :
    (k len : ℕ)
    → k * 64 ≤ len
    → len < (k + 1) * 64
    → ((if (len + 1) % 64 == 0 then k + 1 else k) * 64 ≤ len + 1)
      × (len + 1 < ((if (len + 1) % 64 == 0 then k + 1 else k) + 1) * 64)
slots_grow k len low high = elim (Bool-cases ((len + 1) % 64 == 0)) [
  | inl full ↦ let even : (len + 1) % 64 ≡ 0 = ground arith in rw full (omega arith, omega arith)
  | inr room ↦ let odd : (len + 1) % 64 ≢ 0 = ground arith in rw room (omega arith, omega arith)
]

module _ (c : ℕ) (r n : Building) (s : Sound r) (noted : Noted c r n) where
  unfoldable pub pushed : Building
  pushed = record n {
    field = n.field ++ (c ∷ []);
    accepted = if length n.field + 1 == n.accepted - 1 then n.accepted * 2 else n.accepted;
    last_quote = c == quote;
  }

  pub pushed-Sound : Sound pushed × (c ≡ newline → pushed.last_quote ≡ false)
  unfolding pushed
  pushed-Sound =
      let one_more = length-append n.field (c ∷ []) in
      (
        record {
          room = ground (arith, one_more, s.room, noted.accepted, noted.shorter);
          slots_low = rw (noted.fields, noted.num_row_realloc) s.slots_low;
          slots_high = rw (noted.fields, noted.num_row_realloc) s.slots_high;
          quiet = λ none_there. absurd (omega (arith, one_more));
          opened = λ none_there last. absurd (omega (arith, one_more));
        },
        λ e. rw e,
      )

  pub push_char-After : Returns (After c) (push_char c n)
  unfolding push_char pushed
  push_char-After =
      let fits : length n.field < n.accepted =
        omega (arith, s.room, noted.accepted, noted.shorter) in
      rw (lt→ltb (length n.field) n.accepted fits) (returns pushed-Sound)

  -- The end of a field, where the buffer and the array of fields have room.
  module _ (end : ℕ) (at : field_end n ≡ some end) where
    end-lt : end < n.accepted
    end-lt = ground (arith, at, s.room, noted.accepted, noted.shorter)

    pub in_bounds-true : in_bounds end n ≡ true
    in_bounds-true = rw (
      lt→ltb end n.accepted end-lt,
      lt→ltb (length n.fields) ((n.num_row_realloc + 1) * 64)
          (rw (noted.fields, noted.num_row_realloc) s.slots_high),
    )

    finished : List Bytes
    finished = n.fields ++ (c_string (take end n.field) ∷ [])

    length-finished : length finished ≡ length r.fields + 1
    unfolding finished
    length-finished = length-append n.fields _ ∙ ap (λ t. length t + 1) noted.fields

    pub finish_field-IsRow : Returns IsRow (finish_field newline n)
    unfolding finish_field finished
    finish_field-IsRow =
        let size : length (n.fields ++ (c_string (take end n.field) ∷ [])) ≡ length r.fields + 1 =
          length-finished in
        rw (at, in_bounds-true) (returns (_, refl, omega (arith, size)))

    pub finish_field-After :
        ((c ≡ newline) ⊎ ((c ≢ quote) × (c ≢ newline))) → Returns (After c) (finish_field c n)
    unfolding finish_field finished
    finish_field-After (inl line) =
        rw line (Returns-mono finish_field-IsRow λ st (fields, e, size). rw e size)
    finish_field-After (inr (plain, more)) =
        let size : length (n.fields ++ (c_string (take end n.field) ∷ [])) ≡ length r.fields + 1 =
          length-finished in
        let slots = slots_grow r.num_row_realloc (length r.fields) s.slots_low s.slots_high in
        let not_newline : (c == newline) ≡ false = ground (arith, more) in
        rw (at, in_bounds-true, not_newline)
          (returns (
            record {
              room = omega arith;
              slots_low = rw (size, noted.num_row_realloc) slots.0;
              slots_high = rw (size, noted.num_row_realloc) slots.1;
              quiet = λ none_there. noted.quiet plain;
              opened = λ none_there last. absurd (plain (ground arith));
            },
            λ e. absurd (more e),
          ))

pub field_end-some :
    (n : Building)
    → (n.last_quote ≡ true → 0 < length n.field)
    → (end : ℕ) × (field_end n ≡ some end)
field_end-some n closed = elim (Bool-cases n.last_quote) [
  | inr plain ↦ (length n.field, rw plain)
  | inl quoted ↦
      let some_chars : (length n.field == 0) ≡ false = ground (arith, closed quoted) in
      (length n.field - 1, rw (quoted, some_chars))
]

line-or-more : (c : ℕ) → c ≢ quote → (c ≡ newline) ⊎ ((c ≢ quote) × (c ≢ newline))
line-or-more c plain = elim (Bool-cases (c == newline)) [
  | inl line ↦ inl (ground arith)
  | inr more ↦ inr (plain, ground arith)
]

-- A round does not fault before the end of the input, if the delimiter is not a quote.
pub step-After :
    (delimiter c : ℕ) (r : Building)
    → delimiter ≢ quote
    → Sound r
    → Returns (After c) (step delimiter false c r)
unfolding step
step-After delimiter c r accepted s = elim (Bool-cases (c == carriage_return)) [
  | inl skipped ↦ rw skipped (returns (s, λ e. ground (arith, e)))
  | inr kept ↦ elim (Bool-cases ((length r.field == 0 && not r.last_quote) && c == quote)) [
    | inl opens ↦
        rw (kept, opens)
          (returns (
            record {
              room = s.room;
              slots_low = s.slots_low;
              slots_high = s.slots_high;
              quiet = s.quiet;
              opened = λ none_there last. refl;
            },
            λ e. ground (arith, e),
          ))
    | inr else_ ↦
        rw (kept, else_)
          (Returns-bind (note_char-Noted c r s) λ n noted.
            elim (Bool-cases ((c == delimiter || c == newline) && not n.inside)) [
              | inr more ↦ rw more (push_char-After c r n s noted)
              | inl ends ↦
                  let plain : c ≢ quote = ground (arith, accepted) in
                  let outside : n.inside ≡ false = ground arith in
                  let (end, at) = field_end-some n (noted.closed plain outside) in
                  rw ends (finish_field-After c r n s noted end at (line-or-more c plain))
            ])
  ]
]
