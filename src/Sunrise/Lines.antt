-- ===== src/Sunrise/Lines.antt =====
-- The lines of the file of sunrises, read back by `sun_get_pixel`.
use c_client.Prelude.{
  ℕ, ◌^◌, ◌<◌, ◌≡◌, refl, ◌≢◌, ap, ◌∙◌, none, some, List, [], ◌∷◌, ◌++◌, arith, length, ◌⊎◌, inl,
  inr, ◌>>=◌, store,
}
use c_client.Prelude.Int.{ℤ, pos, eq_ℤ_refl}
use c_client.Extension.{Pixel}
use c_client.Strtol.Decimal.{Stops, Stops-nil, Stops-newline}
use c_client.Strtol.Atoi.{write_number, atoi-write_number}
use c_client.Strings.{split, fgets}
use c_client.Strings.Tokens.{
  NotDigit, strtok-write_number, Avoids, Avoids-write_number, write_number-append, fgets-line,
  c_string-Avoids,
}
use c_client.Floats.{Floats}
use c_client.Sunrise.{
  Clock, time_of, SunState, brightness, next_number, next_time, parse_line, read_line, grey,
  sun_get_pixel,
}

-- A line: a position, and the times of sunrise and sunset there.
pub record SunLine : Type 0 where
  pub loc : ℕ
  pub sunrise : Clock
  pub sunset : Clock

-- A time in front of a text.
unfoldable pub write_time : Clock → List ℕ → List ℕ
write_time t rest = write_number t.hour (b':' ∷ write_number t.min (b':' ∷ write_number t.sec rest))

unfoldable pub write_line : SunLine → List ℕ → List ℕ
unfolding write_time
write_line l rest =
    write_number l.loc (b' ' ∷ write_time l.sunrise (b' ' ∷ write_time l.sunset rest))

-- The text of a file of such lines, each with a newline behind it.
unfoldable pub write_lines : List SunLine → List ℕ
write_lines [] = []
write_lines (l ∷ ls) = write_line l [] ++ (b'\n' ∷ write_lines ls)

pub record IsTime (t : Clock) : Type 0 where
  pub hour : t.hour < 2 ^ 31
  pub min : t.min < 2 ^ 31
  pub sec : t.sec < 2 ^ 31

-- A line that fits into the buffer of 40 characters.
pub record IsSunLine (l : SunLine) : Type 0 where
  pub loc : l.loc < 2 ^ 31
  pub sunrise : IsTime l.sunrise
  pub sunset : IsTime l.sunset
  pub fits : length (write_line l []) < 39

colon-NotDigit : NotDigit b':'
colon-NotDigit n small = λ e. omega arith

space-NotDigit : NotDigit b' '
space-NotDigit n small = λ e. omega arith

next_number-write_number :
    (d n : ℕ) (rest token after : List ℕ)
    → NotDigit d
    → split d rest ≡ (token, after)
    → Stops token
    → n < 2 ^ 31
    → next_number d (write_number n rest) ≡ some (pos n, after)
unfolding next_number
next_number-write_number d n rest token after other e stops small =
    rw (strtok-write_number d n rest token after other e, atoi-write_number n token stops small)
      refl

-- Up to the delimiter behind the number.
next_number-delimiter :
    (d n : ℕ) (rest : List ℕ)
    → NotDigit d
    → n < 2 ^ 31
    → next_number d (write_number n (d ∷ rest)) ≡ some (pos n, rest)
next_number-delimiter d n rest other small =
    let here : split d (d ∷ rest) ≡ ([], rest) = unfold split in ground arith in
    next_number-write_number d n (d ∷ rest) [] rest other here Stops-nil small

next_time-write_time :
    (t : Clock) (rest token after : List ℕ)
    → split b' ' rest ≡ (token, after)
    → Stops token
    → IsTime t
    → next_time (write_time t rest) ≡ some (time_of t, after)
unfolding next_time write_time
next_time-write_time t rest token after e stops is =
    let secs = write_number t.sec rest in
    rw
      (
        next_number-delimiter b':' t.hour (write_number t.min (b':' ∷ secs)) colon-NotDigit is.hour,
        next_number-delimiter b':' t.min secs colon-NotDigit is.min,
        next_number-write_number b' ' t.sec rest token after space-NotDigit e stops is.sec,
      )
      refl

split-space : (rest : List ℕ) → split b' ' (b' ' ∷ rest) ≡ ([], rest)
unfolding split
split-space rest = refl

split-newline : split b' ' (b'\n' ∷ []) ≡ (b'\n' ∷ [], [])
unfolding split
split-newline = refl

-- A line is read back.
parse_line-write_line :
    (l : SunLine)
    → IsSunLine l
    → parse_line (write_line l (b'\n' ∷ []))
      ≡ some (pos l.loc, (time_of l.sunrise, time_of l.sunset))
unfolding parse_line write_line
parse_line-write_line l is =
    let sets = write_time l.sunset (b'\n' ∷ []) in
    rw
      (
        next_number-delimiter b' ' l.loc (write_time l.sunrise (b' ' ∷ sets)) space-NotDigit is.loc,
        next_time-write_time l.sunrise (b' ' ∷ sets) [] sets (split-space sets) Stops-nil
            is.sunrise,
        next_time-write_time l.sunset (b'\n' ∷ []) (b'\n' ∷ []) [] split-newline Stops-newline
            is.sunset,
      )
      refl

module _ (d : ℕ) (other : NotDigit d) (colon : b':' ≢ d) (space : b' ' ≢ d) where
  Avoids-write_time : (t : Clock) (rest : List ℕ) → Avoids d rest → Avoids d (write_time t rest)
  unfolding write_time
  Avoids-write_time t rest h =
      Avoids-write_number d t.hour _ other (
        colon,
        Avoids-write_number d t.min _ other (colon, Avoids-write_number d t.sec rest other h),
      )

  Avoids-write_line : (l : SunLine) (rest : List ℕ) → Avoids d rest → Avoids d (write_line l rest)
  unfolding write_line
  Avoids-write_line l rest h =
      Avoids-write_number d l.loc _ other
        (space, Avoids-write_time l.sunrise _ (space, Avoids-write_time l.sunset rest h))

write_time-append :
    (t : Clock) (a rest : List ℕ) → write_time t a ++ rest ≡ write_time t (a ++ rest)
unfolding write_time
write_time-append t a rest = simp write_number-append

write_line-append :
    (l : SunLine) (a rest : List ℕ) → write_line l a ++ rest ≡ write_line l (a ++ rest)
unfolding write_line write_time
write_line-append l a rest = simp write_number-append

-- The next line of a text.
fgets-write_line :
    (l : SunLine) (rest : List ℕ)
    → IsSunLine l
    → fgets 40 (write_line l [] ++ (b'\n' ∷ rest)) ≡ some (write_line l (b'\n' ∷ []), rest)
fgets-write_line l rest is =
    let one_line =
      Avoids-write_line b'\n' (λ n small e. omega arith) (λ e. omega arith) (λ e. omega arith) l []
        tt in
    fgets-line 40 (write_line l []) rest one_line (omega (arith, is.fits))
    ∙ ap (λ t. some (t, rest)) (write_line-append l [] (b'\n' ∷ []))

fgets-nil : fgets 40 [] ≡ none
unfolding fgets
fgets-nil = refl

-- The line that is read next: at the end of the file it is the first one.
pub record NextLine (st : SunState) (l : SunLine) (rest : List ℕ) : Type 0 where
  pub line : IsSunLine l
  pub next :
      (st.sun_file ≡ write_line l [] ++ (b'\n' ∷ rest))
      ⊎ ((st.sun_file ≡ []) × (st.content ≡ write_line l [] ++ (b'\n' ∷ rest)))

read_line-NextLine :
    (st : SunState) (l : SunLine) (rest : List ℕ)
    → NextLine st l rest
    → read_line st ≡ some (write_line l (b'\n' ∷ []), record st { sun_file = rest })
unfolding read_line
read_line-NextLine st l rest n =
    let read = fgets-write_line l rest n.line in
    elim n.next [
      | inl here ↦
          let got : fgets 40 st.sun_file ≡ some (write_line l (b'\n' ∷ []), rest) =
            ap (fgets 40) here ∙ read in
          rw (read_line, got) refl
      | inr (ended, first) ↦
          let got : fgets 40 st.content ≡ some (write_line l (b'\n' ∷ []), rest) =
            ap (fgets 40) first ∙ read in
          let nothing : fgets 40 st.sun_file ≡ none = ap (fgets 40) ended ∙ fgets-nil in
          rw (read_line, nothing, got) refl
    ]

module _ (fl : Floats) (st : SunState) (l : SunLine) (rest : List ℕ) (n : NextLine st l rest)
    (frame : List Pixel) where
  -- The line of the pixel: its brightness at the current time is stored, and the line passed.
  pub sun_get_pixel-line :
      (i : ℕ) (set : ℤ)
      → l.loc ≡ i
      → brightness fl (time_of l.sunrise) (time_of l.sunset) (time_of st.current_time) ≡ some set
      → sun_get_pixel fl i st frame ≡ (
          store frame i (grey set) >>= λ frame'.
          some (pos 0, (record st { sun_file = rest }, frame')))
  unfolding sun_get_pixel
  sun_get_pixel-line i set here bright =
      let no_nul =
        Avoids-write_line 0 (λ n small e. omega arith) (λ e. omega arith) (λ e. omega arith) l
          (b'\n' ∷ []) ((λ e. omega arith), tt) in
      rw
        (
          read_line-NextLine st l rest n,
          c_string-Avoids (write_line l (b'\n' ∷ [])) no_nul,
          parse_line-write_line l n.line,
          here,
          eq_ℤ_refl (pos i),
          bright,
        )
        refl
