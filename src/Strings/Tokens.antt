-- ===== src/Strings/Tokens.antt =====
-- Numbers between delimiters are tokens.
use c_client.Prelude.{
  ℕ, zero, suc, ◌+◌, ◌-◌, ◌/◌, ◌%◌, ◌<◌, ◌≡◌, refl, ◌≢◌, ap, sym, ◌∙◌, inl, inr, false, some, List,
  [], ◌∷◌, ◌++◌, arith, length, ◌==◌, Bool-cases, c_string,
}
use c_client.Strtol.Decimal.{digits, head-digits}
use c_client.Strtol.Atoi.{write_number}
use c_client.Strings.{split, skip, split_some, strtok, take_line, fgets}

-- No digit is the delimiter.
abbrev pub NotDigit : ℕ → Type 0
NotDigit d = (n : ℕ) → n < 10 → (b'0' + n) ≢ d

split-digits :
    (d f n : ℕ) (rest token after : List ℕ)
    → NotDigit d
    → split d rest ≡ (token, after)
    → split d (digits f n rest) ≡ (digits f n token, after)
unfolding digits split
split-digits d zero n rest token after other e = e
split-digits d (suc f) n rest token after other e =
    let plain : ((b'0' + n % 10) == d) ≡ false = ground (arith, other (n % 10) (omega arith)) in
    let here : split d ((b'0' + n % 10) ∷ rest) ≡ ((b'0' + n % 10) ∷ token, after) =
      rw (plain, e) refl in
    elim (Bool-cases (n == 0)) [
      | inl done ↦ rw done e
      | inr more ↦ rw more (
          split-digits d f (n / 10) ((b'0' + n % 10) ∷ rest) ((b'0' + n % 10) ∷ token) after other
            here)
    ]

pub split-write_number :
    (d n : ℕ) (rest token after : List ℕ)
    → NotDigit d
    → split d rest ≡ (token, after)
    → split d (write_number n rest) ≡ (write_number n token, after)
unfolding write_number split
split-write_number d n rest token after other e = elim (Bool-cases (n == 0)) [
  | inl is_zero ↦
      let plain : (48 == d) ≡ false = ground (arith, other 0 (omega arith)) in
      rw (is_zero, plain, e) refl
  | inr positive ↦ rw positive (split-digits d n n rest token after other e)
]

-- A number begins with a digit.
write_number-head :
    (n : ℕ) (rest : List ℕ)
    → (c : ℕ) × (more : List ℕ) × (write_number n rest ≡ (b'0' + c) ∷ more) × (c < 10)
unfolding write_number
write_number-head n rest = elim (Bool-cases (n == 0)) [
  | inl is_zero ↦ (0, rest, rw is_zero refl, omega arith)
  | inr positive ↦
      let (c, more, e, lo, hi) = head-digits n n rest (ground arith) (omega arith) in
      (c, more, rw positive e, hi)
]

skip-head : (d c : ℕ) (more : List ℕ) → c ≢ d → skip d (c ∷ more) ≡ c ∷ more
unfolding skip
skip-head d c more other = let plain : (c == d) ≡ false = ground (arith, other) in rw plain refl

pub strtok-head :
    (d c : ℕ) (more : List ℕ) → c ≢ d → strtok d (c ∷ more) ≡ some (split d (c ∷ more))
unfolding strtok split_some
strtok-head d c more other = ap (split_some d) (skip-head d c more other)

pub strtok-write_number :
    (d n : ℕ) (rest token after : List ℕ)
    → NotDigit d
    → split d rest ≡ (token, after)
    → strtok d (write_number n rest) ≡ some (write_number n token, after)
strtok-write_number d n rest token after other e =
    let (c, more, head, hi) = write_number-head n rest in
    ap (strtok d) head
    ∙ strtok-head d (b'0' + c) more (other c hi)
    ∙ ap (λ t. some (split d t)) (sym head)
    ∙ ap some (split-write_number d n rest token after other e)

-- No character is the one given.
abbrev pub Avoids : ℕ → List ℕ → Type 0
Avoids d [] = Unit {0}
Avoids d (c ∷ cs) = (c ≢ d) × Avoids d cs

Avoids-digits :
    (d f n : ℕ) (rest : List ℕ) → NotDigit d → Avoids d rest → Avoids d (digits f n rest)
unfolding digits
Avoids-digits d zero n rest other h = h
Avoids-digits d (suc f) n rest other h = elim (Bool-cases (n == 0)) [
  | inl done ↦ rw done h
  | inr more ↦
      rw more (
        Avoids-digits d f (n / 10) ((b'0' + n % 10) ∷ rest) other (other (n % 10) (omega arith), h))
]

pub Avoids-write_number :
    (d n : ℕ) (rest : List ℕ) → NotDigit d → Avoids d rest → Avoids d (write_number n rest)
unfolding write_number
Avoids-write_number d n rest other h = elim (Bool-cases (n == 0)) [
  | inl is_zero ↦ rw is_zero (other 0 (omega arith), h)
  | inr positive ↦ rw positive (Avoids-digits d n n rest other h)
]

digits-append : (f n : ℕ) (a rest : List ℕ) → digits f n a ++ rest ≡ digits f n (a ++ rest)
unfolding digits
digits-append zero n a rest = refl
digits-append (suc f) n a rest = elim (Bool-cases (n == 0)) [
  | inl done ↦ rw done refl
  | inr more ↦ rw more (digits-append f (n / 10) ((b'0' + n % 10) ∷ a) rest)
]

pub write_number-append :
    (n : ℕ) (a rest : List ℕ) → write_number n a ++ rest ≡ write_number n (a ++ rest)
unfolding write_number
write_number-append n a rest = elim (Bool-cases (n == 0)) [
  | inl is_zero ↦ rw is_zero refl
  | inr positive ↦ rw positive (digits-append n n a rest)
]

-- A line that fits is read whole.
take_line-append :
    (n : ℕ) (text rest : List ℕ)
    → Avoids b'\n' text
    → length text < n
    → take_line n (text ++ (b'\n' ∷ rest)) ≡ (text ++ (b'\n' ∷ []), rest)
unfolding take_line
take_line-append zero text rest h fits = absurd (omega arith)
take_line-append (suc n) [] rest h fits = refl
take_line-append (suc n) (c ∷ cs) rest (other, h) fits =
    let plain : (c == 10) ≡ false = ground (arith, other) in
    rw (plain, take_line-append n cs rest h (omega arith)) refl

pub fgets-line :
    (size : ℕ) (text rest : List ℕ)
    → Avoids b'\n' text
    → length text + 1 < size
    → fgets size (text ++ (b'\n' ∷ rest)) ≡ some (text ++ (b'\n' ∷ []), rest)
unfolding fgets
fgets-line size [] rest h fits = ap some (take_line-append (size - 1) [] rest h (omega arith))
fgets-line size (c ∷ cs) rest h fits =
    ap some (take_line-append (size - 1) (c ∷ cs) rest h (omega arith))

pub c_string-Avoids : (text : List ℕ) → Avoids 0 text → c_string text ≡ text
unfolding c_string
c_string-Avoids [] h = refl
c_string-Avoids (c ∷ cs) h = ground (arith, c_string-Avoids cs h.1)
