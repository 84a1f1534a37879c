-- ===== src/Strtol/Decimal.antt =====
-- strtol reads back a decimal number.
use c_client.Prelude.{
  ℕ, zero, suc, ◌+◌, ◌*◌, ◌/◌, ◌%◌, ◌^◌, ◌<◌, ◌≤◌, ◌≡◌, refl, ◌≢◌, sym, ap, ◌∙◌, Bool, true, false,
  some, List, [], ◌∷◌, arith, ◌==◌, if◌then◌else◌, Bool-cases, NoNul, inl, inr,
}
use c_client.Prelude.Int.{pos}
use c_client.Strtol.{
  is_space, digit, Scan, scan, skip_spaces, scan_any, parsed, signed, strtol_any, strtol_10,
}

-- The digits of a number in front of a text, on fuel.
unfoldable pub digits : ℕ → ℕ → List ℕ → List ℕ
digits zero n rest = rest
digits (suc f) n rest =
    let more = digits f (n / 10) ((b'0' + n % 10) ∷ rest) in if n == 0 then rest else more

-- A positive number in decimal, with no leading zero. A number has fewer digits than its value.
unfoldable pub decimal : ℕ → List ℕ
unfolding digits
decimal n = digits n n []

digit-decimal : (n : ℕ) → n < 10 → digit 10 (b'0' + n) ≡ some n
unfolding digit
digit-decimal n h = ground arith

scan_digit :
    (n value : ℕ) (any : Bool) (rest : List ℕ)
    → n < 10
    → scan 10 ((b'0' + n) ∷ rest) value any ≡ scan 10 rest (value * 10 + n) true
unfolding scan
scan_digit n value any rest h = rw (digit-decimal n h, scan)

digits-zero : (f : ℕ) (rest : List ℕ) → digits f 0 rest ≡ rest
unfolding digits
digits-zero zero rest = refl
digits-zero (suc f) rest = refl

digits-suc :
    (f n : ℕ) (rest : List ℕ)
    → 0 < n
    → digits (suc f) n rest ≡ digits f (n / 10) ((b'0' + n % 10) ∷ rest)
unfolding digits
digits-suc f n rest p = ground arith

-- The digits are read back, with what follows them behind.
scan-digits :
    (f n : ℕ) (any : Bool) (rest : List ℕ)
    → 0 < n
    → n ≤ f
    → scan 10 (digits f n rest) 0 any ≡ scan 10 rest n true
scan-digits zero n any rest p le = absurd (omega arith)
scan-digits (suc f) n any rest p le = elim (Bool-cases (n / 10 == 0)) [
  | inl last ↦
      let none_left : n / 10 ≡ 0 = ground arith in
      let all : 0 * 10 + n % 10 ≡ n = omega arith in
      rw (digits-suc f n rest p, none_left, digits-zero)
        (scan_digit (n % 10) 0 any rest (omega arith) ∙ ap (λ v. scan 10 rest v true) all)
  | inr more ↦
      let positive : n / 10 ≢ 0 = ground arith in
      let all : n / 10 * 10 + n % 10 ≡ n = omega arith in
      rw (digits-suc f n rest p) (
        scan-digits f (n / 10) any ((b'0' + n % 10) ∷ rest) (omega arith) (omega arith)
        ∙ scan_digit (n % 10) (n / 10) true rest (omega arith)
        ∙ ap (λ v. scan 10 rest v true) all)
]

-- The first digit is not zero.
pub head-digits :
    (f n : ℕ) (rest : List ℕ)
    → 0 < n
    → n ≤ f
    → (d : ℕ) × (more : List ℕ) × (digits f n rest ≡ (b'0' + d) ∷ more) × (0 < d) × (d < 10)
head-digits zero n rest p le = absurd (omega arith)
head-digits (suc f) n rest p le = elim (Bool-cases (n / 10 == 0)) [
  | inl last ↦
      let none_left : n / 10 ≡ 0 = ground arith in
      (
        n % 10,
        rest,
        rw (digits-suc f n rest p, none_left) (digits-zero f ((b'0' + n % 10) ∷ rest)),
        omega arith,
        omega arith,
      )
  | inr more ↦
      let positive : n / 10 ≢ 0 = ground arith in
      let (d, ds, e, lo, hi) =
        head-digits f (n / 10) ((b'0' + n % 10) ∷ rest) (omega arith) (omega arith) in
      (d, ds, digits-suc f n rest p ∙ e, lo, hi)
]

scan_any-digit :
    (d : ℕ) (more : List ℕ)
    → 0 < d
    → d < 10
    → scan_any ((b'0' + d) ∷ more) ≡ scan 10 ((b'0' + d) ∷ more) 0 false
unfolding scan_any
scan_any-digit d [] lo hi = refl
scan_any-digit d (x ∷ more) lo hi =
    let first : ((b'0' + d) == b'0') ≡ false = ground arith in rw first

-- A text that begins with a digit has no white space and no sign to skip.
signed-digit :
    (numeral : List ℕ → Scan) (d : ℕ) (more : List ℕ)
    → d < 10
    → signed numeral (skip_spaces ((b'0' + d) ∷ more)) ≡ parsed false (numeral ((b'0' + d) ∷ more))
unfolding signed skip_spaces is_space
signed-digit numeral d more hi = ground arith

parsed_small :
    (n : ℕ) (rest : List ℕ)
    → n < 2 ^ 63
    → parsed false (record { value = n; any = true; rest = rest })
      ≡ record { result = pos n; end = some rest }
unfolding parsed
parsed_small n rest h = ground arith

-- No digit stands in front.
abbrev pub Stops : List ℕ → Type 0
Stops rest =
    (value : ℕ) → scan 10 rest value true ≡ record { value = value; any = true; rest = rest }

pub Stops-nil : Stops []
unfolding scan
Stops-nil value = refl

pub Stops-newline : Stops (b'\n' ∷ [])
unfolding scan digit
Stops-newline value = refl

-- The number behind white space and a sign, in base 10.
scan-decimal :
    (n d : ℕ) (more rest : List ℕ)
    → Stops rest
    → 0 < n
    → digits n n rest ≡ (b'0' + d) ∷ more
    → scan 10 ((b'0' + d) ∷ more) 0 false ≡ record { value = n; any = true; rest = rest }
scan-decimal n d more rest stops p e =
    sym (ap (λ t. scan 10 t 0 false) e) ∙ scan-digits n n false rest p (omega arith) ∙ stops n

-- A positive `long` in decimal is read back whole.
pub strtol_any-decimal :
    (n : ℕ) → 0 < n → n < 2 ^ 63 → strtol_any (decimal n) ≡ record { result = pos n; end = some [] }
unfolding strtol_any decimal
strtol_any-decimal n p h =
    let (d, more, e, lo, hi) = head-digits n n [] p (omega arith) in
    rw e (
      signed-digit scan_any d more hi
      ∙ ap (parsed false) (scan_any-digit d more lo hi ∙ scan-decimal n d more [] Stops-nil p e)
      ∙ parsed_small n [] h)

-- In base 10, with what follows the digits behind.
pub strtol_10-digits :
    (n : ℕ) (rest : List ℕ)
    → Stops rest
    → 0 < n
    → n < 2 ^ 63
    → strtol_10 (digits n n rest) ≡ record { result = pos n; end = some rest }
unfolding strtol_10
strtol_10-digits n rest stops p h =
    let (d, more, e, lo, hi) = head-digits n n rest p (omega arith) in
    rw e (
      signed-digit (λ t. scan 10 t 0 false) d more hi
      ∙ ap (parsed false) (scan-decimal n d more rest stops p e)
      ∙ parsed_small n rest h)

NoNul-digits : (f n : ℕ) (rest : List ℕ) → NoNul rest → NoNul (digits f n rest)
unfolding digits
NoNul-digits zero n rest h = h
NoNul-digits (suc f) n rest h = elim (Bool-cases (n == 0)) [
  | inl done ↦ rw done h
  | inr more ↦ rw more (NoNul-digits f (n / 10) ((b'0' + n % 10) ∷ rest) (omega arith, h))
]

pub NoNul-decimal : (n : ℕ) → NoNul (decimal n)
unfolding decimal
NoNul-decimal n = NoNul-digits n n [] tt
