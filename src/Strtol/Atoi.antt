-- ===== src/Strtol/Atoi.antt =====
-- Numbers in decimal in a text: `atoi` reads them back.
use c_client.Prelude.{
  ℕ, ◌^◌, ◌<◌, ◌≡◌, refl, ap, inl, inr, true, false, List, [], ◌∷◌, arith, ◌==◌, if◌then◌else◌,
  Bool-cases,
}
use c_client.Prelude.Int.{pos}
use c_client.Strtol.{is_space, digit, scan, skip_spaces, signed, parsed, strtol_10, atoi}
use c_client.Strtol.Decimal.{digits, Stops, Stops-nil, strtol_10-digits}

-- A number in decimal in front of a text; 0 has one digit.
unfoldable pub write_number : ℕ → List ℕ → List ℕ
write_number n rest = if n == 0 then b'0' ∷ rest else digits n n rest

unfoldable pub number : ℕ → List ℕ
unfolding write_number
number n = write_number n []

atoi-small :
    (n : ℕ) (text : List ℕ) → n < 2 ^ 31 → (strtol_10 text).result ≡ pos n → atoi text ≡ pos n
unfolding atoi
atoi-small n text small e = rw e (ground arith)

strtol_10-zero : (rest : List ℕ) → Stops rest → (strtol_10 (b'0' ∷ rest)).result ≡ pos 0
unfolding strtol_10 signed skip_spaces is_space parsed
strtol_10-zero rest stops =
    let read : scan 10 (b'0' ∷ rest) 0 false ≡ record { value = 0; any = true; rest = rest } =
      unfold scan digit in stops 0 in
    rw read refl

pub atoi-write_number :
    (n : ℕ) (rest : List ℕ) → Stops rest → n < 2 ^ 31 → atoi (write_number n rest) ≡ pos n
unfolding write_number
atoi-write_number n rest stops small = elim (Bool-cases (n == 0)) [
  | inl is_zero ↦
      let e : n ≡ 0 = ground arith in
      rw (is_zero, e) (atoi-small 0 (b'0' ∷ rest) (omega arith) (strtol_10-zero rest stops))
  | inr positive ↦ rw positive (
      atoi-small n (digits n n rest) small
        (ap (λ r. r.result) (strtol_10-digits n rest stops (ground arith) (omega arith))))
]

pub atoi-number : (n : ℕ) → n < 2 ^ 31 → atoi (number n) ≡ pos n
unfolding number
atoi-number n small = atoi-write_number n [] Stops-nil small
