-- ===== src/Layout/Numbers.antt =====
-- Numbers in the fields of the layout files.
use c_client.Prelude.{ℕ, zero, suc, ◌+◌, ◌/◌, ◌%◌, ◌<◌, inl, inr, [], ◌∷◌, arith, ◌==◌, Bool-cases}
use c_client.Strtol.Decimal.{digits}
use c_client.Strtol.Atoi.{write_number, number}
use c_client.Csv.{Bytes}
use c_client.Csv.RoundTrip.{IsWritable, bare}

digit-IsWritable :
    (d : ℕ) (rest : Bytes)
    → d < 10
    → IsWritable b' ' (bare rest)
    → IsWritable b' ' (bare ((b'0' + d) ∷ rest))
digit-IsWritable d rest small writable = (
  record {
    ne_delimiter = λ e. omega arith;
    ne_newline = λ e. omega arith;
    ne_return = λ e. omega arith;
    ne_quote = λ e. omega arith;
    ne_nul = λ e. omega arith;
  },
  writable,
)

digits-IsWritable :
    (f n : ℕ) (rest : Bytes)
    → IsWritable b' ' (bare rest)
    → IsWritable b' ' (bare (digits f n rest))
unfolding digits
digits-IsWritable zero n rest h = h
digits-IsWritable (suc f) n rest h = elim (Bool-cases (n == 0)) [
  | inl done ↦ rw done h
  | inr more ↦ rw more (
      digits-IsWritable f (n / 10) ((b'0' + n % 10) ∷ rest)
        (digit-IsWritable (n % 10) rest (omega arith) h))
]

pub number-IsWritable : (n : ℕ) → IsWritable b' ' (bare (number n))
unfolding number write_number
number-IsWritable n = elim (Bool-cases (n == 0)) [
  | inl is_zero ↦ rw is_zero (digit-IsWritable 0 [] (omega arith) tt)
  | inr positive ↦ rw positive (digits-IsWritable n n [] tt)
]
