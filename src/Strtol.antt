-- ===== src/Strtol.antt =====
-- strtol of the C library, which src/ctrlserver.c and src/opc/opc_client.c call: white space, a sign,
-- a prefix for the base, digits, and the rest. `long` has 64 bits.
pub mod Decimal
pub mod Atoi
use c_client.Prelude.{
  ℕ, zero, suc, ◌+◌, ◌-◌, ◌*◌, ◌%◌, ◌^◌, Bool, true, false, ◌&&◌, ◌||◌, Option, none, some, List,
  [], ◌∷◌, ltb, leb, ◌==◌, if◌then◌else◌,
}
use c_client.Prelude.Int.{ℤ, pos, negsuc}

unfoldable pub is_space : ℕ → Bool
is_space c = c == b' ' || (leb 9 c && leb c 13)

-- The value of a digit in a base of up to 36.
unfoldable pub digit_value : ℕ → Option ℕ
digit_value c =
    if leb b'0' c && leb c b'9'
    then some (c - b'0')
    else if leb b'a' c && leb c b'z'
    then some (c - b'a' + 10)
    else if leb b'A' c && leb c b'Z'
    then some (c - b'A' + 10)
    else none

unfoldable pub digit : ℕ → ℕ → Option ℕ
unfolding digit_value
digit base c = elim (digit_value c) [ none ↦ none | some d ↦ if ltb d base then some d else none ]

-- The digits read so far: their value, whether there was one, and what follows them.
pub record Scan : Type 0 where
  pub value : ℕ
  pub any : Bool
  pub rest : List ℕ

unfoldable pub scan : ℕ → List ℕ → ℕ → Bool → Scan
scan base [] value any = record { value = value; any = any; rest = [] }
scan base (c ∷ cs) value any = elim (digit base c) [
  | some d ↦ scan base cs (value * base + d) true
  | none ↦ record { value = value; any = any; rest = c ∷ cs }
]

skip_spaces : List ℕ → List ℕ
skip_spaces [] = []
skip_spaces (c ∷ cs) = let rest = skip_spaces cs in if is_space c then rest else c ∷ cs

-- Behind the sign, in base 0: "0x" and a hexadecimal digit, or "0", or a decimal number.
is_some {ℓ} : {A : Type ℓ} → Option A → Bool
is_some none = false
is_some (some _) = true

scan_hex_or_octal : ℕ → List ℕ → Scan
unfolding is_some
scan_hex_or_octal x (c ∷ cs) =
    if (x == b'x' || x == b'X') && is_some (digit 16 c)
    then scan 16 (c ∷ cs) 0 false
    else scan 8 (x ∷ c ∷ cs) 0 true
scan_hex_or_octal x [] = scan 8 (x ∷ []) 0 true

unfoldable pub scan_any : List ℕ → Scan
unfolding scan_hex_or_octal
scan_any [] = scan 10 [] 0 false
scan_any (c ∷ []) = scan 10 (c ∷ []) 0 false
scan_any (c ∷ x ∷ cs) = if c == b'0' then scan_hex_or_octal x cs else scan 10 (c ∷ x ∷ cs) 0 false

-- The result, and the text behind the number; `none` when there is no number, and the end is the
-- start of the text.
pub record Parsed : Type 0 where
  pub result : ℤ
  pub end : Option (List ℕ)

clamp : Bool → ℕ → ℤ
clamp false n = if ltb n (2 ^ 63) then pos n else pos (2 ^ 63 - 1)
clamp true zero = pos 0
clamp true (suc n) = if ltb n (2 ^ 63) then negsuc n else negsuc (2 ^ 63 - 1)

parsed : Bool → Scan → Parsed
unfolding clamp
parsed negative s =
    if s.any
    then record { result = clamp negative s.value; end = some s.rest }
    else record { result = pos 0; end = none }

signed : (List ℕ → Scan) → List ℕ → Parsed
unfolding parsed
signed numeral [] = parsed false (numeral [])
signed numeral (c ∷ cs) =
    if c == b'-'
    then parsed true (numeral cs)
    else if c == b'+'
    then parsed false (numeral cs)
    else parsed false (numeral (c ∷ cs))

-- strtol (text, &end, 0)
unfoldable pub strtol_any : List ℕ → Parsed
unfolding signed skip_spaces scan_any
strtol_any text = signed scan_any (skip_spaces text)

-- strtol (text, NULL, 10)
unfoldable pub strtol_10 : List ℕ → Parsed
unfolding signed skip_spaces
strtol_10 text = signed (λ t. scan 10 t 0 false) (skip_spaces text)

-- A `long` as an `int`: its last 32 bits, as a signed number.
int_of_word : ℕ → ℤ
int_of_word w = if ltb w (2 ^ 31) then pos w else negsuc (2 ^ 32 - 1 - w)

to_int : ℤ → ℤ
unfolding int_of_word
to_int (pos n) = int_of_word (n % 2 ^ 32)
to_int (negsuc n) = int_of_word (2 ^ 32 - 1 - n % 2 ^ 32)

-- atoi (text)
unfoldable pub atoi : List ℕ → ℤ
unfolding to_int
atoi text = to_int (strtol_10 text).result
