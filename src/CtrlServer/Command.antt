-- ===== src/CtrlServer/Command.antt =====
-- `try_get_command` of src/ctrlserver.c.
use c_client.Prelude.{
  ℕ, ◌-◌, ◌%◌, ◌^◌, ◌<◌, ◌≤◌, ◌≡◌, ap, none, some, List, [], ◌∷◌, arith, ltb, if◌then◌else◌,
}
use c_client.Prelude.Int.{ℤ, pos, negsuc}
use c_client.Strtol.{Parsed, strtol_any}
use c_client.Strtol.Decimal.{decimal, strtol_any-decimal}

-- The cast to `int8_t`: the last eight bits, as a signed number.
int8_of_byte : ℕ → ℤ
int8_of_byte b = if ltb b 128 then pos b else negsuc (255 - b)

unfoldable pub to_int8 : ℤ → ℤ
unfolding int8_of_byte
to_int8 (pos n) = int8_of_byte (n % 256)
to_int8 (negsuc n) = int8_of_byte (255 - n % 256)

command_of : Parsed → ℤ → ℤ
unfolding to_int8
command_of r default_cmd = elim r.end [
  | none ↦ to_int8 default_cmd
  | some [] ↦ to_int8 r.result
  | some (c ∷ cs) ↦ to_int8 default_cmd
]

-- The string stands without its final NUL.
unfoldable pub try_get_command : List ℕ → ℤ → ℤ
unfolding command_of
try_get_command cmd_string default_cmd = command_of (strtol_any cmd_string) default_cmd

-- A positive number in decimal that a `long` holds is taken as the command that its last eight bits
-- are.
pub try_get_command-decimal :
    (n : ℕ) (default_cmd : ℤ)
    → 0 < n
    → n < 2 ^ 63
    → try_get_command (decimal n) default_cmd ≡ to_int8 (pos n)
unfolding try_get_command
try_get_command-decimal n d p h = ap (λ r. command_of r d) (strtol_any-decimal n p h)

pub to_int8-small : (n : ℕ) → n ≤ 127 → to_int8 (pos n) ≡ pos n
unfolding to_int8 int8_of_byte
to_int8-small n small = ground arith
