-- ===== src/Prelude/Bytes.antt =====
-- Exclusive or of bytes, and the text of a C string.
use Prim.Native.Nat.{ℕ, zero, suc, ◌<◌, ◌≤◌, bit_xor}
use Prim.Native.Char.{code}
use Prim.Native.String.{String}
use mathlib.Core.Path.{◌≡◌, refl}
use mathlib.Core.Bool.{Bool, true, false}
use mathlib.Core.Logic.{◌≢◌}
use mathlib.Core.List.{List, [], ◌∷◌, ◌++◌}
use native.Mathlib.Omega.{arith}
use c_client.Prelude.Tests.{◌==◌, ==_iff, if◌then◌else◌}
use c_client.Prelude.Lists.{replicate}

-- Masking and unmasking with one key, for the bytes from 0 to `last`.
key_undoes : (key last : ℕ) → Bool
key_undoes key zero = bit_xor (bit_xor 0 key) key == 0
key_undoes key (suc last) =
    let others = key_undoes key last in
    if bit_xor (bit_xor (suc last) key) key == suc last then others else false

byte_undone :
    (key last b : ℕ) → b ≤ last → key_undoes key last ≡ true → bit_xor (bit_xor b key) key ≡ b
unfolding key_undoes
byte_undone key zero zero le checked = (==_iff (bit_xor (bit_xor 0 key) key) 0).0 checked
byte_undone key zero (suc b) le checked = elim le [ ]
byte_undone key (suc last) b le checked = ground (arith, byte_undone key last b)

-- The same for the keys from 0 to `last`.
keys_undo : (last : ℕ) → Bool
keys_undo zero = key_undoes 0 255
keys_undo (suc last) =
    let others = keys_undo last in if key_undoes (suc last) 255 then others else false

key_undone : (last key : ℕ) → key ≤ last → keys_undo last ≡ true → key_undoes key 255 ≡ true
unfolding keys_undo
key_undone zero zero le checked = checked
key_undone zero (suc key) le checked = elim le [ ]
key_undone (suc last) key le checked = ground (arith, key_undone last key)

bytes_undone : keys_undo 255 ≡ true
unfolding keys_undo key_undoes
bytes_undone = refl

-- On bytes, exclusive or with a key undoes itself.
pub xor_twice : (x k : ℕ) → x < 256 → k < 256 → bit_xor (bit_xor x k) k ≡ x
xor_twice x k byte key =
    byte_undone k 255 x (omega arith) (key_undone 255 k (omega arith) bytes_undone)

-- The bytes of an ASCII text.
abbrev pub codes : String → List ℕ
codes String.[] = []
codes (String.◌∷◌ letter text) = code letter ∷ codes text

-- The bytes in front of the first NUL.
unfoldable pub c_string : List ℕ → List ℕ
c_string [] = []
c_string (c ∷ cs) = let rest = c_string cs in if c == 0 then [] else c ∷ rest

abbrev pub NoNul : List ℕ → Type 0
NoNul [] = Unit {0}
NoNul (c ∷ cs) = (c ≢ 0) × NoNul cs

pub c_string-append : (text rest : List ℕ) → NoNul text → c_string (text ++ (0 ∷ rest)) ≡ text
unfolding c_string
c_string-append [] rest h = refl
c_string-append (c ∷ cs) rest h = ground (arith, c_string-append cs rest h.1)

pub NoNul-append : (xs ys : List ℕ) → NoNul xs → NoNul ys → NoNul (xs ++ ys)
NoNul-append [] ys h k = k
NoNul-append (x ∷ xs) ys h k = (h.0, NoNul-append xs ys h.1 k)

-- A text in a buffer that is zero behind it.
pub c_string-zeros : (text : List ℕ) (n : ℕ) → NoNul text → c_string (text ++ replicate n 0) ≡ text
unfolding c_string
c_string-zeros [] zero h = refl
c_string-zeros [] (suc n) h = refl
c_string-zeros (c ∷ cs) n h = ground (arith, c_string-zeros cs n h.1)

-- strcmp (s, t) == 0
unfoldable pub same_text : List ℕ → List ℕ → Bool
same_text [] [] = true
same_text [] (d ∷ ds) = false
same_text (c ∷ cs) [] = false
same_text (c ∷ cs) (d ∷ ds) = let rest = same_text cs ds in if c == d then rest else false
