-- ===== src/Strings.antt =====
-- `strtok` and `fgets` of the C library, which the effects read their data files with.
pub mod Tokens
use c_client.Prelude.{
  ℕ, zero, suc, ◌-◌, Bool, true, false, Option, none, some, List, [], ◌∷◌, ◌==◌, if◌then◌else◌,
}

-- A text up to a character, and what follows the character.
unfoldable pub split : ℕ → List ℕ → List ℕ × List ℕ
split d [] = ([], [])
split d (c ∷ cs) = let (token, rest) = split d cs in if c == d then ([], cs) else (c ∷ token, rest)

unfoldable pub skip : ℕ → List ℕ → List ℕ
skip d [] = []
skip d (c ∷ cs) = let rest = skip d cs in if c == d then rest else c ∷ cs

split_some : ℕ → List ℕ → Option (List ℕ × List ℕ)
unfolding split
split_some d [] = none
split_some d (c ∷ cs) = some (split d (c ∷ cs))

-- strtok (text, delimiters) with one delimiter: the token and the text that is left for the next
-- call; `none` is NULL.
unfoldable pub strtok : ℕ → List ℕ → Option (List ℕ × List ℕ)
unfolding split_some skip
strtok d text = split_some d (skip d text)

-- A line with its newline, of at most so many characters, and what follows it.
unfoldable pub take_line : ℕ → List ℕ → List ℕ × List ℕ
take_line zero text = ([], text)
take_line (suc n) [] = ([], [])
take_line (suc n) (c ∷ cs) =
    let (line, rest) = take_line n cs in if c == b'\n' then (c ∷ [], cs) else (c ∷ line, rest)

-- fgets (buf, size, file), on what is left of the file; `none` is NULL.
unfoldable pub fgets : ℕ → List ℕ → Option (List ℕ × List ℕ)
unfolding take_line
fgets size [] = none
fgets size (c ∷ cs) = some (take_line (size - 1) (c ∷ cs))
