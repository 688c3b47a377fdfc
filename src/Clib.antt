-- ===== src/Clib.antt =====
-- What the program uses of the C library, on strings as lists of bytes without the final NUL.
pub mod Decimal
pub mod Digits
use Prim.Native.Char.{code}
use Prim.Native.String.{String}
use clueless_task_manager.Base.{
  ℕ, suc, ◌+◌, ◌-◌, ◌*◌, ◌%◌, Bool, true, false, ◌&&◌, ◌||◌, Option, none, some, List, [], ◌∷◌,
  ◌++◌, ◌==◌, leb, if◌then◌else◌, word_mod,
}

unfoldable pub is_space : ℕ → Bool
is_space c = c == b' ' || (leb 9 c && leb c 13)

unfoldable pub is_digit : ℕ → Bool
is_digit c = leb b'0' c && leb c b'9'

unfoldable pub skip_space : List ℕ → List ℕ
skip_space [] = []
skip_space (c ∷ s) = if is_space c then skip_space s else c ∷ s

-- the bytes up to the first NUL
unfoldable pub until_nul : List ℕ → List ℕ
until_nul [] = []
until_nul (c ∷ s) = if c == 0 then [] else c ∷ until_nul s

-- the leading digits, read in base 10 behind `acc`, and what follows them
unfoldable pub read_digits : ℕ → List ℕ → ℕ × List ℕ
read_digits acc [] = (acc, [])
read_digits acc (c ∷ s) =
    let rest = read_digits (acc * 10 + (c - b'0')) s in if is_digit c then rest else (acc, c ∷ s)

unfoldable pub starts_digit : List ℕ → Bool
starts_digit [] = false
starts_digit (c ∷ s) = is_digit c

-- the sign, if there is one
unfoldable pub read_sign : List ℕ → Bool × List ℕ
read_sign [] = (false, [])
read_sign (c ∷ s) =
    if c == b'-' then (true, s) else (if c == b'+' then (false, s) else (false, c ∷ s))

-- A number behind white space: whether it is negative, its magnitude, and what follows it.
unfoldable pub read_number : List ℕ → Option (Bool × ℕ × List ℕ)
unfolding read_sign skip_space starts_digit
read_number s =
    let (negative, digits) = read_sign (skip_space s) in
    if starts_digit digits
    then (let (n, rest) = read_digits 0 digits in some (negative, n, rest))
    else none

-- `unsigned long` of a sign and a magnitude: too large a value is ULONG_MAX.
abbrev pub to_ulong : Bool → ℕ → ℕ
to_ulong negative n =
    if leb word_mod n then word_mod - 1 else (if negative then (word_mod - n) % word_mod else n)

-- `strtoul(s, &s, 10)`: with no number the value is 0 and the end pointer is the start.
unfoldable pub strtoul : List ℕ → ℕ × List ℕ
strtoul s = elim (read_number s) [ none ↦ (0, s) | some r ↦ (to_ulong r.0 r.1, r.2) ]

-- `strncmp(s, prefix, strlen(prefix)) == 0`
unfoldable pub has_prefix : List ℕ → List ℕ → Bool
has_prefix s [] = true
has_prefix [] (p ∷ ps) = false
has_prefix (c ∷ s) (p ∷ ps) = c == p && has_prefix s ps

-- `strchr`: the suffix that begins at the first `c`
unfoldable pub strchr : List ℕ → ℕ → Option (List ℕ)
strchr [] c = none
strchr (x ∷ s) c = if x == c then some (x ∷ s) else strchr s c

-- `strrchr`: the offset of the last `c`
unfoldable pub strrchr : List ℕ → ℕ → Option ℕ
strrchr [] c = none
strrchr (x ∷ s) c = elim (strrchr s c) [
  | some i ↦ some (suc i)
  | none ↦ if x == c then some 0 else none
]

-- the next token, unless it is empty
unfoldable pub emit : List ℕ → List (List ℕ) → List (List ℕ)
emit [] rest = rest
emit (c ∷ token) rest = (c ∷ token) ∷ rest

-- The tokens that repeated `strtok_r` calls return: the non-empty runs without `sep`.
unfoldable pub tokens_from : ℕ → List ℕ → List ℕ → List (List ℕ)
unfolding emit
tokens_from sep token [] = emit token []
tokens_from sep token (c ∷ s) = elim (c == sep) [
  | false ↦ tokens_from sep (token ++ c ∷ []) s
  | true ↦ emit token (tokens_from sep [] s)
]

unfoldable pub tokens : ℕ → List ℕ → List (List ℕ)
unfolding tokens_from
tokens sep s = tokens_from sep [] s

-- The conversions of `sscanf` that the program uses. White space in the format comes before each.
pub data Conversion : Type 0 where
  char_field : Conversion
  skipped_int : Conversion
  ulong_field : Conversion

-- The values assigned, in order, up to the first conversion that fails.
unfoldable pub sscanf : List ℕ → List Conversion → List ℕ
sscanf s [] = []
sscanf s (char_field ∷ cs) = elim (skip_space s) [ [] ↦ [] | c ∷ rest ↦ c ∷ sscanf rest cs ]
sscanf s (skipped_int ∷ cs) = elim (read_number s) [ none ↦ [] | some r ↦ sscanf r.2 cs ]
sscanf s (ulong_field ∷ cs) = elim (read_number s) [
  | none ↦ []
  | some r ↦ to_ulong r.0 r.1 ∷ sscanf r.2 cs
]

-- the bytes of an ASCII literal of the source
abbrev pub codes : String → List ℕ
codes String.[] = []
codes (String.◌∷◌ c s) = code c ∷ codes s
