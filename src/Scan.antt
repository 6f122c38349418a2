-- ===== src/Scan.antt =====
-- The conversions of `sscanf` that the code uses, on strings without the closing NUL.
use Prim.Native.Char.{code}
use Prim.Native.String.{String}
use ramryder.Prelude.{
  ℕ, zero, suc, ◌+◌, ◌-◌, ◌*◌, Bool, true, false, ◌&&◌, ◌||◌, List, [], ◌∷◌, Option, none, some, ℤ,
  pos, leb, ltb, ◌%◌, ◌==◌, if◌then◌else◌, negsuc,
}

abbrev pub Bytes : Type 0
Bytes = List ℕ

-- The bytes of a literal in ASCII.
abbrev pub codes : String → Bytes
codes String.[] = []
codes (String.◌∷◌ c s) = code c ∷ codes s

-- `isspace` in the C locale.
abbrev pub is_space : ℕ → Bool
is_space c = c == 32 || (leb 9 c && leb c 13)

abbrev pub is_digit : ℕ → Bool
is_digit c = leb b'0' c && leb c b'9'

unfoldable pub skip_spaces : Bytes → Bytes
skip_spaces [] = []
skip_spaces (c ∷ s) = if is_space c then skip_spaces s else c ∷ s

-- The digits at the head of a string, with the number that they extend.
unfoldable pub scan_digits : ℕ → Bytes → ℕ × Bytes
scan_digits n [] = (n, [])
scan_digits n (c ∷ s) =
    let rest = scan_digits (n * 10 + (c - b'0')) s in if is_digit c then rest else (n, c ∷ s)

-- At least one digit.
unfoldable pub scan_unsigned : Bytes → Option (ℕ × Bytes)
unfolding scan_digits
scan_unsigned [] = none
scan_unsigned (c ∷ s) = if is_digit c then some (scan_digits 0 (c ∷ s)) else none

unfoldable pub negate : ℕ → ℤ
negate zero = pos zero
negate (suc n) = negsuc n

unfoldable pub scan_signed : Bytes → Option (ℤ × Bytes)
unfolding scan_unsigned negate
scan_signed [] = none
scan_signed (c ∷ s) =
    if c == b'-'
    then elim (scan_unsigned s) [ none ↦ none | some (n, r) ↦ some (negate n, r) ]
    else if c == b'+'
    then elim (scan_unsigned s) [ none ↦ none | some (n, r) ↦ some (pos n, r) ]
    else elim (scan_unsigned (c ∷ s)) [ none ↦ none | some (n, r) ↦ some (pos n, r) ]

-- What `strtol` makes of a magnitude that does not fit into a `long`.
abbrev pub clamp_long : ℕ → ℕ
clamp_long n = if ltb n 9223372036854775808 then n else 9223372036854775807

-- The low 32 bits of a `long`, as an `int`. C leaves a number that does not fit to the library, and
-- glibc, which the program is built with, stores these bits.
abbrev pub as_int : ℤ → ℤ
as_int (pos n) =
    let low = clamp_long n % 4294967296 in
    if ltb low 2147483648 then pos low else negsuc (4294967295 - low)
as_int (negsuc n) =
    let low = clamp_long n % 4294967296 in
    if ltb low 2147483648 then negsuc low else pos (4294967295 - low)

-- `%d`
unfoldable pub scan_int : Bytes → Option (ℤ × Bytes)
unfolding skip_spaces scan_signed
scan_int s = elim (scan_signed (skip_spaces s)) [ none ↦ none | some (z, r) ↦ some (as_int z, r) ]

-- A run of other characters of the format, which must match as they are.
unfoldable pub scan_literal : Bytes → Bytes → Option Bytes
scan_literal [] s = some s
scan_literal (c ∷ f) [] = none
scan_literal (c ∷ f) (d ∷ s) = if c == d then scan_literal f s else none

-- A literal and then `%d`, as in "vid=%d".
unfoldable pub scan_field : Bytes → Bytes → Option (ℤ × Bytes)
scan_field name s = elim (scan_literal name s) [ none ↦ none | some r ↦ scan_int r ]

-- Formats of one, two and three such fields, with a blank between them; `none` is a return value
-- below the number of fields.
unfoldable pub scan_1 : Bytes → Bytes → Option ℤ
scan_1 name s = elim (scan_field name s) [ none ↦ none | some (a, r) ↦ some a ]

unfoldable pub scan_2 : Bytes → Bytes → Bytes → Option (ℤ × ℤ)
scan_2 name name' s = elim (scan_field name s) [
  | none ↦ none
  | some (a, r) ↦ elim (scan_1 name' (skip_spaces r)) [ none ↦ none | some b ↦ some (a, b) ]
]

unfoldable pub scan_3 : Bytes → Bytes → Bytes → Bytes → Option (ℤ × ℤ × ℤ)
scan_3 name name' name'' s = elim (scan_field name s) [
  | none ↦ none
  | some (a, r) ↦ elim (scan_2 name' name'' (skip_spaces r)) [
    | none ↦ none
    | some (b, c) ↦ some (a, b, c)
  ]
]

-- `%63s` behind blanks, with the width as a number: the word and the rest.
unfoldable pub scan_word : ℕ → Bytes → Bytes × Bytes
scan_word zero s = ([], s)
scan_word (suc width) [] = ([], [])
scan_word (suc width) (c ∷ s) =
    let rest = scan_word width s in if is_space c then ([], c ∷ s) else (c ∷ rest.0, rest.1)

-- `%[^\n]`
unfoldable pub scan_line : Bytes → Bytes
scan_line [] = []
scan_line (c ∷ s) = if c == 10 then [] else c ∷ scan_line s

-- `strcmp(a, b) == 0`
unfoldable pub same_bytes : Bytes → Bytes → Bool
same_bytes [] [] = true
same_bytes [] (d ∷ b) = false
same_bytes (c ∷ a) [] = false
same_bytes (c ∷ a) (d ∷ b) = c == d && same_bytes a b

-- The string that an array of bytes holds.
unfoldable pub until_nul : Bytes → Bytes
until_nul [] = []
until_nul (c ∷ s) = if c == 0 then [] else c ∷ until_nul s
