-- ===== src/CString.antt =====
-- The functions of the C library on strings that the readers of src/config/config.c use, in the "C"
-- locale: isspace, strchr, strtol, fgets. A C string is the list of its bytes before the NUL.
pub mod Laws
use Prim.Native.Char.{code}
use Prim.Native.String.{String}
use ctunnel.Prelude.{
  ℕ, zero, suc, ◌+◌, ◌-◌, ◌*◌, ◌^◌, Bool, true, false, not, ◌&&◌, ◌||◌, Option, none, some, List,
  [], ◌∷◌, ltb, leb, ◌==◌, if◌then◌else◌,
}
use ctunnel.Prelude.Bytes.{bytes_eq}

-- The bytes of a literal.
abbrev pub codes : String → List ℕ
codes String.[] = []
codes (String.◌∷◌ c s) = code c ∷ codes s

-- `!strcmp(s, literal)`
abbrev pub is : List ℕ → String → Bool
is s literal = bytes_eq s (codes literal)

unfoldable pub is_space : ℕ → Bool
is_space c = c == 32 || (leb 9 c && leb c 13)

unfoldable pub is_digit : ℕ → Bool
is_digit c = leb 48 c && leb c 57

-- What stands before a NUL.
unfoldable pub c_string : List ℕ → List ℕ
c_string [] = []
c_string (c ∷ s) = let rest = c_string s in if c == 0 then [] else c ∷ rest

-- What stands before the first byte `c`, and behind it; `none` where there is none.
unfoldable pub split_at : ℕ → List ℕ → Option (List ℕ × List ℕ)
split_at c [] = none
split_at c (x ∷ s) = elim (x == c) [
  | true ↦ some ([], s)
  | false ↦ elim (split_at c s) [ none ↦ none | some (before, after) ↦ some (x ∷ before, after) ]
]

-- Whether `strchr` finds a byte.
unfoldable pub has : ℕ → List ℕ → Bool
has c [] = false
has c (x ∷ s) = x == c || has c s

-- What stands before the last byte `c`, that byte included.
unfoldable pub through_last : ℕ → List ℕ → Option (List ℕ)
through_last c [] = none
through_last c (x ∷ s) = elim (through_last c s) [
  | some before ↦ some (x ∷ before)
  | none ↦ if x == c then some (x ∷ []) else none
]

unfoldable pub skip_space : List ℕ → List ℕ
skip_space [] = []
skip_space (c ∷ s) = let rest = skip_space s in if is_space c then rest else c ∷ s

-- The decimal digits at the front, as a number on top of `v`, and what follows them.
unfoldable pub scan : (v : ℕ) → List ℕ → ℕ × List ℕ
scan v [] = (v, [])
scan v (c ∷ s) = let rest = scan (v * 10 + (c - 48)) s in if is_digit c then rest else (v, c ∷ s)

-- What `strtol(s, &end, 10)` returns, sign and absolute value, `*end`, and whether it sets ERANGE.
pub record Number : Type 0 where
  pub negative : Bool
  pub magnitude : ℕ
  pub rest : List ℕ
  pub range_error : Bool

-- The largest absolute value of a `long` of that sign.
abbrev pub long_limit : Bool → ℕ
long_limit true = 2 ^ 63
long_limit false = 2 ^ 63 - 1

unfoldable pub clamp : (negative : Bool) → (v : ℕ) → List ℕ → Number
clamp negative v rest = record {
  negative = negative;
  magnitude = if ltb (long_limit negative) v then long_limit negative else v;
  rest = rest;
  range_error = ltb (long_limit negative) v;
}

-- Behind the sign; `whole` is the argument, to which `*end` points where there is no digit.
unfoldable pub strtol_digits : (whole : List ℕ) → (negative : Bool) → List ℕ → Number
strtol_digits whole negative [] = clamp negative 0 whole
strtol_digits whole negative (c ∷ s) =
    let (v, rest) = scan 0 (c ∷ s) in
    if is_digit c then clamp negative v rest else clamp negative 0 whole

unfoldable pub strtol_sign : (whole : List ℕ) → List ℕ → Number
strtol_sign whole [] = strtol_digits whole false []
strtol_sign whole (c ∷ s) =
    if c == b'-'
    then strtol_digits whole true s
    else if c == b'+'
    then strtol_digits whole false s
    else strtol_digits whole false (c ∷ s)

unfoldable pub strtol : List ℕ → Number
strtol s = strtol_sign s (skip_space s)

-- What `fgets` stores in `room` bytes less the NUL, and the rest of the file.
unfoldable pub take_line : (room : ℕ) → List ℕ → List ℕ × List ℕ
take_line zero file = ([], file)
take_line (suc room) [] = ([], [])
take_line (suc room) (c ∷ file) =
    let (line, rest) = take_line room file in
    if c == b'\n' then (c ∷ [], file) else (c ∷ line, rest)
