-- ===== src/Wire/Ints.antt =====
-- src/protocol/protocol.c: `ct_put_u16` to `ct_get_u64`. A pointer into a buffer is the list of the
-- bytes from there on; a function that writes through it returns the list after the writes.
pub mod Laws
pub mod Read
use ctunnel.Prelude.{
  ℕ, zero, suc, ◌+◌, ◌*◌, ◌/◌, ◌%◌, ◌^◌, ◌<◌, bit_or, List, [], ◌∷◌, ◌++◌, get_or, set, take, drop,
}

abbrev pub IsByte : ℕ → Type 0
IsByte b = b < 2 ^ 8

unfoldable pub put_u16 : List ℕ → ℕ → List ℕ
put_u16 p v = set (set p 0 (v / 2 ^ 8 % 2 ^ 8)) 1 (v % 2 ^ 8)

unfoldable pub put_u32 : List ℕ → ℕ → List ℕ
put_u32 p v =
    set (set (set (set p 0 (v / 2 ^ 24 % 2 ^ 8)) 1 (v / 2 ^ 16 % 2 ^ 8)) 2 (v / 2 ^ 8 % 2 ^ 8)) 3
      (v % 2 ^ 8)

-- The loop from `i = 7` down to 0, by the rounds left.
put_u64_from : ℕ → List ℕ → ℕ → List ℕ
put_u64_from zero p v = p
put_u64_from (suc i) p v = put_u64_from i (set p i (v % 2 ^ 8)) (v / 2 ^ 8)

unfoldable pub put_u64 : List ℕ → ℕ → List ℕ
unfolding put_u64_from
put_u64 p v = put_u64_from 8 p v

unfoldable pub get_u16 : List ℕ → ℕ
get_u16 p = bit_or (get_or p 0 0 * 2 ^ 8 % 2 ^ 16) (get_or p 1 0) % 2 ^ 16

unfoldable pub get_u32 : List ℕ → ℕ
get_u32 p =
    bit_or
      (bit_or (bit_or (get_or p 0 0 * 2 ^ 24 % 2 ^ 32) (get_or p 1 0 * 2 ^ 16 % 2 ^ 32))
        (get_or p 2 0 * 2 ^ 8 % 2 ^ 32))
      (get_or p 3 0)

-- The loop over `i`, by the rounds left.
get_u64_from : ℕ → ℕ → List ℕ → ℕ → ℕ
get_u64_from zero i p v = v
get_u64_from (suc r) i p v = get_u64_from r (suc i) p (bit_or (v * 2 ^ 8 % 2 ^ 64) (get_or p i 0))

unfoldable pub get_u64 : List ℕ → ℕ
unfolding get_u64_from
get_u64 p = get_u64_from 8 0 p 0

-- A call `f(p + off)` that writes through its pointer.
abbrev pub at : ℕ → (List ℕ → List ℕ) → List ℕ → List ℕ
at off f p = take off p ++ f (drop off p)
