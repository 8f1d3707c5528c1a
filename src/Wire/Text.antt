-- ===== src/Wire/Text.antt =====
-- src/protocol/protocol.c: `ct_pack_string` and `ct_unpack_string`. A C string is the list of its
-- bytes before the terminating NUL.
pub mod Laws
use ctunnel.Prelude.{
  ℕ, ◌+◌, ◌-◌, ◌%◌, ◌^◌, ◌||◌, Option, none, some, List, ltb, leb, if◌then◌else◌, length, take,
  drop, blit,
}
use ctunnel.Wire.Ints.{put_u16, get_u16, at}

-- The writes of `ct_pack_string`.
unfoldable pub pack_string_write : List ℕ → (off : ℕ) → List ℕ → List ℕ
pack_string_write b off s = blit (off + 2) s (at off (λ q. put_u16 q (length s % 2 ^ 16)) b)

-- The buffer and the offset after the call; `none` is -1. `cap - off` is only reached at `off ≤ cap`.
unfoldable pub pack_string : List ℕ → (cap off : ℕ) → List ℕ → ℕ → Option (List ℕ × ℕ)
pack_string b cap off s max =
    let n = length s in
    if ltb max n || ltb 65535 n || ltb cap off || ltb (cap - off) (2 + n)
    then none
    else some (pack_string_write b off s, off + (2 + n))

-- The bytes that are copied to `out`, and the offset after the call. `cap` is the size of `out`,
-- which takes a NUL behind them.
unfoldable pub unpack_string : List ℕ → (n off cap : ℕ) → Option (List ℕ × ℕ)
unpack_string b n off cap =
    if ltb n off || ltb (n - off) 2
    then none
    else (let z = get_u16 (drop off b) in
        if leb cap z || ltb (n - off - 2) z
        then none
        else some (take z (drop (off + 2) b), off + (2 + z)))
