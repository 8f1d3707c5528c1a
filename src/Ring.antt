-- ===== src/Ring.antt =====
-- src/util/ring.c: a byte ring of fixed capacity, the buffer of every relay direction.
pub mod Refine
pub mod Write
pub mod Read
mod Tests
use ctunnel.Prelude.{
  ℕ, ◌+◌, ◌-◌, ◌%◌, ◌^◌, ◌≤◌, ◌<◌, ◌≡◌, Option, none, some, List, [], ◌++◌, ltb, if◌then◌else◌,
  length, take, drop, blit, min,
}

-- `ct_ring`; `bytes` is the memory behind its `data` pointer.
pub record Ring : Type 0 where
  pub bytes : List ℕ
  pub cap : ℕ
  pub head : ℕ
  pub len : ℕ

-- `memory` is what `malloc(cap)` returned: `none`, or `cap` bytes of any content.
unfoldable pub ring_init : Option (List ℕ) → ℕ → Option Ring
ring_init none cap = none
ring_init (some memory) cap = some (record { bytes = memory; cap = cap; head = 0; len = 0 })

-- The memory is wiped and released, and the structure zeroed.
unfoldable pub ring_free : Ring → Ring
ring_free r = record { bytes = []; cap = 0; head = 0; len = 0 }

-- Two copies, up to the end of the memory and from its start: the number of bytes taken, and the ring.
-- `src` points to `n` bytes at least.
unfoldable pub ring_write : Ring → (src : List ℕ) → (n : ℕ) → ℕ × Ring
ring_write r src n =
    let n' = if ltb (r.cap - r.len) n then r.cap - r.len else n in
    let tail = (r.head + r.len) % 2 ^ 64 % r.cap in
    let a = if ltb n' (r.cap - tail) then n' else r.cap - tail in
    let first = blit tail (take a src) r.bytes in
    let second = blit 0 (take (n' - a) (drop a src)) first in
    (n', record r { bytes = second; len = r.len + n' })

-- The number of bytes, the bytes that are copied to `dst`, and the ring.
unfoldable pub ring_read : Ring → (n : ℕ) → ℕ × List ℕ × Ring
ring_read r n =
    let n' = if ltb r.len n then r.len else n in
    let a = if ltb n' (r.cap - r.head) then n' else r.cap - r.head in
    (
      n',
      take a (drop r.head r.bytes) ++ take (n' - a) r.bytes,
      record r { head = (r.head + n') % 2 ^ 64 % r.cap; len = r.len - n' },
    )

-- The size of the first contiguous piece, and a pointer to it.
unfoldable pub ring_peek : Ring → ℕ × List ℕ
ring_peek r = let n = r.cap - r.head in (if ltb n r.len then n else r.len, drop r.head r.bytes)

unfoldable pub ring_consume : Ring → ℕ → Ring
ring_consume r n =
    let n' = if ltb r.len n then r.len else n in
    record r { head = (r.head + n') % 2 ^ 64 % r.cap; len = r.len - n' }

-- What `ct_ring_init` establishes and every operation keeps.
pub record IsRing (r : Ring) : Type 0 where
  pub memory : length r.bytes ≡ r.cap
  pub small : r.cap ≤ 2 ^ 63
  pub head_in : r.head < r.cap
  pub len_in : r.len ≤ r.cap
