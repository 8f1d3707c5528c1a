-- ===== src/Ring/Tests.antt =====
-- The ring wrapping round the end of its memory.
use ctunnel.Prelude.{◌-◌, ◌+◌, ◌≤◌, ◌≡◌, refl, [], ◌∷◌, ◌++◌, take, drop, min, arith}
use ctunnel.Ring.{Ring, IsRing, ring_write, ring_read, ring_peek, ring_consume}
use ctunnel.Ring.Refine.{contents, cells}
use ctunnel.Ring.Write.{ring_write_refines}
use ctunnel.Ring.Read.{ring_read_refines, ring_consume_refines, ring_peek_prefix}

-- Three bytes of five, from the fourth cell on.
abbrev wrapped : Ring
wrapped = record { bytes = 12 ∷ 0 ∷ 0 ∷ 10 ∷ 11 ∷ []; cap = 5; head = 3; len = 3 }

wrapped-IsRing : IsRing wrapped
wrapped-IsRing = record {
  memory = refl;
  small = omega arith;
  head_in = omega arith;
  len_in = omega arith;
}

three_bytes : contents wrapped ≡ 10 ∷ 11 ∷ 12 ∷ []
unfolding contents cells
three_bytes = refl

ring_write_refines_example :
    let (k, r') = ring_write wrapped (13 ∷ 14 ∷ 15 ∷ []) 3 in
    (k ≡ min 3 (5 - 3))
    × (contents r' ≡ contents wrapped ++ take k (13 ∷ 14 ∷ 15 ∷ []))
    × (r'.len ≡ 3 + k)
    × (r'.cap ≡ 5)
    × IsRing r'
ring_write_refines_example =
    ring_write_refines wrapped (13 ∷ 14 ∷ 15 ∷ []) 3 wrapped-IsRing (omega arith)

ring_read_refines_example :
    let (k, dst, r') = ring_read wrapped 9 in
    (k ≡ min 9 3)
    × (dst ≡ take k (contents wrapped))
    × (contents r' ≡ drop k (contents wrapped))
    × (r'.len ≡ 3 - k)
    × (r'.cap ≡ 5)
    × IsRing r'
ring_read_refines_example = ring_read_refines wrapped 9 wrapped-IsRing

ring_consume_refines_example :
    (contents (ring_consume wrapped 2) ≡ drop (min 2 3) (contents wrapped))
    × ((ring_consume wrapped 2).len ≡ 3 - min 2 3)
    × ((ring_consume wrapped 2).cap ≡ 5)
    × IsRing (ring_consume wrapped 2)
ring_consume_refines_example = ring_consume_refines wrapped 2 wrapped-IsRing

ring_peek_prefix_example :
    let (k, p) = ring_peek wrapped in
    (k ≤ 3) × (min 1 3 ≤ k) × (take k p ≡ take k (contents wrapped))
ring_peek_prefix_example = ring_peek_prefix wrapped wrapped-IsRing
