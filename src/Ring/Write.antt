-- ===== src/Ring/Write.antt =====
-- `ct_ring_write` of src/util/ring.c on the queue.
use ctunnel.Prelude.{
  ℕ, ◌+◌, ◌-◌, ◌≤◌, ◌<◌, ◌≡◌, refl, sym, ap, ◌∙◌, List, ◌++◌, ltb, if◌then◌else◌, get_or,
  get_or-take, get_or-append_left, get_or-append_right, list_ext, length, length-append,
  length-take, take, drop, blit, min, inl, inr, arith,
}
use ctunnel.Ring.{Ring, IsRing, ring_write}
use ctunnel.Ring.Refine.{
  wrap, contents, cells, length-cells, length-contents, get_or-cells, mod-wrap, first, second,
  length-second, second_start, second_end, second_kept, tail_of, first_of, sizes, old_index,
  new_index,
}
use native.Mathlib.Decide.{dec_lt}

module _ {r : Ring} (v : IsRing r) (src : List ℕ) (n : ℕ) (enough : n ≤ length src) where
  open r use {bytes, cap, head, len}

  -- How many bytes are taken.
  taken : ℕ
  taken = if ltb (cap - len) n then cap - len else n

  taken_facts : (taken ≡ min n (cap - len)) × (taken ≤ cap - len) × (taken ≤ length src)
  unfolding taken
  taken_facts = ground arith

  a : ℕ
  a = first_of cap head len taken v.head_in v.len_in taken_facts.1

  tail : ℕ
  tail = tail_of cap head len taken v.head_in v.len_in taken_facts.1

  after : List ℕ
  unfolding second
  after = blit 0 (take (taken - a) (drop a src)) (blit tail (take a src) bytes)

  -- The model's call, with its remainder resolved.
  ring_write_lem : ring_write r src n ≡ (taken, record r { bytes = after; len = len + taken })
  unfolding ring_write taken after a tail
  ring_write_lem =
      ap
        (λ (t : ℕ).
          let n' = taken in
          let a' = if ltb n' (cap - t) then n' else cap - t in
          (
            n',
            record r {
              bytes = blit 0 (take (n' - a') (drop a' src)) (blit t (take a' src) bytes);
              len = len + n';
            },
          ))
        (mod-wrap cap (head + len) (omega (arith, v.head_in)) v.small
          (omega (arith, v.head_in, v.len_in)))

  fits : tail + a ≤ length bytes
  unfolding tail a
  fits = omega (arith, sizes cap head len taken v.head_in v.len_in taken_facts.1, v.memory)

  rest_in : taken - a ≤ length bytes
  unfolding a
  rest_in = omega (arith, sizes cap head len taken v.head_in v.len_in taken_facts.1, v.memory)

  parts : a + (taken - a) ≤ length src
  unfolding a
  parts = omega (arith, sizes cap head len taken v.head_in v.len_in taken_facts.1, taken_facts)

  kept :
      (i : ℕ)
      → i < len
      → get_or after (wrap cap (head + i)) 0 ≡ get_or bytes (wrap cap (head + i)) 0
  unfolding after second first a tail
  kept i h =
      let (low, side) = old_index cap head len taken v.head_in v.len_in taken_facts.1 i h in
      second_kept bytes src tail a (taken - a) fits rest_in parts (wrap cap (head + i)) low side

  added : (k : ℕ) → k < taken → get_or after (wrap cap (head + (len + k))) 0 ≡ get_or src k 0
  unfolding after second first a tail
  added k h = elim (new_index cap head len taken v.head_in v.len_in taken_facts.1 k h) [
    | inl (hk, low, e) ↦
        second_end bytes src tail a (taken - a) fits rest_in parts (wrap cap (head + (len + k))) k
          low hk e
    | inr (low, e) ↦
        second_start bytes src tail a (taken - a) fits rest_in parts (wrap cap (head + (len + k))) k
          low e
  ]

  contents-after : cells after cap head (len + taken) ≡ contents r ++ take taken src
  unfolding contents
  contents-after =
      list_ext (cells after cap head (len + taken)) (contents r ++ take taken src) 0
        (omega (
          arith,
          length-cells after cap head (len + taken),
          length-append (contents r) (take taken src),
          length-contents r,
          length-take taken src,
          taken_facts,
        ))
        (λ i h. cell i (omega (arith, length-cells after cap head (len + taken))))
    where
      cell :
          (i : ℕ)
          → i < len + taken
          → get_or (cells after cap head (len + taken)) i 0
            ≡ get_or (cells bytes cap head len ++ take taken src) i 0
      cell i h = elim (dec_lt i len) [
        | yes old ↦
            get_or-cells after cap head (len + taken) i h
            ∙ kept i old
            ∙ sym (get_or-cells bytes cap head len i old)
            ∙ sym (
                get_or-append_left i (cells bytes cap head len) (take taken src) 0
                  (omega (arith, length-cells bytes cap head len)))
        | no fresh ↦
            let e : i ≡ len + (i - len) = omega arith in
            get_or-cells after cap head (len + taken) i h
            ∙ ap (λ (k : ℕ). get_or after (wrap cap (head + k)) 0) e
            ∙ added (i - len) (omega arith)
            ∙ sym (get_or-take taken (i - len) src 0 (omega arith))
            ∙ sym (
                get_or-append_right i (i - len) (cells bytes cap head len) (take taken src) 0
                  (omega (arith, length-cells bytes cap head len)))
      ]

  length-after : length after ≡ cap
  unfolding after second first
  length-after = length-second bytes src tail a (taken - a) fits rest_in parts ∙ v.memory

-- A write takes as many of the `n` bytes as fit, appends exactly those to the queue, and keeps the
-- ring well formed and its capacity: it never overwrites a byte that is still to be read.
pub ring_write_refines :
    (r : Ring) (src : List ℕ) (n : ℕ)
    → IsRing r
    → n ≤ length src
    → let (k, r') = ring_write r src n in
      (k ≡ min n (r.cap - r.len))
      × (contents r' ≡ contents r ++ take k src)
      × (r'.len ≡ r.len + k)
      × (r'.cap ≡ r.cap)
      × IsRing r'
unfolding contents
ring_write_refines r src n v enough = rw (ring_write_lem v src n enough) (
  (taken_facts v src n enough).0,
  contents-after v src n enough,
  refl,
  refl,
  record {
    memory = length-after v src n enough;
    small = v.small;
    head_in = v.head_in;
    len_in = omega (arith, taken_facts v src n enough, v.len_in);
  },
)
