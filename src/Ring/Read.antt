-- ===== src/Ring/Read.antt =====
-- `ct_ring_read`, `ct_ring_peek` and `ct_ring_consume` of src/util/ring.c on the queue.
use ctunnel.Prelude.{
  ℕ, ◌+◌, ◌-◌, ◌%◌, ◌^◌, ◌≤◌, ◌<◌, ◌≡◌, refl, sym, ap, ◌∙◌, List, ◌++◌, append-nil, ltb,
  if◌then◌else◌, get_or, get_or-add, get_or-take, get_or-append_left, get_or-append_right, list_ext,
  length, length-append, length-take, length-drop, take, drop, min, arith,
}
use ctunnel.Ring.{Ring, IsRing, ring_read, ring_peek, ring_consume}
use ctunnel.Ring.Refine.{wrap, contents, cells, length-cells, get_or-cells, mod-wrap}
use native.Mathlib.Decide.{dec_lt}

wrap-wrap :
    (cap head len k i : ℕ)
    → head < cap
    → len ≤ cap
    → i < len - k
    → wrap cap (wrap cap (head + k) + i) ≡ wrap cap (head + (k + i))
wrap-wrap cap head len k i h₁ h₂ h₃ = ground arith

module _ {r : Ring} (v : IsRing r) where
  open r use {bytes, cap, head, len}

  -- A queue whose first `k` bytes are gone.
  cells-drop :
      (k : ℕ) → k ≤ len → cells bytes cap (wrap cap (head + k)) (len - k) ≡ drop k (contents r)
  unfolding contents
  cells-drop k h =
      list_ext left right 0
        (omega (
          arith,
          length-cells bytes cap (wrap cap (head + k)) (len - k),
          length-drop k (cells bytes cap head len),
          length-cells bytes cap head len,
        ))
        (λ i hi. cell i (omega (arith, length-cells bytes cap (wrap cap (head + k)) (len - k))))
    where
      left : List ℕ
      left = cells bytes cap (wrap cap (head + k)) (len - k)

      right : List ℕ
      right = drop k (cells bytes cap head len)

      cell : (i : ℕ) → i < len - k → get_or left i 0 ≡ get_or right i 0
      cell i hi =
          get_or-cells bytes cap (wrap cap (head + k)) (len - k) i hi
          ∙ ap (λ (j : ℕ). get_or bytes j 0) (wrap-wrap cap head len k i v.head_in v.len_in hi)
          ∙ sym (get_or-cells bytes cap head len (k + i) (omega arith))
          ∙ get_or-add k i (cells bytes cap head len) 0

  -- The bytes that one or two copies take from the memory.
  copied :
      (k : ℕ)
      → k ≤ len
      → let a = if ltb k (cap - head) then k else cap - head in
        take a (drop head bytes) ++ take (k - a) bytes ≡ take k (contents r)
  unfolding contents
  copied k h =
      list_ext left (take k (cells bytes cap head len)) 0
        (omega (
          arith,
          length-left,
          length-take k (cells bytes cap head len),
          length-cells bytes cap head len,
        ))
        (λ i hi. cell i (omega (arith, length-left)))
    where
      a : ℕ
      a = if ltb k (cap - head) then k else cap - head

      a_facts : (a ≤ k) × (a ≤ cap - head) × (k - a ≤ head)
      a_facts = ground (arith, v.head_in, v.len_in)

      a_full : (i : ℕ) → a ≤ i → i < k → a ≡ cap - head
      a_full i h₁ h₂ = ground arith

      left : List ℕ
      left = take a (drop head bytes) ++ take (k - a) bytes

      length-front : length (take a (drop head bytes)) ≡ a
      length-front =
          omega (arith, length-take a (drop head bytes), length-drop head bytes, v.memory, a_facts)

      length-left : length left ≡ k
      length-left = omega (
        arith,
        length-append (take a (drop head bytes)) (take (k - a) bytes),
        length-front,
        length-take (k - a) bytes,
        v.memory,
        v.head_in,
        a_facts,
      )

      cell : (i : ℕ) → i < k → get_or left i 0 ≡ get_or (take k (cells bytes cap head len)) i 0
      cell i hi = elim (dec_lt i a) [
        | yes near ↦
            get_or-append_left i (take a (drop head bytes)) (take (k - a) bytes) 0
              (omega (arith, length-front))
            ∙ get_or-take a i (drop head bytes) 0 near
            ∙ sym (get_or-add head i bytes 0)
            ∙ ap (λ (j : ℕ). get_or bytes j 0) (straight near)
            ∙ back
        | no far ↦
            get_or-append_right i (i - a) (take a (drop head bytes)) (take (k - a) bytes) 0
              (omega (arith, length-front))
            ∙ get_or-take (k - a) (i - a) bytes 0 (omega (arith, a_facts))
            ∙ ap (λ (j : ℕ). get_or bytes j 0) (round (omega arith))
            ∙ back
      ]
        where
          back :
              get_or bytes (wrap cap (head + i)) 0 ≡ get_or (take k (cells bytes cap head len)) i 0
          back =
              sym (get_or-cells bytes cap head len i (omega arith))
              ∙ sym (get_or-take k i (cells bytes cap head len) 0 hi)

          straight : i < a → head + i ≡ wrap cap (head + i)
          straight near = ground (arith, a_facts, v.head_in)

          round : a ≤ i → i - a ≡ wrap cap (head + i)
          round far = ground (arith, a_full i far hi, a_facts, v.head_in, v.len_in)

  head-lem : (k : ℕ) → k ≤ len → (head + k) % 2 ^ 64 % cap ≡ wrap cap (head + k)
  head-lem k h =
      mod-wrap cap (head + k) (omega (arith, v.head_in)) v.small
        (omega (arith, v.head_in, v.len_in))

  advanced-IsRing :
      (k : ℕ) → k ≤ len → IsRing (record r { head = wrap cap (head + k); len = len - k })
  advanced-IsRing k h = ground (arith, v.memory, v.small, v.head_in, v.len_in)

  clamp : ℕ → ℕ
  clamp n = if ltb len n then len else n

  clamp_lem : (n : ℕ) → (clamp n ≡ min n len) × (clamp n ≤ len)
  unfolding clamp
  clamp_lem n = ground arith

-- A read returns the oldest bytes of the queue in order, as many as are asked for and there, and
-- leaves the rest of the queue in a well-formed ring of the same capacity.
pub ring_read_refines :
    (r : Ring) (n : ℕ)
    → IsRing r
    → let (k, dst, r') = ring_read r n in
      (k ≡ min n r.len)
      × (dst ≡ take k (contents r))
      × (contents r' ≡ drop k (contents r))
      × (r'.len ≡ r.len - k)
      × (r'.cap ≡ r.cap)
      × IsRing r'
unfolding ring_read contents clamp
ring_read_refines r n v =
    let (count, low) = clamp_lem v n in
    rw (head-lem v (clamp v n) low) (
      count,
      copied v (clamp v n) low,
      cells-drop v (clamp v n) low,
      refl,
      refl,
      advanced-IsRing v (clamp v n) low,
    )

-- Consuming drops the oldest bytes of the queue, at most those that are there.
pub ring_consume_refines :
    (r : Ring) (n : ℕ)
    → IsRing r
    → (contents (ring_consume r n) ≡ drop (min n r.len) (contents r))
      × ((ring_consume r n).len ≡ r.len - min n r.len)
      × ((ring_consume r n).cap ≡ r.cap)
      × IsRing (ring_consume r n)
unfolding ring_consume contents clamp
ring_consume_refines r n v =
    let (count, low) = clamp_lem v n in
    rw (head-lem v (clamp v n) low, ← count)
      (cells-drop v (clamp v n) low, refl, refl, advanced-IsRing v (clamp v n) low)

one_copy : (x y : List ℕ) (a k : ℕ) → a ≡ k → take a x ++ take (k - a) y ≡ take k x
one_copy x y a k e =
    let none_left : k - a ≡ 0 = omega arith in
    ap (λ (t : ℕ). take a x ++ take t y) none_left
    ∙ append-nil (take a x)
    ∙ ap (λ (t : ℕ). take t x) e

-- Peeking shows a prefix of the queue, at the pointer, with a byte at least unless the queue is empty.
pub ring_peek_prefix :
    (r : Ring)
    → IsRing r
    → let (k, p) = ring_peek r in (k ≤ r.len) × (min 1 r.len ≤ k) × (take k p ≡ take k (contents r))
unfolding ring_peek contents
ring_peek_prefix r v = (ground arith, ground (arith, v.head_in), shown)
  where
    k : ℕ
    k = if ltb (r.cap - r.head) r.len then r.cap - r.head else r.len

    shown : take k (drop r.head r.bytes) ≡ take k (contents r)
    shown =
        sym (
          one_copy (drop r.head r.bytes) r.bytes
            (if ltb k (r.cap - r.head) then k else r.cap - r.head) k (ground arith))
        ∙ copied v k (ground arith)
