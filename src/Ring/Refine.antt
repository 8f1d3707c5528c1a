-- ===== src/Ring/Refine.antt =====
-- A ring of src/util/ring.c as a queue of bytes.
use ctunnel.Prelude.{
  ℕ, zero, suc, ◌+◌, ◌-◌, ◌%◌, ◌^◌, ◌≤◌, ◌<◌, ◌≡◌, refl, sym, ap, ◌∙◌, List, [], ◌∷◌, ltb,
  if◌then◌else◌, get_or, get_or-add, get_or-take, get_or-blit_in, get_or-blit_before,
  get_or-blit_after, length, length-take, length-drop, length-blit, take, drop, blit, inl, inr, ◌⊎◌,
  arith,
}
use ctunnel.Ring.{Ring}
use native.Mathlib.Nat.{mod-eq_of_lt, mod-eq-sub-mod}
use native.Mathlib.Decide.{dec_lt}

-- An index below twice the capacity, taken round the end.
abbrev pub wrap : ℕ → ℕ → ℕ
wrap cap k = if ltb k cap then k else k - cap

-- `n` bytes from the index `h` on.
unfoldable pub cells : List ℕ → (cap h n : ℕ) → List ℕ
cells b cap h zero = []
cells b cap h (suc n) = get_or b (wrap cap h) 0 ∷ cells b cap (suc h) n

unfoldable pub contents : Ring → List ℕ
contents r = cells r.bytes r.cap r.head r.len

pub length-cells : (b : List ℕ) (cap h n : ℕ) → length (cells b cap h n) ≡ n
unfolding cells
length-cells b cap h zero = refl
length-cells b cap h (suc n) = ap suc (length-cells b cap (suc h) n)

pub length-contents : (r : Ring) → length (contents r) ≡ r.len
unfolding contents
length-contents r = length-cells r.bytes r.cap r.head r.len

pub get_or-cells :
    (b : List ℕ) (cap h n i : ℕ)
    → i < n
    → get_or (cells b cap h n) i 0 ≡ get_or b (wrap cap (h + i)) 0
unfolding cells
get_or-cells b cap h zero i hi = absurd (omega arith)
get_or-cells b cap h (suc n) zero hi =
    let e : h ≡ h + zero = omega arith in ap (λ (k : ℕ). get_or b (wrap cap k) 0) e
get_or-cells b cap h (suc n) (suc i) hi =
    let e : suc h + i ≡ h + suc i = omega arith in
    get_or-cells b cap (suc h) n i (omega arith) ∙ ap (λ (k : ℕ). get_or b (wrap cap k) 0) e

-- The remainder of the code is `wrap`, and its sum does not overflow.
pub mod-wrap : (cap k : ℕ) → 0 < cap → cap ≤ 2 ^ 63 → k < cap + cap → k % 2 ^ 64 % cap ≡ wrap cap k
mod-wrap cap k pos small h =
    ap (λ (t : ℕ). t % cap) (mod-eq_of_lt {n = k} {m = 2 ^ 64} (omega arith)) ∙ round
  where
    round : k % cap ≡ wrap cap k
    round = elim (dec_lt k cap) [
      | yes p ↦ ground (arith, mod-eq_of_lt p)
      | no p ↦ ground (
        arith,
        mod-eq-sub-mod {n = k} {m = cap} (omega arith),
        mod-eq_of_lt {n = k - cap} {m = cap} (omega arith),
      )
    ]

-- The two copies of `ct_ring_write`: `a` bytes at `tail`, and the `m` after them at the start.
module _ (b src : List ℕ) (tail a m : ℕ) (fits : tail + a ≤ length b) (fits₀ : m ≤ length b)
    (enough : a + m ≤ length src) where
  unfoldable pub first : List ℕ
  first = blit tail (take a src) b

  unfoldable pub second : List ℕ
  second = blit 0 (take m (drop a src)) first

  size-first : length (take a src) ≡ a
  size-first = omega (arith, length-take a src)

  size-second : length (take m (drop a src)) ≡ m
  size-second = omega (arith, length-take m (drop a src), length-drop a src)

  length-first : length first ≡ length b
  unfolding first
  length-first = length-blit tail (take a src) b (omega (arith, size-first))

  pub length-second : length second ≡ length b
  unfolding second
  length-second =
      length-blit 0 (take m (drop a src)) first (omega (arith, size-second, length-first))
      ∙ length-first

  pub second_start : (j k : ℕ) → j < m → k ≡ a + j → get_or second j 0 ≡ get_or src k 0
  unfolding second
  second_start j k h e =
      get_or-blit_in 0 j j (take m (drop a src)) first 0 (omega (arith, size-second, length-first))
        (omega arith) (omega (arith, size-second))
      ∙ get_or-take m j (drop a src) 0 h
      ∙ sym (get_or-add a j src 0)
      ∙ ap (λ (t : ℕ). get_or src t 0) (sym e)

  pub second_end : (j k : ℕ) → m ≤ j → k < a → j ≡ tail + k → get_or second j 0 ≡ get_or src k 0
  unfolding second first
  second_end j k h hk e =
      get_or-blit_after 0 j (take m (drop a src)) first 0 (omega (arith, size-second, length-first))
        (omega (arith, size-second))
      ∙ get_or-blit_in tail j k (take a src) b 0 (omega (arith, size-first)) e
          (omega (arith, size-first))
      ∙ get_or-take a k src 0 hk

  pub second_kept : (j : ℕ) → m ≤ j → (j < tail) ⊎ (tail + a ≤ j) → get_or second j 0 ≡ get_or b j 0
  unfolding second first
  second_kept j h out =
      get_or-blit_after 0 j (take m (drop a src)) first 0 (omega (arith, size-second, length-first))
        (omega (arith, size-second))
      ∙ kept out
    where
      kept : (j < tail) ⊎ (tail + a ≤ j) → get_or first j 0 ≡ get_or b j 0
      kept (inl before) = get_or-blit_before tail j (take a src) b 0 (omega arith) before
      kept (inr after) =
          get_or-blit_after tail j (take a src) b 0 (omega (arith, size-first))
            (omega (arith, size-first))

-- The sizes of one call of `ct_ring_write`.
module _ (cap head len n : ℕ) (head_in : head < cap) (len_in : len ≤ cap)
    (n_in : n ≤ cap - len) where
  abbrev pub tail_of : ℕ
  tail_of = wrap cap (head + len)

  abbrev pub first_of : ℕ
  first_of = if ltb n (cap - tail_of) then n else cap - tail_of

  pub sizes : (tail_of + first_of ≤ cap) × (first_of ≤ n) × (n - first_of ≤ cap)
  sizes = ground arith

  pub old_index :
      (i : ℕ)
      → i < len
      → (n - first_of ≤ wrap cap (head + i))
        × ((wrap cap (head + i) < tail_of) ⊎ (tail_of + first_of ≤ wrap cap (head + i)))
  old_index i h = ground arith

  pub new_index :
      (k : ℕ)
      → k < n
      → ((k < first_of)
          × (n - first_of ≤ wrap cap (head + (len + k)))
          × (wrap cap (head + (len + k)) ≡ tail_of + k))
        ⊎ ((wrap cap (head + (len + k)) < n - first_of)
            × (k ≡ first_of + wrap cap (head + (len + k))))
  new_index k h = ground arith
