-- ===== src/Wire/Buffer.antt =====
-- A buffer that is being filled from the front, as the packing functions of src/protocol/protocol.c
-- and src/net/net.c do through a pointer and an offset.
use ctunnel.Prelude.{
  ℕ, zero, suc, ◌+◌, ◌≤◌, ◌≡◌, refl, sym, ap, ◌∙◌, subst, List, [], ◌∷◌, ◌++◌, length, length-drop,
  take, drop, drop-drop, set, blit, length-blit, take-blit, arith,
}
use ctunnel.Wire.Ints.{put_u16, put_u32, put_u64, at}
use ctunnel.Wire.Ints.Laws.{
  big_endian, length-big_endian, put_u16-big_endian, put_u32-big_endian, put_u64-big_endian,
}

-- The first `n` bytes of `b` are `s`; its size is still `cap`, so nothing was written past its end.
pub record IsFilled (b : List ℕ) (cap n : ℕ) (s : List ℕ) : Type 0 where
  pub size : length b ≡ cap
  pub done : take n b ≡ s
  pub within : n ≤ cap

module _ {b : List ℕ} {cap n : ℕ} {s : List ℕ} (v : IsFilled b cap n s) where
  -- A copy behind what is there.
  pub blit-IsFilled :
      (t : List ℕ) (m : ℕ) → n + length t ≡ m → m ≤ cap → IsFilled (blit n t b) cap m (s ++ t)
  blit-IsFilled t m e room = record {
    size = length-blit n t b (omega arith) ∙ v.size;
    done = take-blit n m t b (omega arith) e ∙ ap (λ (x : List ℕ). x ++ t) v.done;
    within = room;
  }

  -- A write through `b + n` whose effect is such a copy.
  pub at-IsFilled :
      (f : List ℕ → List ℕ) (t : List ℕ) (m : ℕ)
      → ((q : List ℕ) → length t ≤ length q → f q ≡ t ++ drop (length t) q)
      → n + length t ≡ m
      → m ≤ cap
      → IsFilled (at n f b) cap m (s ++ t)
  at-IsFilled f t m writes e room =
      subst (λ (x : List ℕ). IsFilled x cap m (s ++ t)) (sym same) (blit-IsFilled t m e room)
    where
      same : at n f b ≡ blit n t b
      same =
          ap (take n b ++◌) (writes (drop n b) (omega (arith, length-drop n b)))
          ∙ ap (λ (x : List ℕ). take n b ++ (t ++ x)) (drop-drop (length t) n b)

  pub put_u16-IsFilled :
      (w m : ℕ)
      → n + 2 ≡ m
      → m ≤ cap
      → IsFilled (at n (λ q. put_u16 q w) b) cap m (s ++ big_endian 2 w)
  put_u16-IsFilled w m e room =
      at-IsFilled (λ q. put_u16 q w) (big_endian 2 w) m
        (λ q h.
          rw length-big_endian (put_u16-big_endian q w (omega (arith, length-big_endian 2 w))))
        (omega (arith, length-big_endian 2 w)) room

  pub put_u32-IsFilled :
      (w m : ℕ)
      → n + 4 ≡ m
      → m ≤ cap
      → IsFilled (at n (λ q. put_u32 q w) b) cap m (s ++ big_endian 4 w)
  put_u32-IsFilled w m e room =
      at-IsFilled (λ q. put_u32 q w) (big_endian 4 w) m
        (λ q h.
          rw length-big_endian (put_u32-big_endian q w (omega (arith, length-big_endian 4 w))))
        (omega (arith, length-big_endian 4 w)) room

  pub put_u64-IsFilled :
      (w m : ℕ)
      → n + 8 ≡ m
      → m ≤ cap
      → IsFilled (at n (λ q. put_u64 q w) b) cap m (s ++ big_endian 8 w)
  put_u64-IsFilled w m e room =
      at-IsFilled (λ q. put_u64 q w) (big_endian 8 w) m
        (λ q h.
          rw length-big_endian (put_u64-big_endian q w (omega (arith, length-big_endian 8 w))))
        (omega (arith, length-big_endian 8 w)) room

set-at : (b : List ℕ) (n x : ℕ) → set b n x ≡ at n (λ q. set q 0 x) b
set-at [] zero x = refl
set-at [] (suc n) x = refl
set-at (y ∷ b) zero x = refl
set-at (y ∷ b) (suc n) x = ap (y ∷◌) (set-at b n x)

set_head : (x : ℕ) (q : List ℕ) → 1 ≤ length q → set q 0 x ≡ (x ∷ []) ++ drop 1 q
set_head x [] h = absurd (omega arith)
set_head x (y ∷ q) h = refl

-- `b[n] = x`
pub set-IsFilled :
    {b : List ℕ} {cap n : ℕ} {s : List ℕ}
    → IsFilled b cap n s
    → (x m : ℕ) → n + 1 ≡ m
    → m ≤ cap
    → IsFilled (set b n x) cap m (s ++ (x ∷ []))
set-IsFilled {b} {cap} {n} {s} v x m e room =
    subst (λ (t : List ℕ). IsFilled t cap m (s ++ (x ∷ []))) (sym (set-at b n x))
      (at-IsFilled v (λ q. set q 0 x) (x ∷ []) m (set_head x) e room)

pub empty-IsFilled : (b : List ℕ) → IsFilled b (length b) 0 []
empty-IsFilled b = record { size = refl; done = refl; within = omega arith }
