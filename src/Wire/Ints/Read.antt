-- ===== src/Wire/Ints/Read.antt =====
-- Reading and writing an integer at a place of a longer buffer.
use ctunnel.Prelude.{
  ℕ, zero, suc, ◌+◌, ◌*◌, ◌%◌, ◌^◌, ◌≤◌, ◌<◌, bit_or, ◌≡◌, refl, sym, ap, ap₂, ◌∙◌, List, [], ◌∷◌,
  ◌++◌, append_assoc, get_or, drop, length, All, drop-append, take-append, take_all, arith,
}
use ctunnel.Wire.Ints.{
  IsByte, put_u16, put_u32, put_u64, get_u16, get_u32, get_u64_from, get_u64, at,
}
use ctunnel.Wire.Ints.Laws.{
  big_endian, join, length-big_endian, join-big_endian, big_endian-join, big_endian-IsByte,
  put_u16-big_endian, put_u32-big_endian, put_u64-big_endian, get_u16-join, get_u32-join,
  get_u64-join,
}

-- A reader looks at its own bytes only.
get_or-append : (i : ℕ) (xs ys : List ℕ) → i < length xs → get_or (xs ++ ys) i 0 ≡ get_or xs i 0
get_or-append i [] ys h = absurd (omega arith)
get_or-append zero (x ∷ xs) ys h = refl
get_or-append (suc i) (x ∷ xs) ys h = get_or-append i xs ys (omega arith)

pub get_u16-append : (xs ys : List ℕ) → 2 ≤ length xs → get_u16 (xs ++ ys) ≡ get_u16 xs
unfolding get_u16
get_u16-append xs ys h =
    rw (get_or-append 0 xs ys (omega arith), get_or-append 1 xs ys (omega arith))

pub get_u32-append : (xs ys : List ℕ) → 4 ≤ length xs → get_u32 (xs ++ ys) ≡ get_u32 xs
unfolding get_u32
get_u32-append xs ys h = rw (
  get_or-append 0 xs ys (omega arith),
  get_or-append 1 xs ys (omega arith),
  get_or-append 2 xs ys (omega arith),
  get_or-append 3 xs ys (omega arith),
)

get_u64_from-append :
    (r i v : ℕ) (xs ys : List ℕ)
    → i + r ≤ length xs
    → get_u64_from r i (xs ++ ys) v ≡ get_u64_from r i xs v
unfolding get_u64_from
get_u64_from-append zero i v xs ys h = refl
get_u64_from-append (suc r) i v xs ys h =
    ap (λ (t : ℕ). get_u64_from r (suc i) (xs ++ ys) (bit_or (v * 2 ^ 8 % 2 ^ 64) t))
      (get_or-append i xs ys (omega arith))
    ∙ get_u64_from-append r (suc i) (bit_or (v * 2 ^ 8 % 2 ^ 64) (get_or xs i 0)) xs ys
        (omega arith)

pub get_u64-append : (xs ys : List ℕ) → 8 ≤ length xs → get_u64 (xs ++ ys) ≡ get_u64 xs
unfolding get_u64
get_u64-append xs ys h = get_u64_from-append 8 0 0 xs ys (omega arith)

-- A reader returns the number whose digits stand at its pointer.
pub get_u16-big_endian : (v : ℕ) (ys : List ℕ) → v < 2 ^ 16 → get_u16 (big_endian 2 v ++ ys) ≡ v
get_u16-big_endian v ys h =
    get_u16-append (big_endian 2 v) ys (omega (arith, length-big_endian 2 v))
    ∙ get_u16-join (big_endian 2 v) (omega (arith, length-big_endian 2 v)) (big_endian-IsByte 2 v)
    ∙ ap (join 0) (take_all 2 (big_endian 2 v) (omega (arith, length-big_endian 2 v)))
    ∙ join-big_endian 2 v (omega arith)

pub get_u32-big_endian : (v : ℕ) (ys : List ℕ) → v < 2 ^ 32 → get_u32 (big_endian 4 v ++ ys) ≡ v
get_u32-big_endian v ys h =
    get_u32-append (big_endian 4 v) ys (omega (arith, length-big_endian 4 v))
    ∙ get_u32-join (big_endian 4 v) (omega (arith, length-big_endian 4 v)) (big_endian-IsByte 4 v)
    ∙ ap (join 0) (take_all 4 (big_endian 4 v) (omega (arith, length-big_endian 4 v)))
    ∙ join-big_endian 4 v (omega arith)

pub get_u64-big_endian : (v : ℕ) (ys : List ℕ) → v < 2 ^ 64 → get_u64 (big_endian 8 v ++ ys) ≡ v
get_u64-big_endian v ys h =
    get_u64-append (big_endian 8 v) ys (omega (arith, length-big_endian 8 v))
    ∙ get_u64-join (big_endian 8 v) (omega (arith, length-big_endian 8 v)) (big_endian-IsByte 8 v)
    ∙ ap (join 0) (take_all 8 (big_endian 8 v) (omega (arith, length-big_endian 8 v)))
    ∙ join-big_endian 8 v (omega arith)

-- The other way round: what a reader returns has the bytes at its pointer for digits.
pub big_endian-get_u16 :
    (xs ys : List ℕ) → length xs ≡ 2 → All IsByte xs → big_endian 2 (get_u16 (xs ++ ys)) ≡ xs
big_endian-get_u16 xs ys e h =
    ap (big_endian 2) (
      get_u16-append xs ys (omega arith)
      ∙ get_u16-join xs (omega arith) h
      ∙ ap (join 0) (take_all 2 xs (omega arith)))
    ∙ big_endian-join 2 xs e h

pub big_endian-get_u32 :
    (xs ys : List ℕ) → length xs ≡ 4 → All IsByte xs → big_endian 4 (get_u32 (xs ++ ys)) ≡ xs
big_endian-get_u32 xs ys e h =
    ap (big_endian 4) (
      get_u32-append xs ys (omega arith)
      ∙ get_u32-join xs (omega arith) h
      ∙ ap (join 0) (take_all 4 xs (omega arith)))
    ∙ big_endian-join 4 xs e h

pub big_endian-get_u64 :
    (xs ys : List ℕ) → length xs ≡ 8 → All IsByte xs → big_endian 8 (get_u64 (xs ++ ys)) ≡ xs
big_endian-get_u64 xs ys e h =
    ap (big_endian 8) (
      get_u64-append xs ys (omega arith)
      ∙ get_u64-join xs (omega arith) h
      ∙ ap (join 0) (take_all 8 xs (omega arith)))
    ∙ big_endian-join 8 xs e h

-- A write through `p + off` behind `front`, whose size is `off`.
at_lem :
    (off n : ℕ) (f : List ℕ → List ℕ) (s front junk : List ℕ)
    → length front ≡ off
    → f junk ≡ s ++ drop n junk
    → at off f (front ++ junk) ≡ (front ++ s) ++ drop n junk
at_lem off n f s front junk e h =
    ap₂ (λ (a b : List ℕ). a ++ f b) (take-append off front junk e) (drop-append off front junk e)
    ∙ ap (front ++◌) h
    ∙ sym (append_assoc front s (drop n junk))

module _ (off v : ℕ) (front junk : List ℕ) (e : length front ≡ off) where
  pub at-put_u16 :
      2 ≤ length junk
      → at off (λ q. put_u16 q v) (front ++ junk) ≡ (front ++ big_endian 2 v) ++ drop 2 junk
  at-put_u16 h =
      at_lem off 2 (λ q. put_u16 q v) (big_endian 2 v) front junk e (put_u16-big_endian junk v h)

  pub at-put_u32 :
      4 ≤ length junk
      → at off (λ q. put_u32 q v) (front ++ junk) ≡ (front ++ big_endian 4 v) ++ drop 4 junk
  at-put_u32 h =
      at_lem off 4 (λ q. put_u32 q v) (big_endian 4 v) front junk e (put_u32-big_endian junk v h)

  pub at-put_u64 :
      8 ≤ length junk
      → at off (λ q. put_u64 q v) (front ++ junk) ≡ (front ++ big_endian 8 v) ++ drop 8 junk
  at-put_u64 h =
      at_lem off 8 (λ q. put_u64 q v) (big_endian 8 v) front junk e (put_u64-big_endian junk v h)
