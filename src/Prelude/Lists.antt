-- ===== src/Prelude/Lists.antt =====
-- Lists measured and indexed by native numbers, under the library's names, and memory as lists:
-- a pointer `p + k` into a buffer is `drop k p`.
use mathlib.Core.Logic.{◌⊎◌}
use Prim.Native.Nat.{ℕ, zero, suc, ◌+◌, ◌-◌, ◌≤◌, ◌<◌, min}
use mathlib.Core.Path.{◌≡◌, refl, sym, ap, ap₂, ◌∙◌}
use mathlib.Core.List.{List, [], ◌∷◌, ◌++◌, append_assoc}
use native.Mathlib.Omega.{arith}

module _ {ℓ} {A : Type ℓ} where
  abbrev pub length : List A → ℕ
  length [] = 0
  length (x ∷ xs) = suc (length xs)

  abbrev pub get_or : List A → ℕ → A → A
  get_or [] i d = d
  get_or (x ∷ xs) zero d = x
  get_or (x ∷ xs) (suc i) d = get_or xs i d

  abbrev pub set : List A → ℕ → A → List A
  set [] i v = []
  set (x ∷ xs) zero v = v ∷ xs
  set (x ∷ xs) (suc i) v = x ∷ set xs i v

  abbrev pub take : ℕ → List A → List A
  take zero xs = []
  take (suc n) [] = []
  take (suc n) (x ∷ xs) = x ∷ take n xs

  abbrev pub drop : ℕ → List A → List A
  drop zero xs = xs
  drop (suc n) [] = []
  drop (suc n) (x ∷ xs) = drop n xs

  abbrev pub replicate : ℕ → A → List A
  replicate zero a = []
  replicate (suc n) a = a ∷ replicate n a

  abbrev pub Any : (A → Type 0) → List A → Type 0
  Any P [] = ⊥
  Any P (x ∷ xs) = P x ⊎ Any P xs

  abbrev pub All {κ} : (A → Type κ) → List A → Type κ
  All P [] = Unit {κ}
  All P (x ∷ xs) = P x × All P xs

  pub length-append : (xs ys : List A) → length (xs ++ ys) ≡ length xs + length ys
  length-append [] ys = omega arith
  length-append (x ∷ xs) ys = omega (arith, length-append xs ys)

  pub length-set : (xs : List A) (i : ℕ) (v : A) → length (set xs i v) ≡ length xs
  length-set [] i v = refl
  length-set (x ∷ xs) zero v = refl
  length-set (x ∷ xs) (suc i) v = ap suc (length-set xs i v)

  pub length-take : (n : ℕ) (xs : List A) → length (take n xs) ≡ min n (length xs)
  length-take zero xs = omega arith
  length-take (suc n) [] = omega arith
  length-take (suc n) (x ∷ xs) = omega (arith, length-take n xs)

  pub length-drop : (n : ℕ) (xs : List A) → length (drop n xs) ≡ length xs - n
  length-drop zero xs = omega arith
  length-drop (suc n) [] = omega arith
  length-drop (suc n) (x ∷ xs) = omega (arith, length-drop n xs)

  pub take-append-drop : (n : ℕ) (xs : List A) → take n xs ++ drop n xs ≡ xs
  take-append-drop zero xs = refl
  take-append-drop (suc n) [] = refl
  take-append-drop (suc n) (x ∷ xs) = ap (x ∷◌) (take-append-drop n xs)

  -- Cuts at the seam of an append. The equation lets the index be any expression.
  pub drop-append : (n : ℕ) (xs ys : List A) → length xs ≡ n → drop n (xs ++ ys) ≡ ys
  drop-append zero [] ys h = refl
  drop-append zero (x ∷ xs) ys h = absurd (omega arith)
  drop-append (suc n) [] ys h = absurd (omega arith)
  drop-append (suc n) (x ∷ xs) ys h = drop-append n xs ys (omega arith)

  pub take-append : (n : ℕ) (xs ys : List A) → length xs ≡ n → take n (xs ++ ys) ≡ xs
  take-append zero [] ys h = refl
  take-append zero (x ∷ xs) ys h = absurd (omega arith)
  take-append (suc n) [] ys h = absurd (omega arith)
  take-append (suc n) (x ∷ xs) ys h = ap (x ∷◌) (take-append n xs ys (omega arith))

  pub drop-append_le :
      (n : ℕ) (xs ys : List A) → n ≤ length xs → drop n (xs ++ ys) ≡ drop n xs ++ ys
  drop-append_le zero xs ys h = refl
  drop-append_le (suc n) [] ys h = absurd (omega arith)
  drop-append_le (suc n) (x ∷ xs) ys h = drop-append_le n xs ys (omega arith)

  pub take-append_le : (n : ℕ) (xs ys : List A) → n ≤ length xs → take n (xs ++ ys) ≡ take n xs
  take-append_le zero xs ys h = refl
  take-append_le (suc n) [] ys h = absurd (omega arith)
  take-append_le (suc n) (x ∷ xs) ys h = ap (x ∷◌) (take-append_le n xs ys (omega arith))

  pub take_all : (n : ℕ) (xs : List A) → length xs ≤ n → take n xs ≡ xs
  take_all zero [] h = refl
  take_all zero (x ∷ xs) h = absurd (omega arith)
  take_all (suc n) [] h = refl
  take_all (suc n) (x ∷ xs) h = ap (x ∷◌) (take_all n xs (omega arith))

  drop-nil : (n : ℕ) → let none_left : List A = [] in drop n none_left ≡ []
  drop-nil zero = refl
  drop-nil (suc n) = refl

  pub drop-drop : (m n : ℕ) (xs : List A) → drop m (drop n xs) ≡ drop (n + m) xs
  drop-drop m zero xs = let e : m ≡ zero + m = omega arith in ap (λ (k : ℕ). drop k xs) e
  drop-drop m (suc n) [] = drop-nil m ∙ sym (drop-nil (suc n + m))
  drop-drop m (suc n) (x ∷ xs) =
      let e : suc (n + m) ≡ suc n + m = omega arith in
      drop-drop m n xs ∙ ap (λ (k : ℕ). drop k (x ∷ xs)) e

  -- `p[n + i]` through the pointer `p + n`
  pub get_or-add : (n i : ℕ) (xs : List A) (d : A) → get_or xs (n + i) d ≡ get_or (drop n xs) i d
  get_or-add zero i xs d = let e : zero + i ≡ i = omega arith in ap (λ (k : ℕ). get_or xs k d) e
  get_or-add (suc n) i [] d = refl
  get_or-add (suc n) i (x ∷ xs) d =
      let e : suc n + i ≡ suc (n + i) = omega arith in
      ap (λ (k : ℕ). get_or (x ∷ xs) k d) e ∙ get_or-add n i xs d

  -- `memcpy(b + off, s, length s)`
  abbrev pub blit : ℕ → List A → List A → List A
  blit off s b = take off b ++ (s ++ drop (off + length s) b)

  -- A copy that fits leaves the size of the buffer.
  pub length-blit :
      (off : ℕ) (s b : List A) → off + length s ≤ length b → length (blit off s b) ≡ length b
  length-blit off s b h = omega (
    arith,
    length-append (take off b) (s ++ drop (off + length s) b),
    length-append s (drop (off + length s) b),
    length-take off b,
    length-drop (off + length s) b,
  )

  -- The bytes up to the end of the copy are those before it, and the copy.
  pub take-blit :
      (off n : ℕ) (s b : List A)
      → off ≤ length b
      → off + length s ≡ n
      → take n (blit off s b) ≡ take off b ++ s
  take-blit off n s b h e =
      ap (take n) (sym (append_assoc (take off b) s (drop (off + length s) b)))
      ∙ take-append n (take off b ++ s) (drop (off + length s) b)
          (omega (arith, length-append (take off b) s, length-take off b))

module _ {ℓ κ} {A : Type ℓ} (P : A → Type κ) where
  pub All-take : (n : ℕ) (xs : List A) → All P xs → All P (take n xs)
  All-take zero xs h = tt
  All-take (suc n) [] h = tt
  All-take (suc n) (x ∷ xs) h = (h.0, All-take n xs h.1)

  pub All-drop : (n : ℕ) (xs : List A) → All P xs → All P (drop n xs)
  All-drop zero xs h = h
  All-drop (suc n) [] h = tt
  All-drop (suc n) (x ∷ xs) h = All-drop n xs h.1

  pub All-append : (xs ys : List A) → All P xs → All P ys → All P (xs ++ ys)
  All-append [] ys hx hy = hy
  All-append (x ∷ xs) ys hx hy = (hx.0, All-append xs ys hx.1 hy)

-- Lists by their elements, for memory that is copied piecewise.
module _ {ℓ} {A : Type ℓ} where
  pub get_or-take : (n i : ℕ) (xs : List A) (d : A) → i < n → get_or (take n xs) i d ≡ get_or xs i d
  get_or-take zero i xs d h = absurd (omega arith)
  get_or-take (suc n) i [] d h = refl
  get_or-take (suc n) zero (x ∷ xs) d h = refl
  get_or-take (suc n) (suc i) (x ∷ xs) d h = get_or-take n i xs d (omega arith)

  pub get_or-append_left :
      (i : ℕ) (xs ys : List A) (d : A) → i < length xs → get_or (xs ++ ys) i d ≡ get_or xs i d
  get_or-append_left i [] ys d h = absurd (omega arith)
  get_or-append_left zero (x ∷ xs) ys d h = refl
  get_or-append_left (suc i) (x ∷ xs) ys d h = get_or-append_left i xs ys d (omega arith)

  pub get_or-append_right :
      (i j : ℕ) (xs ys : List A) (d : A) → i ≡ length xs + j → get_or (xs ++ ys) i d ≡ get_or ys j d
  get_or-append_right i j [] ys d e =
      let e' : i ≡ j = omega arith in ap (λ (k : ℕ). get_or ys k d) e'
  get_or-append_right zero j (x ∷ xs) ys d e = absurd (omega arith)
  get_or-append_right (suc i) j (x ∷ xs) ys d e = get_or-append_right i j xs ys d (omega arith)

  -- A cell inside a copy, and one outside of it.
  pub get_or-blit_in :
      (off i j : ℕ) (s b : List A) (d : A)
      → off + length s ≤ length b
      → i ≡ off + j
      → j < length s
      → get_or (blit off s b) i d ≡ get_or s j d
  get_or-blit_in off i j s b d h e hj =
      get_or-append_right i j (take off b) (s ++ drop (off + length s) b) d
        (omega (arith, length-take off b))
      ∙ get_or-append_left j s (drop (off + length s) b) d hj

  pub get_or-blit_before :
      (off i : ℕ) (s b : List A) (d : A)
      → off ≤ length b
      → i < off
      → get_or (blit off s b) i d ≡ get_or b i d
  get_or-blit_before off i s b d h hi =
      get_or-append_left i (take off b) (s ++ drop (off + length s) b) d
        (omega (arith, length-take off b))
      ∙ get_or-take off i b d hi

  pub get_or-blit_after :
      (off i : ℕ) (s b : List A) (d : A)
      → off + length s ≤ length b
      → off + length s ≤ i
      → get_or (blit off s b) i d ≡ get_or b i d
  get_or-blit_after off i s b d h hi =
      let e : off + length s + (i - (off + length s)) ≡ i = omega arith in
      get_or-append_right i (i - off) (take off b) (s ++ drop (off + length s) b) d
        (omega (arith, length-take off b))
      ∙ get_or-append_right (i - off) (i - (off + length s)) s (drop (off + length s) b) d
          (omega arith)
      ∙ sym (get_or-add (off + length s) (i - (off + length s)) b d)
      ∙ ap (λ (k : ℕ). get_or b k d) e

  -- Lists with the same size and the same elements are one.
  pub list_ext :
      (xs ys : List A) (d : A)
      → length xs ≡ length ys
      → ((i : ℕ) → i < length xs → get_or xs i d ≡ get_or ys i d)
      → xs ≡ ys
  list_ext [] [] d e h = refl
  list_ext [] (y ∷ ys) d e h = absurd (omega arith)
  list_ext (x ∷ xs) [] d e h = absurd (omega arith)
  list_ext (x ∷ xs) (y ∷ ys) d e h =
      ap₂ ◌∷◌ (h 0 (omega arith)) (list_ext xs ys d (omega arith) (λ i hi. h (suc i) (omega arith)))
