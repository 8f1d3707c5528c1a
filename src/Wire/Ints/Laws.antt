-- ===== src/Wire/Ints/Laws.antt =====
-- The integers of the wire as big-endian digit strings, independent of the code's shifts.
use ctunnel.Prelude.{
  ℕ, zero, suc, ◌+◌, ◌*◌, ◌/◌, ◌%◌, ◌^◌, ◌≤◌, ◌<◌, bit_or, ◌≡◌, refl, sym, ap, ap₂, ◌∙◌, List, [],
  ◌∷◌, ◌++◌, append-nil, append_assoc, get_or, set, take, drop, length, length-append, All, arith,
}
use ctunnel.Prelude.Bits.{bit_or_fields}
use ctunnel.Wire.Ints.{
  IsByte, put_u16, put_u32, put_u64_from, put_u64, get_u16, get_u32, get_u64_from, get_u64,
}
use native.Mathlib.Nat.{mod-eq_of_lt, pow-suc, one-le-pow}

-- The `k` lowest digits of `v` in base 256, the highest first.
unfoldable pub big_endian : ℕ → ℕ → List ℕ
big_endian zero v = []
big_endian (suc k) v = big_endian k (v / 2 ^ 8) ++ (v % 2 ^ 8 ∷ [])

-- The number that the digits `xs` stand for, behind those of `v`.
unfoldable pub join : ℕ → List ℕ → ℕ
join v [] = v
join v (x ∷ xs) = join (v * 2 ^ 8 + x) xs

pub length-big_endian : (k v : ℕ) → length (big_endian k v) ≡ k
unfolding big_endian
length-big_endian zero v = refl
length-big_endian (suc k) v = omega (
  arith,
  length-append (big_endian k (v / 2 ^ 8)) (v % 2 ^ 8 ∷ []),
  length-big_endian k (v / 2 ^ 8),
)

join-snoc : (v : ℕ) (xs : List ℕ) (b : ℕ) → join v (xs ++ (b ∷ [])) ≡ join v xs * 2 ^ 8 + b
unfolding join
join-snoc v [] b = refl
join-snoc v (x ∷ xs) b = join-snoc (v * 2 ^ 8 + x) xs b

pub join-big_endian : (k v : ℕ) → v < 256 ^ k → join 0 (big_endian k v) ≡ v
unfolding big_endian
join-big_endian zero v h = unfold join in omega arith
join-big_endian (suc k) v h = omega (
  arith,
  join-snoc 0 (big_endian k (v / 2 ^ 8)) (v % 2 ^ 8),
  join-big_endian k (v / 2 ^ 8) (omega (arith, pow-suc 256 k)),
)

big_endian-join_from :
    (j v : ℕ) (xs : List ℕ)
    → All IsByte xs
    → big_endian (length xs + j) (join v xs) ≡ big_endian j v ++ xs
unfolding join big_endian
big_endian-join_from j v [] h =
    let e : 0 + j ≡ j = omega arith in rw e (sym (append-nil (big_endian j v)))
big_endian-join_from j v (x ∷ xs) h =
    let e : suc (length xs) + j ≡ length xs + suc j = omega arith in
    let quotient : (v * 2 ^ 8 + x) / 2 ^ 8 ≡ v = omega (arith, h.0) in
    let digit : (v * 2 ^ 8 + x) % 2 ^ 8 ≡ x = omega (arith, h.0) in
    ap (λ (k : ℕ). big_endian k (join (v * 2 ^ 8 + x) xs)) e
    ∙ big_endian-join_from (suc j) (v * 2 ^ 8 + x) xs h.1
    ∙ ap₂ (λ (q d : ℕ). (big_endian j q ++ (d ∷ [])) ++ xs) quotient digit
    ∙ append_assoc (big_endian j v) (x ∷ []) xs

pub big_endian-join :
    (k : ℕ) (xs : List ℕ) → length xs ≡ k → All IsByte xs → big_endian k (join 0 xs) ≡ xs
big_endian-join k xs e h =
    let e' : k ≡ length xs + 0 = omega arith in
    ap (λ (n : ℕ). big_endian n (join 0 xs)) e'
    ∙ big_endian-join_from 0 0 xs h
    ∙ (unfold big_endian in refl)

pub big_endian-IsByte : (k v : ℕ) → All IsByte (big_endian k v)
unfolding big_endian
big_endian-IsByte zero v = tt
big_endian-IsByte (suc k) v =
    All-snoc (big_endian k (v / 2 ^ 8)) (v % 2 ^ 8) (big_endian-IsByte k (v / 2 ^ 8)) (omega arith)
  where
    All-snoc : (xs : List ℕ) (b : ℕ) → All IsByte xs → IsByte b → All IsByte (xs ++ (b ∷ []))
    All-snoc [] b h hb = (hb, tt)
    All-snoc (x ∷ xs) b h hb = (h.0, All-snoc xs b h.1 hb)

drop-set : (k b : ℕ) (p : List ℕ) → k < length p → drop k (set p k b) ≡ b ∷ drop (suc k) p
drop-set k b [] h = absurd (omega arith)
drop-set zero b (x ∷ p) h = refl
drop-set (suc k) b (x ∷ p) h = drop-set k b p (omega arith)

length-set' : (p : List ℕ) (i b : ℕ) → length (set p i b) ≡ length p
length-set' [] i b = refl
length-set' (x ∷ p) zero b = refl
length-set' (x ∷ p) (suc i) b = ap suc (length-set' p i b)

put_u64_from-big_endian :
    (k : ℕ) (p : List ℕ) (v : ℕ) → k ≤ length p → put_u64_from k p v ≡ big_endian k v ++ drop k p
unfolding put_u64_from big_endian
put_u64_from-big_endian zero p v h = refl
put_u64_from-big_endian (suc k) p v h =
    put_u64_from-big_endian k (set p k (v % 2 ^ 8)) (v / 2 ^ 8)
      (omega (arith, length-set' p k (v % 2 ^ 8)))
    ∙ ap (big_endian k (v / 2 ^ 8) ++◌) (drop-set k (v % 2 ^ 8) p (omega arith))
    ∙ sym (append_assoc (big_endian k (v / 2 ^ 8)) (v % 2 ^ 8 ∷ []) (drop (suc k) p))

-- Each writer puts the digits over the first bytes and leaves the others.
pub put_u64-big_endian :
    (p : List ℕ) (v : ℕ) → 8 ≤ length p → put_u64 p v ≡ big_endian 8 v ++ drop 8 p
unfolding put_u64
put_u64-big_endian p v h = put_u64_from-big_endian 8 p v h

pub put_u16-big_endian :
    (p : List ℕ) (v : ℕ) → 2 ≤ length p → put_u16 p v ≡ big_endian 2 v ++ drop 2 p
unfolding put_u16 big_endian
put_u16-big_endian [] v h = absurd (omega arith)
put_u16-big_endian (a ∷ []) v h = absurd (omega arith)
put_u16-big_endian (a ∷ b ∷ p) v h = refl

pub put_u32-big_endian :
    (p : List ℕ) (v : ℕ) → 4 ≤ length p → put_u32 p v ≡ big_endian 4 v ++ drop 4 p
unfolding put_u32 big_endian
put_u32-big_endian [] v h = absurd (omega arith)
put_u32-big_endian (a ∷ []) v h = absurd (omega arith)
put_u32-big_endian (a ∷ b ∷ []) v h = absurd (omega arith)
put_u32-big_endian (a ∷ b ∷ c ∷ []) v h = absurd (omega arith)
put_u32-big_endian (a ∷ b ∷ c ∷ d ∷ p) v h =
    let e₁ : v / 2 ^ 24 % 2 ^ 8 ≡ v / 2 ^ 8 / 2 ^ 8 / 2 ^ 8 % 2 ^ 8 = omega arith in
    let e₂ : v / 2 ^ 16 % 2 ^ 8 ≡ v / 2 ^ 8 / 2 ^ 8 % 2 ^ 8 = omega arith in
    ap₂ (λ (x y : ℕ). x ∷ y ∷ v / 2 ^ 8 % 2 ^ 8 ∷ v % 2 ^ 8 ∷ p) e₁ e₂

-- Each reader returns the number that the first bytes stand for.
get_or-drop : (i : ℕ) (p : List ℕ) → i < length p → drop i p ≡ get_or p i 0 ∷ drop (suc i) p
get_or-drop i [] h = absurd (omega arith)
get_or-drop zero (x ∷ p) h = refl
get_or-drop (suc i) (x ∷ p) h = get_or-drop i p (omega arith)

All-get_or : (i : ℕ) (p : List ℕ) → All IsByte p → IsByte (get_or p i 0)
All-get_or i [] h = omega arith
All-get_or zero (x ∷ p) h = h.0
All-get_or (suc i) (x ∷ p) h = All-get_or i p h.1

get_u64_step :
    (v x : ℕ) → v * 2 ^ 8 < 2 ^ 64 → x < 2 ^ 8 → bit_or (v * 2 ^ 8 % 2 ^ 64) x ≡ v * 2 ^ 8 + x
get_u64_step v x h hx = rw (mod-eq_of_lt h) (bit_or_fields 8 v x hx)

get_u64_from-join :
    (r i v m : ℕ) (p : List ℕ)
    → v < m
    → m * 256 ^ r ≤ 2 ^ 64
    → i + r ≤ length p
    → All IsByte p
    → get_u64_from r i p v ≡ join v (take r (drop i p))
unfolding get_u64_from join
get_u64_from-join zero i v m p hv hm hp hb = refl
get_u64_from-join (suc r) i v m p hv hm hp hb =
    ap (get_u64_from r (suc i) p) (get_u64_step v x small (All-get_or i p hb))
    ∙ get_u64_from-join r (suc i) (v * 2 ^ 8 + x) (m * 256) p (omega (arith, All-get_or i p hb))
        room (omega arith) hb
    ∙ rw (get_or-drop i p (omega arith)) refl
  where
    x : ℕ
    x = get_or p i 0

    room : m * 256 * 256 ^ r ≤ 2 ^ 64
    room = omega (arith, ap (λ (t : ℕ). m * t) (pow-suc 256 r))

    small : v * 2 ^ 8 < 2 ^ 64
    small = grind (arith, room, one-le-pow r 256)

pub get_u64-join : (p : List ℕ) → 8 ≤ length p → All IsByte p → get_u64 p ≡ join 0 (take 8 p)
unfolding get_u64
get_u64-join p h hb = get_u64_from-join 8 0 0 1 p (omega arith) (omega arith) (omega arith) hb

pub get_u16-join : (p : List ℕ) → 2 ≤ length p → All IsByte p → get_u16 p ≡ join 0 (take 2 p)
unfolding get_u16 join
get_u16-join [] h hb = absurd (omega arith)
get_u16-join (a ∷ []) h hb = absurd (omega arith)
get_u16-join (a ∷ b ∷ p) h hb =
    let e : a * 2 ^ 8 % 2 ^ 16 ≡ a * 2 ^ 8 = omega arith in
    rw (e, bit_or_fields 8 a b hb.1.0) (omega arith)

pub get_u32-join : (p : List ℕ) → 4 ≤ length p → All IsByte p → get_u32 p ≡ join 0 (take 4 p)
unfolding get_u32 join
get_u32-join [] h hb = absurd (omega arith)
get_u32-join (a ∷ []) h hb = absurd (omega arith)
get_u32-join (a ∷ b ∷ []) h hb = absurd (omega arith)
get_u32-join (a ∷ b ∷ c ∷ []) h hb = absurd (omega arith)
get_u32-join (a ∷ b ∷ c ∷ d ∷ p) h (ha, (hb, (hc, (hd, hp)))) =
    ap (λ (t : ℕ). bit_or (bit_or t (c * 2 ^ 8 % 2 ^ 32)) d) first
    ∙ ap (λ (t : ℕ). bit_or t d) second
    ∙ third
  where
    e₁ : a * 2 ^ 24 % 2 ^ 32 ≡ a * 2 ^ 24
    e₁ = omega arith

    e₂ : b * 2 ^ 16 % 2 ^ 32 ≡ b * 2 ^ 16
    e₂ = omega arith

    e₃ : c * 2 ^ 8 % 2 ^ 32 ≡ c * 2 ^ 8
    e₃ = omega arith

    first : bit_or (a * 2 ^ 24 % 2 ^ 32) (b * 2 ^ 16 % 2 ^ 32) ≡ (a * 2 ^ 8 + b) * 2 ^ 16
    first = ap₂ bit_or e₁ e₂ ∙ omega (arith, bit_or_fields 24 a (b * 2 ^ 16) (omega arith))

    second :
        bit_or ((a * 2 ^ 8 + b) * 2 ^ 16) (c * 2 ^ 8 % 2 ^ 32)
        ≡ ((a * 2 ^ 8 + b) * 2 ^ 8 + c) * 2 ^ 8
    second =
        ap (bit_or ((a * 2 ^ 8 + b) * 2 ^ 16)) e₃
        ∙ omega (arith, bit_or_fields 16 (a * 2 ^ 8 + b) (c * 2 ^ 8) (omega arith))

    third :
        bit_or (((a * 2 ^ 8 + b) * 2 ^ 8 + c) * 2 ^ 8) d
        ≡ (((0 * 2 ^ 8 + a) * 2 ^ 8 + b) * 2 ^ 8 + c) * 2 ^ 8 + d
    third = omega (arith, bit_or_fields 8 ((a * 2 ^ 8 + b) * 2 ^ 8 + c) d hd)
