-- ===== src/Prelude/Bits.antt =====
-- The bitwise operators of C on unsigned words, at variables: `|` of disjoint fields is a sum, and
-- a bit of `|` and `&` is the larger and the smaller of the two bits.
use Prim.Native.Nat.{ℕ, zero, suc, ◌+◌, ◌-◌, ◌*◌, ◌/◌, ◌%◌, ◌^◌, ◌≤◌, ◌<◌, min, max}
use Prim.Native.Nat.{bit_and, bit_or, digits, bitwise, bit_and-bitwise, bit_or-bitwise}
use mathlib.Core.Path.{◌≡◌, refl, sym, ap, ◌∙◌}
use mathlib.Core.Logic.{◌≢◌}
use native.Mathlib.Nat.{
  pow-suc, one-le-pow, mod-lt, mod-eq_of_lt, add-mul-mod_self_right, div-add-mod',
}
use native.Mathlib.Omega.{arith}

-- The library's operators recurse on binary digits with the first operand as fuel. More fuel than the
-- operand needs changes nothing.
module _ (ended : ℕ → ℕ) (op : ℕ → ℕ → ℕ) where
  no_digits : (fuel b : ℕ) → digits ended op fuel 0 b ≡ ended b
  no_digits zero b = refl
  no_digits (suc fuel) b = refl

  spare_fuel :
      (fuel spare a b : ℕ)
      → a ≤ fuel
      → digits ended op (fuel + spare) a b ≡ digits ended op fuel a b
  spare_fuel zero spare (suc a) b h = absurd (omega arith)
  spare_fuel fuel spare zero b h = no_digits (fuel + spare) b ∙ sym (no_digits fuel b)
  spare_fuel (suc fuel) spare (suc a) b h =
      let next : suc fuel + spare ≡ suc (fuel + spare) = omega arith in
      ap (λ (t : ℕ). digits ended op t (suc a) b) next
      ∙ ap (λ (t : ℕ). t * 2 + op (suc a % 2) (b % 2))
          (spare_fuel fuel spare (suc a / 2) (b / 2) (omega arith))

  halved :
      (a b : ℕ)
      → bitwise ended op (suc a) b
        ≡ op (suc a % 2) (b % 2) + 2 * bitwise ended op (suc a / 2) (b / 2)
  halved a b =
      let all : suc a / 2 + (a - suc a / 2) ≡ a = omega arith in
      omega (
        arith,
        ap (λ (t : ℕ). digits ended op t (suc a / 2) (b / 2)) all,
        spare_fuel (suc a / 2) (a - suc a / 2) (suc a / 2) (b / 2) (omega arith),
      )

or_halves : (a b : ℕ) → bit_or a b ≡ max (a % 2) (b % 2) + 2 * bit_or (a / 2) (b / 2)
or_halves (suc a) b = simp bit_or-bitwise (halved (λ y. y) max a b)
or_halves zero b = simp bit_or-bitwise (omega arith)

and_halves : (a b : ℕ) → bit_and a b ≡ min (a % 2) (b % 2) + 2 * bit_and (a / 2) (b / 2)
and_halves (suc a) b = simp bit_and-bitwise (halved (λ y. 0) min a b)
and_halves zero b = simp bit_and-bitwise (omega arith)

-- Zero as the second operand, for operands up to a bound.
with_zero : (bound a : ℕ) → a ≤ bound → (bit_or a 0 ≡ a) × (bit_and a 0 ≡ 0)
with_zero bound zero h = (refl, refl)
with_zero zero (suc a) h = absurd (omega arith)
with_zero (suc bound) (suc a) h =
    let (of_or, of_and) = with_zero bound (suc a / 2) (omega arith) in
    (omega (arith, or_halves (suc a) 0, of_or), omega (arith, and_halves (suc a) 0, of_and))

-- `(q << k) | r`
pub bit_or_fields : (k q r : ℕ) → r < 2 ^ k → bit_or (q * 2 ^ k) r ≡ q * 2 ^ k + r
bit_or_fields zero q r h = ground (arith, with_zero q q (omega arith))
bit_or_fields (suc k) q r h = ground (
  arith,
  or_halves (q * 2 ^ suc k) r,
  ap (λ (t : ℕ). q * t) (pow-suc 2 k),
  pow-suc 2 k,
  bit_or_fields k q (r / 2) (omega (arith, pow-suc 2 k)),
)

-- Bit `k`.
abbrev pub bit : ℕ → ℕ → ℕ
bit zero a = a % 2
bit (suc k) a = bit k (a / 2)

pub bit-le-one : (k a : ℕ) → bit k a ≤ 1
bit-le-one zero a = omega arith
bit-le-one (suc k) a = bit-le-one k (a / 2)

pub bit-bit_or : (k a b : ℕ) → bit k (bit_or a b) ≡ max (bit k a) (bit k b)
bit-bit_or zero a b = omega (arith, or_halves a b)
bit-bit_or (suc k) a b =
    let e : bit_or a b / 2 ≡ bit_or (a / 2) (b / 2) = omega (arith, or_halves a b) in
    ap (bit k) e ∙ bit-bit_or k (a / 2) (b / 2)

pub bit-zero : (k : ℕ) → bit k 0 ≡ 0
bit-zero zero = refl
bit-zero (suc k) = bit-zero k

half-two-pow : (k : ℕ) → 2 ^ suc k / 2 ≡ 2 ^ k
half-two-pow k = omega (arith, pow-suc 2 k)

-- `1 << k` has bit `k` alone.
pub bit-two-pow_self : (k : ℕ) → bit k (2 ^ k) ≡ 1
bit-two-pow_self zero = refl
bit-two-pow_self (suc k) = ap (bit k) (half-two-pow k) ∙ bit-two-pow_self k

pub bit-two-pow_ne : (j k : ℕ) → j ≢ k → bit j (2 ^ k) ≡ 0
bit-two-pow_ne zero zero h = absurd (h refl)
bit-two-pow_ne zero (suc k) h = omega (arith, pow-suc 2 k)
bit-two-pow_ne (suc j) zero h = bit-zero j
bit-two-pow_ne (suc j) (suc k) h =
    ap (bit j) (half-two-pow k) ∙ bit-two-pow_ne j k (λ e. h (ap suc e))

-- `a & (1 << k)` is zero exactly when bit `k` of `a` is.
pub bit_and-two-pow : (k a : ℕ) → bit_and a (2 ^ k) ≡ bit k a * 2 ^ k
bit_and-two-pow zero a = omega (arith, and_halves a 1, with_zero (a / 2) (a / 2) (omega arith))
bit_and-two-pow (suc k) a = omega (
  arith,
  and_halves a (2 ^ suc k),
  ap (bit_and (a / 2)) (half-two-pow k),
  pow-suc 2 k,
  bit_and-two-pow k (a / 2),
  ap (λ (t : ℕ). bit k (a / 2) * t) (pow-suc 2 k),
)

-- A shift to the left moves the bits up, and the width cuts them.
-- The low `w + 1` bits are the lowest, and the low `w` of the rest.
mod_double : (w a : ℕ) → a % 2 ^ suc w ≡ 2 * ((a / 2) % 2 ^ w) + a % 2
mod_double w a =
    ap (λ (t : ℕ). t % 2 ^ suc w) split
    ∙ add-mul-mod_self_right (2 * ((a / 2) % 2 ^ w) + a % 2) (a / 2 / 2 ^ w) (2 ^ suc w)
    ∙ mod-eq_of_lt small
  where
    small : 2 * ((a / 2) % 2 ^ w) + a % 2 < 2 ^ suc w
    small = omega (arith, pow-suc 2 w, mod-lt (a / 2) {m = 2 ^ w} (one-le-pow w 2 (omega arith)))

    split : a ≡ (2 * ((a / 2) % 2 ^ w) + a % 2) + (a / 2 / 2 ^ w) * 2 ^ suc w
    split =
        omega (arith, div-add-mod' (a / 2) (2 ^ w), ap (λ (t : ℕ). a / 2 / 2 ^ w * t) (pow-suc 2 w))

pub bit-mod_lt : (w k a : ℕ) → k < w → bit k (a % 2 ^ w) ≡ bit k a
bit-mod_lt zero k a h = absurd (omega arith)
bit-mod_lt (suc w) zero a h = omega (arith, mod_double w a)
bit-mod_lt (suc w) (suc k) a h =
    let e : a % 2 ^ suc w / 2 ≡ (a / 2) % 2 ^ w = omega (arith, mod_double w a) in
    ap (bit k) e ∙ bit-mod_lt w k (a / 2) (omega arith)

half-shift : (s a : ℕ) → a * 2 ^ suc s / 2 ≡ a * 2 ^ s
half-shift s a = omega (arith, ap (λ (t : ℕ). a * t) (pow-suc 2 s))

pub bit-shift_lt : (s k a : ℕ) → k < s → bit k (a * 2 ^ s) ≡ 0
bit-shift_lt zero k a h = absurd (omega arith)
bit-shift_lt (suc s) zero a h = omega (arith, ap (λ (t : ℕ). a * t) (pow-suc 2 s))
bit-shift_lt (suc s) (suc k) a h = ap (bit k) (half-shift s a) ∙ bit-shift_lt s k a (omega arith)

pub bit-shift : (s k a : ℕ) → bit (s + k) (a * 2 ^ s) ≡ bit k a
bit-shift zero k a = ap₀ (omega arith) (omega arith)
  where
    ap₀ : zero + k ≡ k → a * 2 ^ zero ≡ a → bit (zero + k) (a * 2 ^ zero) ≡ bit k a
    ap₀ p q = cc
bit-shift (suc s) k a =
    let e : suc s + k ≡ suc (s + k) = omega arith in
    ap (λ (t : ℕ). bit t (a * 2 ^ suc s)) e ∙ ap (bit (s + k)) (half-shift s a) ∙ bit-shift s k a
