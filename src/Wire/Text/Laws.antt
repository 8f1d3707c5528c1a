-- ===== src/Wire/Text/Laws.antt =====
-- Packed strings: `ct_pack_string` and `ct_unpack_string` of src/protocol/protocol.c.
use ctunnel.Prelude.{
  ℕ, ◌+◌, ◌%◌, ◌≤◌, ◌<◌, ◌^◌, ◌≡◌, refl, sym, ap, ◌∙◌, subst, some, List, ◌++◌, append_assoc,
  length, length-append, length-drop, take, drop, drop-drop, drop-append, take-append,
  drop-append_le, take-append_le, arith,
}
use ctunnel.Wire.Ints.{put_u16, get_u16, at}
use ctunnel.Wire.Ints.Laws.{big_endian, length-big_endian}
use ctunnel.Wire.Ints.Read.{get_u16-append, get_u16-big_endian}
use ctunnel.Wire.Buffer.{IsFilled, blit-IsFilled, put_u16-IsFilled}
use ctunnel.Wire.Text.{pack_string_write, pack_string, unpack_string}
use native.Mathlib.Nat.{mod-eq_of_lt}

-- A string as it stands on the wire: its length in two bytes, and its bytes.
abbrev pub packed : List ℕ → List ℕ
packed s = big_endian 2 (length s) ++ s

pub length-packed : (s : List ℕ) → length (packed s) ≡ 2 + length s
length-packed s =
    omega (arith, length-append (big_endian 2 (length s)) s, length-big_endian 2 (length s))

-- What a successful call says.
pack_string_facts :
    (b : List ℕ) (cap off : ℕ) (s : List ℕ) (max : ℕ) {b' : List ℕ} {off' : ℕ}
    → pack_string b cap off s max ≡ some (b', off')
    → (length s ≤ max)
      × (length s ≤ 65535)
      × (off + (2 + length s) ≤ cap)
      × (pack_string_write b off s ≡ b')
      × (off + (2 + length s) ≡ off')
unfolding pack_string
pack_string_facts b cap off s max e = ground arith

pub pack_string_write-IsFilled :
    {b : List ℕ} {cap off : ℕ} {done : List ℕ} (s : List ℕ)
    → IsFilled b cap off done
    → length s ≤ 65535
    → off + (2 + length s) ≤ cap
    → IsFilled (pack_string_write b off s) cap (off + (2 + length s)) (done ++ packed s)
unfolding pack_string_write
pack_string_write-IsFilled {b} {cap} {off} {done} s v small room =
    subst (λ (t : List ℕ). IsFilled (pack_string_write b off s) cap (off + (2 + length s)) t)
      (append_assoc done (big_endian 2 (length s)) s)
      (blit-IsFilled counted s (off + (2 + length s)) (omega arith) room)
  where
    counted :
        IsFilled
          (at off (λ q. put_u16 q (length s % 2 ^ 16)) b)
          cap
          (off + 2)
          (done ++ big_endian 2 (length s))
    counted =
        subst
          (λ (n : ℕ).
            IsFilled (at off (λ q. put_u16 q (length s % 2 ^ 16)) b) cap (off + 2)
              (done ++ big_endian 2 n))
          (mod-eq_of_lt {n = length s} {m = 2 ^ 16} (omega arith))
          (put_u16-IsFilled v (length s % 2 ^ 16) (off + 2) refl (omega arith))

-- A successful call appends the packed string, inside the buffer.
pub pack_string-IsFilled :
    (b : List ℕ) (cap off : ℕ) (done s : List ℕ) (max : ℕ) {b' : List ℕ} {off' : ℕ}
    → IsFilled b cap off done
    → pack_string b cap off s max ≡ some (b', off')
    → (off' ≡ off + (2 + length s)) × IsFilled b' cap off' (done ++ packed s)
pack_string-IsFilled b cap off done s max {b'} {off'} v e =
    let (_, small, room, same, offset) = pack_string_facts b cap off s max e in
    (
      sym offset,
      subst (λ (t : List ℕ). IsFilled t cap off' (done ++ packed s)) same
          (subst (λ (n : ℕ). IsFilled (pack_string_write b off s) cap n (done ++ packed s)) offset
            (pack_string_write-IsFilled s v small room)),
    )

-- A call succeeds where the string is within its limits and fits the buffer.
pub pack_string_fits :
    (b : List ℕ) (cap off : ℕ) (s : List ℕ) (max : ℕ)
    → length s ≤ max
    → length s ≤ 65535
    → off + (2 + length s) ≤ cap
    → pack_string b cap off s max ≡ some (pack_string_write b off s, off + (2 + length s))
unfolding pack_string
pack_string_fits b cap off s max h small room = ground arith

-- Reading a packed string at its offset.
pub unpack_string-packed :
    (pre s rest : List ℕ) (n off cap : ℕ)
    → length pre ≡ off
    → length s < 2 ^ 16
    → length s < cap
    → off + (2 + length s) ≤ n
    → unpack_string (pre ++ (packed s ++ rest)) n off cap ≡ some (s, off + (2 + length s))
unfolding unpack_string
unpack_string-packed pre s rest n off cap e small fits room =
    ground (arith, at_off, at_text, counted)
  where
    whole : List ℕ
    whole = pre ++ (packed s ++ rest)

    at_off : drop off whole ≡ packed s ++ rest
    at_off = drop-append off pre (packed s ++ rest) e

    counted : get_u16 (packed s ++ rest) ≡ length s
    counted =
        ap get_u16 (append_assoc (big_endian 2 (length s)) s rest)
        ∙ get_u16-big_endian (length s) (s ++ rest) small

    at_text : take (length s) (drop (off + 2) whole) ≡ s
    at_text =
        ap (take (length s)) (
          sym (drop-drop 2 off whole)
          ∙ ap (drop 2) (at_off ∙ append_assoc (big_endian 2 (length s)) s rest)
          ∙ drop-append 2 (big_endian 2 (length s)) (s ++ rest) (length-big_endian 2 (length s)))
        ∙ take-append (length s) s rest refl

-- What a successful reading says: the string and its length lie inside the input and inside `out`.
pub unpack_string_facts :
    (b : List ℕ) (n off cap : ℕ) {s : List ℕ} {off' : ℕ}
    → unpack_string b n off cap ≡ some (s, off')
    → (off' ≡ off + (2 + get_u16 (drop off b)))
      × (off' ≤ n)
      × (get_u16 (drop off b) < cap)
      × (s ≡ take (get_u16 (drop off b)) (drop (off + 2) b))
unfolding unpack_string
unpack_string_facts b n off cap e = ground arith

pub get_u16-drop-append :
    (off : ℕ) (p more : List ℕ)
    → off + 2 ≤ length p
    → get_u16 (drop off (p ++ more)) ≡ get_u16 (drop off p)
get_u16-drop-append off p more h =
    ap get_u16 (drop-append_le off p more (omega arith))
    ∙ get_u16-append (drop off p) more (omega (arith, length-drop off p))

take-drop-append :
    (off z : ℕ) (p more : List ℕ)
    → off + z ≤ length p
    → take z (drop off (p ++ more)) ≡ take z (drop off p)
take-drop-append off z p more h =
    ap (take z) (drop-append_le off p more (omega arith))
    ∙ take-append_le z (drop off p) more (omega (arith, length-drop off p))

-- The reader does not look at bytes behind the `n` of its input.
pub unpack_string-append :
    (p more : List ℕ) (n off cap : ℕ)
    → length p ≡ n
    → unpack_string (p ++ more) n off cap ≡ unpack_string p n off cap
unfolding unpack_string
unpack_string-append p more n off cap e = ground (
  arith,
  get_u16-drop-append off p more,
  take-drop-append (off + 2) (get_u16 (drop off p)) p more,
)
