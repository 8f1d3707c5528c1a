-- ===== src/Config/Values/Laws.antt =====
-- What `integer`, `trim`, `parse_range` and `key_seen` of src/config/config.c accept.
use ctunnel.Prelude.{
  ℕ, ◌^◌, ◌<◌, ◌≤◌, ◌≡◌, refl, sym, ◌∙◌, ap, inl, inr, ◌&&◌, none, some, Bool-cases, Option-cases,
  List, [], ◌∷◌, ◌++◌, leb, ◌==◌, if◌then◌else◌, All, arith, length, append-nil,
}
use ctunnel.CString.{is_space, skip_space, Number, clamp, strtol}
use ctunnel.CString.Laws.{
  IsBlank, IsDigit, digit_text, digits_value, strtol-digits, skip_space-blanks,
}
use ctunnel.Types.{PortRange}
use ctunnel.Config.Values.{
  keep_before_space, trim_end, trim, cp, integer, port, range_of, range_from, parse_range,
}

-- A decimal number with blanks in front is read as its value where that is within the bounds, which
-- an int can hold, and refused elsewhere, also where a long cannot hold it.
pub integer-digits :
    (blanks : List ℕ) (d : ℕ) (ds : List ℕ) (lo hi : ℕ)
    → All IsBlank blanks
    → All IsDigit (d ∷ ds)
    → hi < 2 ^ 31
    → integer (blanks ++ digit_text (d ∷ ds)) lo hi ≡ (
        if leb lo (digits_value 0 (d ∷ ds)) && leb (digits_value 0 (d ∷ ds)) hi
        then some (digits_value 0 (d ∷ ds))
        else none)
unfolding integer clamp
integer-digits blanks d ds lo hi hb hd h = rw (strtol-digits blanks d ds hb hd) (ground arith)

-- Whatever is accepted is within the bounds.
pub integer_bounds : (s : List ℕ) (lo hi n : ℕ) → integer s lo hi ≡ some n → (lo ≤ n) × (n ≤ hi)
unfolding integer
integer_bounds s lo hi n h = ground arith

pub port_bounds : (s : List ℕ) (n : ℕ) → port s ≡ some n → (1 ≤ n) × (n ≤ 65535)
unfolding port
port_bounds s n h = elim (Option-cases (integer s 1 65535)) [
  | inl e ↦ ground (arith, e)
  | inr (v, e) ↦ ground (arith, e, integer_bounds s 1 65535 v e)
]

pub cp_fits : (n : ℕ) (s t : List ℕ) → cp n s ≡ some t → length t < n
unfolding cp
cp_fits n s t h = elim (Bool-cases (leb n (length s))) [
  | inl e ↦ ground (arith, e)
  | inr e ↦ ground (arith, e)
]

pub cp_same : (n : ℕ) (s t : List ℕ) → cp n s ≡ some t → t ≡ s
unfolding cp
cp_same n s t h = elim (Bool-cases (leb n (length s))) [
  | inl e ↦ ground (arith, e)
  | inr e ↦ ground (arith, e)
]

-- A port range: 1 ≤ first ≤ last ≤ 65535.
abbrev pub IsRange : PortRange → Type 0
IsRange r = (1 ≤ r.first) × (r.first ≤ r.last) × (r.last ≤ 65535)

range_of-IsRange :
    (a z : Number) (rest : List ℕ) (r : PortRange) → range_of a z rest ≡ some r → IsRange r
unfolding range_of
range_of-IsRange a z rest r h = ground arith

range_from-IsRange : (a : Number) (s : List ℕ) (r : PortRange) → range_from a s ≡ some r → IsRange r
unfolding range_from
range_from-IsRange a [] r h = range_of-IsRange a a [] r h
range_from-IsRange a (c ∷ s) r h = elim (Bool-cases (c == b'-')) [
  | inl e ↦ range_of-IsRange a (strtol s) (strtol s).rest r (ground (arith, e, h))
  | inr e ↦ range_of-IsRange a a (c ∷ s) r (ground (arith, e, h))
]

-- A port range that is accepted is not empty and within the ports from 1 on.
pub parse_range-IsRange : (v : List ℕ) (r : PortRange) → parse_range v ≡ some r → IsRange r
unfolding parse_range
parse_range-IsRange v r h = range_from-IsRange (strtol v) (strtol v).rest r h

trim_end_blanks : (bs : List ℕ) → All IsBlank bs → trim_end bs ≡ []
unfolding trim_end keep_before_space
trim_end_blanks [] h = refl
trim_end_blanks (c ∷ bs) h = rw (trim_end_blanks bs h.1, h.0) refl

pub trim_end-append : (s bs : List ℕ) → All IsBlank bs → trim_end (s ++ bs) ≡ trim_end s
unfolding trim_end
trim_end-append [] bs h = trim_end_blanks bs h
trim_end-append (c ∷ s) bs h = ap (keep_before_space c) (trim_end-append s bs h)

skip_space-append :
    (s bs : List ℕ) → All IsBlank bs → trim_end (skip_space (s ++ bs)) ≡ trim_end (skip_space s)
unfolding skip_space
skip_space-append [] bs h =
    ap trim_end (ap skip_space (sym (append-nil bs)) ∙ skip_space-blanks bs [] h)
skip_space-append (c ∷ s) bs h = elim (Bool-cases (is_space c)) [
  | inl e ↦ rw e (skip_space-append s bs h)
  | inr e ↦ rw e (trim_end-append (c ∷ s) bs h)
]

-- Blanks on either side of a text are trimmed away.
pub trim-blanks :
    (front s bs : List ℕ) → All IsBlank front → All IsBlank bs → trim (front ++ (s ++ bs)) ≡ trim s
unfolding trim
trim-blanks front s bs ha hb =
    ap trim_end (skip_space-blanks front (s ++ bs) ha) ∙ skip_space-append s bs hb
