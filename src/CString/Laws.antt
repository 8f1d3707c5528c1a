-- ===== src/CString/Laws.antt =====
-- What strtol reads of a decimal number, with the blanks in front of it.
use ctunnel.Prelude.{
  ℕ, ◌+◌, ◌-◌, ◌*◌, ◌<◌, ◌≡◌, refl, ◌∙◌, ap, true, false, List, [], ◌∷◌, ◌++◌, map, All, arith,
}
use ctunnel.CString.{
  is_space, is_digit, skip_space, scan, clamp, strtol_digits, strtol_sign, strtol,
}

-- White space of the "C" locale.
abbrev pub IsBlank : ℕ → Type 0
IsBlank c = is_space c ≡ true

-- A decimal digit as a number.
abbrev pub IsDigit : ℕ → Type 0
IsDigit d = d < 10

-- Digits in ASCII, and the number that they denote behind a number `v`.
abbrev pub digit_text : List ℕ → List ℕ
digit_text ds = map (λ (d : ℕ). 48 + d) ds

unfoldable pub digits_value : ℕ → List ℕ → ℕ
digits_value v [] = v
digits_value v (d ∷ ds) = digits_value (v * 10 + d) ds

is_digit_digit : (d : ℕ) → d < 10 → is_digit (48 + d) ≡ true
unfolding is_digit
is_digit_digit d h = ground arith

pub scan-digits :
    (v : ℕ) (ds : List ℕ) → All IsDigit ds → scan v (digit_text ds) ≡ (digits_value v ds, [])
unfolding scan digits_value
scan-digits v [] h = refl
scan-digits v (d ∷ ds) h = rw (is_digit_digit d h.0) (
    scan-digits (v * 10 + (48 + d - 48)) ds h.1
    ∙ ap (λ (w : ℕ). (digits_value w ds, [])) (omega arith))

pub skip_space-blanks : (bs s : List ℕ) → All IsBlank bs → skip_space (bs ++ s) ≡ skip_space s
unfolding skip_space
skip_space-blanks [] s h = refl
skip_space-blanks (c ∷ bs) s h = rw h.0 (skip_space-blanks bs s h.1)

digit_no_space : (d : ℕ) → d < 10 → is_space (48 + d) ≡ false
unfolding is_space
digit_no_space d h = ground arith

strtol_sign-digit :
    (whole : List ℕ) (d : ℕ) (s : List ℕ)
    → d < 10
    → strtol_sign whole ((48 + d) ∷ s) ≡ strtol_digits whole false ((48 + d) ∷ s)
unfolding strtol_sign
strtol_sign-digit whole d s h = ground arith

skip_digit : (d : ℕ) (s : List ℕ) → d < 10 → skip_space ((48 + d) ∷ s) ≡ (48 + d) ∷ s
unfolding skip_space
skip_digit d s h = rw (digit_no_space d h) refl

read_digit :
    (whole : List ℕ) (d : ℕ) (ds : List ℕ)
    → All IsDigit (d ∷ ds)
    → strtol_digits whole false (digit_text (d ∷ ds)) ≡ clamp false (digits_value 0 (d ∷ ds)) []
unfolding strtol_digits
read_digit whole d ds h = rw (is_digit_digit d h.0, scan-digits 0 (d ∷ ds) h) refl

pub strtol-digits :
    (bs : List ℕ) (d : ℕ) (ds : List ℕ)
    → All IsBlank bs
    → All IsDigit (d ∷ ds)
    → strtol (bs ++ digit_text (d ∷ ds)) ≡ clamp false (digits_value 0 (d ∷ ds)) []
unfolding strtol
strtol-digits bs d ds hb hd =
    ap (strtol_sign (bs ++ digit_text (d ∷ ds)))
      (skip_space-blanks bs (digit_text (d ∷ ds)) hb ∙ skip_digit d (digit_text ds) hd.0)
    ∙ strtol_sign-digit _ d (digit_text ds) hd.0
    ∙ read_digit _ d ds hd
