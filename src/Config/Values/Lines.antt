-- ===== src/Config/Values/Lines.antt =====
-- What `trim` and `strchr` make of a line "key = value" of a configuration file.
use ctunnel.Prelude.{
  ℕ, ◌≡◌, refl, sym, ap, ◌∙◌, true, false, ◌||◌, inl, inr, Bool-cases, some, List, [], ◌∷◌, ◌++◌,
  append_assoc, ◌==◌, All, arith,
}
use ctunnel.CString.{is_space, c_string, skip_space, split_at, has}
use ctunnel.CString.Laws.{IsBlank, skip_space-blanks}
use ctunnel.Config.Values.{keep_before_space, trim_end, trim}
use ctunnel.Config.Values.Laws.{trim_end-append, trim-blanks}

-- Other than a byte `c`.
abbrev pub Not : (c : ℕ) → ℕ → Type 0
Not c x = (x == c) ≡ false

pub c_string-All : (s : List ℕ) → All (Not 0) s → c_string s ≡ s
unfolding c_string
c_string-All [] h = refl
c_string-All (c ∷ s) h = rw h.0 (ap (c ∷◌) (c_string-All s h.1))

pub blanks-Not : (c : ℕ) (bs : List ℕ) → is_space c ≡ false → All IsBlank bs → All (Not c) bs
unfolding is_space
blanks-Not c [] n h = tt
blanks-Not c (x ∷ bs) n h = (ground (arith, n, h.0), blanks-Not c bs n h.1)

pub split_at-append :
    (c : ℕ) (s t : List ℕ) → All (Not c) s → split_at c (s ++ (c ∷ t)) ≡ some (s, t)
unfolding split_at
split_at-append c [] t h = let e : (c == c) ≡ true = ground arith in rw (e, split_at) refl
split_at-append c (x ∷ s) t h = rw (h.0, split_at-append c s t h.1, split_at) refl

pub has-append : (c : ℕ) (s t : List ℕ) → has c t ≡ true → has c (s ++ t) ≡ true
unfolding has
has-append c [] t h = h
has-append c (x ∷ s) t h = ground (arith, has-append c s t h)

keep_solid : (c : ℕ) (t : List ℕ) → is_space c ≡ false → keep_before_space c t ≡ c ∷ t
unfolding keep_before_space
keep_solid c [] h = rw h refl
keep_solid c (x ∷ t) h = refl

keep_more : (x c : ℕ) (s t : List ℕ) → keep_before_space x (s ++ (c ∷ t)) ≡ x ∷ (s ++ (c ∷ t))
unfolding keep_before_space
keep_more x c [] t = refl
keep_more x c (y ∷ s) t = refl

-- Trimming the end stops at a byte that is not blank.
trim_end-solid :
    (s : List ℕ) (c : ℕ) (t : List ℕ)
    → is_space c ≡ false
    → trim_end (s ++ (c ∷ t)) ≡ s ++ (c ∷ trim_end t)
unfolding trim_end
trim_end-solid [] c t h = keep_solid c (trim_end t) h
trim_end-solid (x ∷ s) c t h =
    ap (keep_before_space x) (trim_end-solid s c t h) ∙ keep_more x c s (trim_end t)

keep_parts :
    (c : ℕ) (s t bs : List ℕ)
    → All IsBlank bs
    → s ≡ t ++ bs
    → (ds : List ℕ) × (All IsBlank ds × (c ∷ s ≡ keep_before_space c t ++ ds))
unfolding keep_before_space
keep_parts c s [] bs h e = elim (Bool-cases (is_space c)) [
  | inl k ↦ (c ∷ bs, ((k, h), rw k (ap (c ∷◌) e)))
  | inr k ↦ (bs, (h, rw k (ap (c ∷◌) e)))
]
keep_parts c s (x ∷ t) bs h e = (bs, (h, ap (c ∷◌) e))

-- What `trim_end` takes away.
trim_end-parts : (s : List ℕ) → (bs : List ℕ) × (All IsBlank bs × (s ≡ trim_end s ++ bs))
unfolding trim_end
trim_end-parts [] = ([], (tt, refl))
trim_end-parts (c ∷ s) = let (bs, p) = trim_end-parts s in keep_parts c s (trim_end s) bs p.0 p.1

pub trim-trim_end : (s : List ℕ) → trim (trim_end s) ≡ trim s
trim-trim_end s =
    let (bs, p) = trim_end-parts s in sym (ap trim p.1 ∙ trim-blanks [] (trim_end s) bs tt p.0)

-- A key, byte `c` first: no blank at either end, no equals sign, no NUL, and no mark of a section
-- or a comment in front.
pub record IsKey (c : ℕ) (key : List ℕ) : Type 0 where
  pub no_equals : All (Not b'=') (c ∷ key)
  pub no_end : All (Not 0) (c ∷ key)
  pub no_section : (c == b'[') ≡ false
  pub no_comment : (c == b'#' || c == b';') ≡ false
  pub solid_front : is_space c ≡ false
  pub solid_end : trim_end (c ∷ key) ≡ c ∷ key

skip_solid : (c : ℕ) (s : List ℕ) → is_space c ≡ false → skip_space (c ∷ s) ≡ c ∷ s
unfolding skip_space
skip_solid c s h = rw h refl

pub trim-IsKey :
    (c : ℕ) (key bs : List ℕ) → IsKey c key → All IsBlank bs → trim ((c ∷ key) ++ bs) ≡ c ∷ key
unfolding trim
trim-IsKey c key bs k h =
    trim-blanks [] (c ∷ key) bs tt h ∙ ap trim_end (skip_solid c key k.solid_front) ∙ k.solid_end

-- The line behind its leading blanks: key, blanks, "=", and the value's text with the newline.
abbrev pub pair_text : (c : ℕ) → (key bs value : List ℕ) → List ℕ
pair_text c key bs value = (c ∷ key) ++ (bs ++ (b'=' ∷ (value ++ (b'\n' ∷ []))))

pub trim-pair_text :
    (front : List ℕ) (c : ℕ) (key bs value : List ℕ)
    → All IsBlank front
    → is_space c ≡ false
    → trim (front ++ pair_text c key bs value) ≡ c ∷ ((key ++ bs) ++ (b'=' ∷ trim_end value))
unfolding trim is_space
trim-pair_text front c key bs value hf hc =
    ap trim_end (
      skip_space-blanks front (pair_text c key bs value) hf
      ∙ skip_solid c (key ++ (bs ++ (b'=' ∷ (value ++ (b'\n' ∷ []))))) hc
      ∙ ap (c ∷◌) (sym (append_assoc key bs (b'=' ∷ (value ++ (b'\n' ∷ []))))))
    ∙ trim_end-solid (c ∷ (key ++ bs)) b'=' (value ++ (b'\n' ∷ [])) refl
    ∙ ap (λ (t : List ℕ). c ∷ ((key ++ bs) ++ (b'=' ∷ t)))
        (trim_end-append value (b'\n' ∷ []) (refl, tt))
