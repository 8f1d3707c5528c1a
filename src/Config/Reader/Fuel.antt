-- ===== src/Config/Reader/Fuel.antt =====
-- The rounds of the loop over the lines of a file, and what they keep.
use ctunnel.Prelude.{
  ℕ, zero, suc, ◌+◌, ◌^◌, ◌%◌, not, ◌&&◌, ◌||◌, Option, none, some, List, ◌==◌, length, either_way,
}
use ctunnel.CString.{c_string, take_line, has}
use ctunnel.Config.Values.{trim}
use ctunnel.Config.Reader.{
  File, Result, ok, error, and_then, at_end, is_comment, line_step, for_lines,
}

-- What holds of a state, if there is one.
abbrev pub Holds {ℓ κ ι} : {S : Type ℓ} {E : Type κ} → (S → Type ι) → Result S E → Type ι
Holds P (ok s) = P s
Holds P (error e) = Unit

-- What holds of the state behind the loop, if it is reached.
abbrev pub HoldsAfter {ℓ κ ι} :
    {S : Type ℓ} {E : Type κ} → (S → Type ι) → Option (Result S E) → Type ι
HoldsAfter P none = Unit
HoldsAfter P (some r) = Holds P r

and_then-HoldsAfter {ℓ κ ι} :
    {S T : Type ℓ} {E : Type κ} (P : S → Type ι) (Q : T → Type ι) (x : Result S E)
    (next : S → Option (Result T E))
    → Holds P x
    → ((s : S) → P s → HoldsAfter Q (next s))
    → HoldsAfter Q (and_then x next)
and_then-HoldsAfter P Q (ok s) next h k = k s h
and_then-HoldsAfter P Q (error e) next h k = tt

module _ {ℓ κ} {S : Type ℓ} {E : Type κ} (room : ℕ) (too_long : ℕ → E)
    (body : ℕ → List ℕ → S → Result S E) where
  module _ {ι} (P : S → Type ι)
      (each : (ln : ℕ) (line : List ℕ) (s : S) → P s → Holds P (body ln line s)) where
    -- A step that the loop's body keeps an invariant in keeps it.
    line_step-Holds :
        (ln : ℕ) (line : List ℕ) (s : S) → P s → Holds P (line_step room too_long body ln line s)
    unfolding line_step
    line_step-Holds ln line s h =
        either_way (Holds P) (not (has b'\n' (c_string line)) && not (at_end room line)) tt (
          either_way (Holds P) (is_comment (trim (c_string line))) h
            (each ln (trim (c_string line)) s h))

    -- What the body keeps holds behind the loop.
    pub for_lines-Holds :
        (fuel ln : ℕ) (file : File) (s : S)
        → P s
        → HoldsAfter P (for_lines room too_long body fuel ln file s)
    unfolding for_lines
    for_lines-Holds zero ln file s h = tt
    for_lines-Holds (suc fuel) ln file s h =
        either_way (HoldsAfter P)
          (length (take_line room file.bytes).0 == 0
            || (file.broken && at_end room (take_line room file.bytes).0))
          h
          (and_then-HoldsAfter P P _ _
            (line_step-Holds ((ln + 1) % 2 ^ 32) (take_line room file.bytes).0 s h)
            (λ t k. for_lines-Holds fuel _ _ t k))
