-- ===== src/Config/Reader.antt =====
-- The loop over the lines of a file that `ct_config_load` and `ct_authorized_load` of
-- src/config/config.c share.
pub mod Fuel
use ctunnel.Prelude.{
  ℕ, zero, suc, ◌+◌, ◌*◌, ◌-◌, ◌^◌, ◌%◌, Bool, true, false, not, ◌&&◌, ◌||◌, Option, none, some,
  List, [], ◌∷◌, ltb, ◌==◌, if◌then◌else◌, length,
}
use ctunnel.CString.{c_string, take_line, has}
use ctunnel.Config.Values.{trim}

-- An open file: its bytes, and whether reading fails behind them.
pub record File : Type 0 where
  pub bytes : List ℕ
  pub broken : Bool

-- A state to go on with, or the reason to stop.
pub data Result {ℓ κ} (S : Type ℓ) (E : Type κ) : Type (ℓ ⊔ κ) where
  ok : S → Result S E
  error : E → Result S E

abbrev pub and_then {ℓ κ} :
    {S T : Type ℓ} {E : Type κ} → Result S E → (S → Option (Result T E)) → Option (Result T E)
and_then (ok s) next = next s
and_then (error e) next = some (error e)

-- Whether `fgets` met the end of the file or its failure.
unfoldable pub at_end : (room : ℕ) → List ℕ → Bool
at_end room line = ltb (length line) room && not (has b'\n' line)

-- `!*p || *p == '#' || *p == ';'`
unfoldable pub is_comment : List ℕ → Bool
is_comment [] = true
is_comment (c ∷ p) = c == b'#' || c == b';'

-- `line` and `rest` are what `fgets` has read and left.
module _ {ℓ κ} {S : Type ℓ} {E : Type κ} (room : ℕ) (too_long : ℕ → E)
    (body : ℕ → List ℕ → S → Result S E) where
  -- A round, for a line with its number.
  unfoldable pub line_step : (ln : ℕ) → (line : List ℕ) → S → Result S E
  line_step ln line s =
      if not (has b'\n' (c_string line)) && not (at_end room line)
      then error (too_long ln)
      else if is_comment (trim (c_string line))
      then ok s
      else body ln (trim (c_string line)) s

  unfoldable pub for_lines : (fuel : ℕ) → (ln : ℕ) → File → S → Option (Result S E)
  for_lines zero ln file s = none
  for_lines (suc fuel) ln file s =
      let (line, rest) = take_line room file.bytes in
      if length line == 0 || (file.broken && at_end room line)
      then some (ok s)
      else and_then (line_step ((ln + 1) % 2 ^ 32) line s)
          (for_lines fuel ((ln + 1) % 2 ^ 32) (record file { bytes = rest }))
