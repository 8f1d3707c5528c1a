-- ===== src/Config/Load/Syntax.antt =====
-- What a line "key = value" of a configuration file does, and the default path of the log file.
use ctunnel.Prelude.{
  inl, inr, ◌⊎◌, sym, ◌≢◌, ℕ, ◌+◌, ◌≡◌, refl, Bool, true, false, Option, some, none, List, [], ◌∷◌,
  ◌++◌, ◌==◌, leb, if◌then◌else◌, length, All, All-append, arith,
}
use ctunnel.CString.{codes, is_space, c_string, split_at, has, through_last}
use ctunnel.CString.Laws.{IsBlank}
use ctunnel.Types.{Config, mode_server, mode_client}
use ctunnel.Config.Build.{Build}
use ctunnel.Config.Values.{cp, trim_end, trim, key_seen}
use ctunnel.Config.Values.Lines.{
  Not, IsKey, pair_text, c_string-All, blanks-Not, split_at-append, has-append, trim-trim_end,
  trim-IsKey, trim-pair_text,
}
use ctunnel.Config.Options.{log_name, log_path, set_default_log_file}
use ctunnel.Config.Reader.{Result, error, is_comment, line_step}
use ctunnel.Config.Load.{
  LoadError, expected_pair, Reading, service_option, common_option, option_line, config_line,
}

-- What an option does in its section.
abbrev pub option_in_section :
    Build → (ln : ℕ) → Reading → (k v : List ℕ) → Result Reading LoadError
option_in_section b ln st k v =
    if length st.section == 0
    then error (expected_pair ln)
    else if st.svc
    then service_option b ln st k v (key_seen st.section_seen 16 k)
    else common_option b ln st k v (key_seen st.common_seen 40 k)

option_line-pair :
    (b : Build) (ln : ℕ) (st : Reading) (c : ℕ) (key bs value : List ℕ)
    → IsKey c key
    → All IsBlank bs
    → option_line b ln st (some ((c ∷ key) ++ bs, trim_end value))
      ≡ option_in_section b ln st (c ∷ key) (trim value)
unfolding option_line
option_line-pair b ln st c key bs value k h = rw (trim-IsKey c key bs k h, trim-trim_end value) refl

config_line-pair :
    (b : Build) (ln : ℕ) (st : Reading) (c : ℕ) (key bs value : List ℕ)
    → IsKey c key
    → All IsBlank bs
    → config_line b ln (c ∷ ((key ++ bs) ++ (b'=' ∷ trim_end value))) st
      ≡ option_in_section b ln st (c ∷ key) (trim value)
unfolding config_line is_space
config_line-pair b ln st c key bs value k h =
    rw (k.no_section, split) (option_line-pair b ln st c key bs value k h)
  where
    split :
        split_at b'=' (c ∷ ((key ++ bs) ++ (b'=' ∷ trim_end value)))
        ≡ some ((c ∷ key) ++ bs, trim_end value)
    split =
        split_at-append b'=' ((c ∷ key) ++ bs) (trim_end value)
          (All-append (Not b'=') (c ∷ key) bs k.no_equals (blanks-Not b'=' bs refl h))

-- A line "key = value", with any blanks before the key, before the equals sign and round the value,
-- is the option `key` with the trimmed value, in the section that the line stands in.
pub line_step-pair :
    (b : Build) (room ln : ℕ) (too_long : ℕ → LoadError) (st : Reading) (front : List ℕ) (c : ℕ)
    (key bs value : List ℕ)
    → IsKey c key
    → All IsBlank front
    → All IsBlank bs
    → All (Not 0) value
    → line_step room too_long (config_line b) ln (front ++ pair_text c key bs value) st
      ≡ option_in_section b ln st (c ∷ key) (trim value)
unfolding line_step is_space has is_comment
line_step-pair b room ln too_long st front c key bs value k hf hb hv =
    rw (whole, newline, trim-pair_text front c key bs value hf k.solid_front, no_mark)
      (config_line-pair b ln st c key bs value k hb)
  where
    whole : c_string (front ++ pair_text c key bs value) ≡ front ++ pair_text c key bs value
    whole = c_string-All _ (
        All-append (Not 0) front (pair_text c key bs value) (blanks-Not 0 front refl hf) (
          All-append (Not 0) (c ∷ key) (bs ++ (b'=' ∷ (value ++ (b'\n' ∷ [])))) k.no_end (
            All-append (Not 0) bs (b'=' ∷ (value ++ (b'\n' ∷ []))) (blanks-Not 0 bs refl hb)
              (refl, All-append (Not 0) value (b'\n' ∷ []) hv (refl, tt)))))

    newline : has b'\n' (front ++ pair_text c key bs value) ≡ true
    newline = has-append b'\n' front (pair_text c key bs value) (
        has-append b'\n' (c ∷ key) (bs ++ (b'=' ∷ (value ++ (b'\n' ∷ [])))) (
          has-append b'\n' bs (b'=' ∷ (value ++ (b'\n' ∷ [])))
            (has-append b'\n' (b'=' ∷ value) (b'\n' ∷ []) refl)))

    no_mark : is_comment (c ∷ ((key ++ bs) ++ (b'=' ∷ trim_end value))) ≡ false
    no_mark = k.no_comment

-- No slash.
abbrev pub IsName : List ℕ → Type 0
IsName name = All (Not b'/') name

through_last-none : (c : ℕ) (s : List ℕ) → All (Not c) s → through_last c s ≡ none
unfolding through_last
through_last-none c [] h = refl
through_last-none c (x ∷ s) h = rw (through_last-none c s h.1, h.0) refl

through_last-append :
    (c : ℕ) (s t : List ℕ) → All (Not c) t → through_last c (s ++ (c ∷ t)) ≡ some (s ++ (c ∷ []))
unfolding through_last
through_last-append c [] t h =
    let e : (c == c) ≡ true = ground arith in rw (through_last-none c t h, e) refl
through_last-append c (x ∷ s) t h = rw (through_last-append c s t h) refl

with_log_file :
    (c : Config) (too_long : Bool) (t : List ℕ)
    → elim (if too_long then none else some t) as (λ (o : Option (List ℕ)). Option Config) [
      | none ↦ none
      | some x ↦ some (record c { log_file = x })
    ]
      ≡ (if too_long then none else some (record c { log_file = t }))
with_log_file c true t = refl
with_log_file c false t = refl

-- What stands before the last slash of a path, with the slash; nothing for a path without one.
abbrev pub IsFront : (path front : List ℕ) → Type 0
IsFront path front =
    (IsName path × (front ≡ []))
    ⊎ ((dir : List ℕ) × (name : List ℕ) × (path ≡ dir ++ (b'/' ∷ name))
        × IsName name
        × (front ≡ dir ++ (b'/' ∷ [])))

-- The log file of a mode, where the build has the part that the mode is for.
abbrev pub IsLogFile : Build → (mode : ℕ) → (file : List ℕ) → Type 0
IsLogFile b mode file =
    ((mode ≡ mode_server) × (b.server ≡ true) × (file ≡ codes "ctunnel-server.log"))
    ⊎ ((mode ≡ mode_client) × (b.client ≡ true) × (file ≡ codes "ctunnel-client.log"))
    ⊎ (((mode ≢ mode_server) ⊎ (b.server ≡ false))
        × ((mode ≢ mode_client) ⊎ (b.client ≡ false))
        × (file ≡ codes "ctunnel.log"))

log_name-IsLogFile :
    (b : Build) (mode : ℕ) (file : List ℕ) → IsLogFile b mode file → log_name b mode ≡ file
unfolding log_name
log_name-IsLogFile b mode file (inl (m, s, f)) = rw (m, s) (sym f)
log_name-IsLogFile b mode file (inr (inl (m, s, f))) = ground (arith, m, s, f)
log_name-IsLogFile b mode file (inr (inr (m, s, f))) = ground (arith, m, s, f)

log_path-front :
    (b : Build) (mode : ℕ) (path front : List ℕ)
    → IsFront path front
    → log_path b mode (through_last b'/' path) ≡ (
        if leb b.max_path (length front + length (log_name b mode))
        then none
        else some (front ++ log_name b mode))
unfolding log_path cp
log_path-front b mode path front (inl (n, e)) =
    let sum : 0 + length (log_name b mode) ≡ length (log_name b mode) = omega arith in
    rw (through_last-none b'/' path n, e, sum) refl
log_path-front b mode path front (inr (dir, name, p, n, e)) =
    rw (p, through_last-append b'/' dir name n, e) refl

-- Without a log file of its own, a configuration logs to the file of its mode beside the
-- configuration file: the path up to its last slash, or nothing where it has none, and behind it
-- ctunnel-server.log, ctunnel-client.log, or ctunnel.log where the build leaves out the mode's part
-- or no mode is set. A path that does not fit the array is refused.
pub set_default_log_file-beside :
    (b : Build) (c : Config) (front file : List ℕ)
    → c.log_file ≡ []
    → IsFront c.config_path front
    → IsLogFile b c.mode file
    → set_default_log_file b c ≡ (
        if leb b.max_path (length front + length file)
        then none
        else some (record c { log_file = front ++ file }))
unfolding set_default_log_file
set_default_log_file-beside b c front file e p f =
    rw (sym (log_name-IsLogFile b c.mode file f), log_path-front b c.mode c.config_path front p, e)
      (with_log_file c _ _)
