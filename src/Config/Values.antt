-- ===== src/Config/Values.antt =====
-- The values of options: how src/config/config.c trims, copies and converts them.
pub mod Laws
pub mod Lines
use Prim.Native.String.{String}
use ctunnel.Prelude.{
  ℕ, zero, suc, ◌+◌, ◌%◌, ◌^◌, ◌*◌, Bool, true, false, not, ◌&&◌, ◌||◌, Option, none, some, ◌>>=◌,
  List, [], ◌∷◌, ◌++◌, ltb, leb, ◌==◌, if◌then◌else◌, length, bit_or,
}
use ctunnel.Prelude.Bytes.{bytes_eq}
use ctunnel.CString.{is, codes, is_space, skip_space, split_at, Number, strtol}
use ctunnel.Types.{PortRange, enc_required, enc_disabled, cipher_chacha}
use ctunnel.Config.Build.{Build}

-- What the functions that take an option return, with what they have changed: 0, -1, -2 for a
-- feature that the build lacks, 1 for an unknown key.
pub data Outcome (A : Type 0) : Type 0 where
  done : A → Outcome A
  invalid unavailable unknown : Outcome A

abbrev pub stored : {A : Type 0} → Option A → Outcome A
stored none = invalid
stored (some a) = done a

abbrev pub over : {A B : Type 0} → (A → B) → Outcome A → Outcome B
over set (done a) = done (set a)
over set invalid = invalid
over set unavailable = unavailable
over set unknown = unknown

-- The second loop of `trim`, from the end.
unfoldable pub keep_before_space : ℕ → List ℕ → List ℕ
keep_before_space c [] = if is_space c then [] else c ∷ []
keep_before_space c (x ∷ s) = c ∷ x ∷ s

unfoldable pub trim_end : List ℕ → List ℕ
trim_end [] = []
trim_end (c ∷ s) = keep_before_space c (trim_end s)

unfoldable pub trim : List ℕ → List ℕ
trim s = trim_end (skip_space s)

-- A copy into an array of `n` bytes.
unfoldable pub cp : (n : ℕ) → List ℕ → Option (List ℕ)
cp n s = if leb n (length s) then none else some s

unfoldable pub any_eq : List ℕ → List (List ℕ) → Bool
any_eq key [] = false
any_eq key (s ∷ seen) = bytes_eq s key || any_eq key seen

-- 1 for a key that was seen, -1 where it cannot be kept, or the keys with the new one.
pub data Seen : Type 0 where
  duplicate too_many : Seen
  fresh : List (List ℕ) → Seen

unfoldable pub key_seen : List (List ℕ) → (capacity : ℕ) → List ℕ → Seen
key_seen seen capacity key =
    if any_eq key seen
    then duplicate
    else if length seen == capacity || leb 32 (length key)
    then too_many
    else fresh (seen ++ (key ∷ []))

-- `lo` is never negative.
unfoldable pub integer : List ℕ → (lo hi : ℕ) → Option ℕ
integer s lo hi =
    let n = strtol s in
    if n.range_error
      || not (length n.rest == 0)
      || (n.negative && not (n.magnitude == 0))
      || ltb n.magnitude lo
      || ltb hi n.magnitude
    then none
    else some n.magnitude

unfoldable pub port : List ℕ → Option ℕ
port s = do v ← integer s 1 65535; some (v % 2 ^ 16)

-- `inet_pton` tells whether a text is an address of a family.
unfoldable pub address_family_unavailable : (inet_pton : ℕ → List ℕ → Bool) → Build → List ℕ → ℕ
address_family_unavailable inet_pton b address =
    if length address == 0 || is address "*"
    then 0
    else if not b.ipv4 && inet_pton 4 address
    then 4
    else if not b.ipv6 && inet_pton 6 address
    then 6
    else 0

unfoldable pub enc : Build → List ℕ → Outcome ℕ
enc b s =
    if is s "true" || is s "yes" || is s "on" || is s "enabled" || is s "required"
    then if b.data_encryption then done enc_required else unavailable
    else if is s "false" || is s "no" || is s "off" || is s "disabled"
    then done enc_disabled
    else invalid

-- One round of the loop of `ciphers`, at `p`, by where its comma is.
unfoldable pub cipher_token :
    Option (List ℕ × List ℕ) → (p : List ℕ) → (mask : ℕ) → (ℕ → List ℕ → Option ℕ) → Option ℕ
cipher_token none p mask next = if is (trim p) "xchacha20-poly1305" then some mask else none
cipher_token (some (tok, rest)) p mask next =
    if is (trim tok) "xchacha20-poly1305" then next mask rest else none

-- The loop of `ciphers` over the text behind the last comma, by its length, with the mask so far.
unfoldable pub ciphers_from : (fuel : ℕ) → (m : ℕ) → List ℕ → Option ℕ
ciphers_from zero m p = none
ciphers_from (suc fuel) m p =
    cipher_token (split_at b',' p) p (bit_or m (2 ^ cipher_chacha)) (ciphers_from fuel)

unfoldable pub ciphers : List ℕ → Option ℕ
ciphers s = do b ← cp 128 s; m ← ciphers_from (length b + 1) 0 b; if m == 0 then none else some m

-- `ct_log_level_name`; a level that the build leaves out has no name.
unfoldable pub log_level_name : Build → ℕ → String
log_level_name b l =
    if ltb b.compiled_log_max l
    then "unknown"
    else if l == 0
    then "error"
    else if l == 1
    then "warn"
    else if l == 2
    then "info"
    else if l == 3
    then "debug"
    else if l == 4
    then "trace"
    else "unknown"

-- The loop of `ct_log_parse_level` of src/util/log.c, from `i` on.
unfoldable pub log_level_from : Build → (rounds i : ℕ) → List ℕ → Option ℕ
log_level_from b zero i s = none
log_level_from b (suc rounds) i s =
    let more = log_level_from b rounds (i + 1) s in
    if is s (log_level_name b i) then some i else more

unfoldable pub log_parse_level : Build → List ℕ → Option ℕ
log_parse_level b s = log_level_from b (b.compiled_log_max + 1) 0 s

-- The checks at the end of `parse_range`; neither end is kept unless it is above 0.
unfoldable pub range_of : (a z : Number) → (rest : List ℕ) → Option PortRange
range_of a z rest =
    if not (length rest == 0)
      || a.negative
      || ltb a.magnitude 1
      || z.negative
      || ltb z.magnitude a.magnitude
      || ltb 65535 z.magnitude
    then none
    else some (record { first = a.magnitude % 2 ^ 16; last = z.magnitude % 2 ^ 16 })

-- By what follows the first number.
unfoldable pub range_from : (a : Number) → List ℕ → Option PortRange
range_from a [] = range_of a a []
range_from a (c ∷ s) =
    if c == b'-' then range_of a (strtol s) (strtol s).rest else range_of a a (c ∷ s)

unfoldable pub parse_range : List ℕ → Option PortRange
parse_range v = range_from (strtol v) (strtol v).rest
