-- ===== src/Config/Load.antt =====
-- `defaults` and `ct_config_load` of src/config/config.c.
pub mod Fits
pub mod Kept
pub mod Syntax
use Prim.Native.String.{String}
use ctunnel.Prelude.{
  ℕ, zero, suc, ◌+◌, ◌*◌, ◌-◌, ◌^◌, ◌%◌, Bool, true, false, not, ◌&&◌, ◌||◌, Option, none, some,
  List, [], ◌∷◌, ◌++◌, ◌==◌, ltb, if◌then◌else◌, length, ◌>>=◌,
}
use ctunnel.CString.{is, codes, split_at}
use ctunnel.Types.{
  Config, ServiceConfig, mode_none, cipher_chacha, enc_required, enc_disabled, proxy_protocol_off,
}
use ctunnel.Config.Build.{Build}
use ctunnel.Config.Values.{
  Outcome, done, invalid, unavailable, unknown, over, trim, cp, Seen, duplicate, too_many, fresh,
  key_seen, integer, log_parse_level,
}
use ctunnel.Config.Options.{set_common, set_service, set_default_log_file}
use ctunnel.Config.Validate.{Refusal, config_validate}
use ctunnel.Config.Reader.{File, Result, ok, error, and_then, for_lines}

-- The wildcard address of the build.
abbrev pub any_addr : Build → List ℕ
any_addr b = if b.ipv6 then codes "::" else codes "0.0.0.0"

unfoldable pub defaults : Build → Config
defaults b = record {
  mode = mode_none;
  config_path = [];
  bind_addr = any_addr b;
  server_addr = [];
  bind_port = 7000;
  server_port = 7000;
  client_id = [];
  identity_private_key = [];
  server_public_key = [];
  authorized_clients_file = [];
  log_file = [];
  cipher_mask = 2 ^ cipher_chacha;
  preferred_cipher = cipher_chacha;
  heartbeat_interval = 20;
  heartbeat_timeout = 60;
  handshake_timeout = 10;
  connect_timeout = 5;
  reconnect_initial_delay = 1;
  reconnect_max_delay = 30;
  reconnect_jitter_percent = 20;
  pool_count = b.default_pool;
  max_clients = b.max_auth_clients;
  max_services_per_client = b.max_services;
  max_streams_per_client = b.default_max_streams;
  max_pending_streams = b.default_max_pending;
  default_data_encryption = if b.data_encryption then enc_required else enc_disabled;
  log_level = b.compiled_log_max;
  log_rotate_days = 7;
  log_max_size_kib = 1024;
  services = [];
  clients = [];
}

-- The messages, each with the line's number where it has one.
pub data LoadError : Type 0 where
  cannot_open read_error too_many_services log_level_unavailable pool_count_exceeds
        log_path_too_long :
      LoadError
  line_too_long invalid_section section_too_long expected_pair duplicate_key too_many_keys
        unknown_key feature_unavailable invalid_value :
      ℕ → LoadError
  refused : Refusal → LoadError

-- The variables of the loop. `svc` tells whether the pointer of that name is set; it points to the
-- last service then.
pub record Reading : Type 0 where
  pub config : Config
  pub section : List ℕ
  pub svc : Bool
  pub common_seen : List (List ℕ)
  pub section_seen : List (List ℕ)

-- A service as a section starts it.
unfoldable pub new_service : Build → Config → (section : List ℕ) → ServiceConfig
new_service b c section = record {
  id = section;
  remote_addr = any_addr b;
  local_addr = if b.ipv4 then codes "127.0.0.1" else codes "::1";
  remote_port = 0;
  local_port = 0;
  encryption = c.default_data_encryption;
  kind = 0;
  proxy_protocol = proxy_protocol_off;
  udp_idle_timeout = if b.udp then 60 else 0;
  udp_reply_timeout = if b.udp then 5 else 0;
  udp_max_sessions = if b.udp then b.max_udp_sessions else 0;
  udp_max_datagram_size = if b.udp then b.max_udp_datagram else 0;
  udp_options_seen = 0;
}

-- A change of the last entry.
unfoldable pub on_last : {A : Type 0} → (A → Outcome A) → List A → Outcome (List A)
on_last f [] = unknown
on_last f (a ∷ []) = over (λ x. x ∷ []) (f a)
on_last f (a ∷ y ∷ more) = over (a ∷◌) (on_last f (y ∷ more))

-- Behind the copy of the section's name.
unfoldable pub enter_section : Build → Reading → (name : List ℕ) → Result Reading LoadError
enter_section b st name =
    if is name "common"
    then ok (record st { section = name; svc = false; section_seen = [] })
    else if length st.config.services == b.max_services
    then error too_many_services
    else ok (record st {
      config = record st.config {
        services = st.config.services ++ (new_service b st.config name ∷ []);
      };
      section = name;
      svc = true;
      section_seen = [];
    })

-- By what `strchr` finds for the bracket that closes a section.
unfoldable pub section_line :
    Build → (ln : ℕ) → Reading → Option (List ℕ × List ℕ) → Result Reading LoadError
section_line b ln st none = error (invalid_section ln)
section_line b ln st (some (name, after)) =
    if not (length after == 0)
    then error (invalid_section ln)
    else elim (cp (b.max_service_id + 1) name) [
      | none ↦ error (section_too_long ln)
      | some section ↦ enter_section b st section
    ]

-- Where an option leaves the configuration.
abbrev pub option_result : (ln : ℕ) → (Config → Reading) → Outcome Config → Result Reading LoadError
option_result ln with (done c) = ok (with c)
option_result ln with invalid = error (invalid_value ln)
option_result ln with unavailable = error (feature_unavailable ln)
option_result ln with unknown = error (unknown_key ln)

-- By what `key_seen` returns for the key of a service, and for one of "common".
unfoldable pub service_option :
    Build → (ln : ℕ) → Reading → (k v : List ℕ) → Seen → Result Reading LoadError
service_option b ln st k v duplicate = error (duplicate_key ln)
service_option b ln st k v too_many = error (too_many_keys ln)
service_option b ln st k v (fresh seen) =
    option_result ln (λ c. record st { config = c; section_seen = seen })
      (over (λ services. record st.config { services = services })
        (on_last (λ s. set_service b s k v) st.config.services))

unfoldable pub common_option :
    Build → (ln : ℕ) → Reading → (k v : List ℕ) → Seen → Result Reading LoadError
common_option b ln st k v duplicate = error (duplicate_key ln)
common_option b ln st k v too_many = error (too_many_keys ln)
common_option b ln st k v (fresh seen) =
    option_result ln (λ c. record st { config = c; common_seen = seen })
      (set_common b st.config k v)

-- By what `strchr` finds for the equals sign.
unfoldable pub option_line :
    Build → (ln : ℕ) → Reading → Option (List ℕ × List ℕ) → Result Reading LoadError
option_line b ln st none = error (expected_pair ln)
option_line b ln st (some (p, v)) =
    if length st.section == 0
    then error (expected_pair ln)
    else if st.svc
    then service_option b ln st (trim p) (trim v) (key_seen st.section_seen 16 (trim p))
    else common_option b ln st (trim p) (trim v) (key_seen st.common_seen 40 (trim p))

-- The body of the loop, for a trimmed line that is not empty and no comment.
unfoldable pub config_line : Build → (ln : ℕ) → (p : List ℕ) → Reading → Result Reading LoadError
config_line b ln [] st = ok st
config_line b ln (c ∷ p) st =
    if c == b'['
    then section_line b ln st (split_at b']' p)
    else option_line b ln st (split_at b'=' (c ∷ p))

-- The variables of the environment that the reader asks for.
pub record Environment : Type 0 where
  pub ctunnel_log_level : Option (List ℕ)
  pub ctunnel_pool_count : Option (List ℕ)

unfoldable pub override_level : Build → Config → Option (List ℕ) → Result Config LoadError
override_level b c none = ok c
override_level b c (some v) = elim (log_parse_level b v) [
  | none ↦ error log_level_unavailable
  | some level ↦ ok (record c { log_level = level })
]

unfoldable pub override_pool : Build → Config → Option (List ℕ) → Result Config LoadError
override_pool b c none = ok c
override_pool b c (some v) = elim (integer v 0 b.max_streams) [
  | none ↦ error pool_count_exceeds
  | some n ↦ ok (record c { pool_count = n })
]

abbrev pub bind {ℓ κ} : {S T : Type ℓ} {E : Type κ} → Result S E → (S → Result T E) → Result T E
bind (ok s) next = next s
bind (error e) next = error e

unfoldable pub override : Build → Environment → Config → Result Config LoadError
override b env c =
    if b.env_override
    then bind (override_level b c env.ctunnel_log_level)
        (λ d. override_pool b d env.ctunnel_pool_count)
    else ok c

-- Behind the environment.
unfoldable pub checked : (inet_pton : ℕ → List ℕ → Bool) → Build → Config → Result Config LoadError
checked inet_pton b c = elim (set_default_log_file b c) [
  | none ↦ error log_path_too_long
  | some d ↦ elim (config_validate inet_pton b d) [
    | none ↦ ok d
    | some refusal ↦ error (refused refusal)
  ]
]

-- Behind the loop.
unfoldable pub end_load :
    (inet_pton : ℕ → List ℕ → Bool)
    → Build
    → Environment
    → (broken : Bool) → Reading
    → Result Config LoadError
end_load inet_pton b env broken st =
    if broken then error read_error else bind (override b env st.config) (checked inet_pton b)

-- The state before the loop; a path that does not fit is left out.
unfoldable pub start : Build → (path : List ℕ) → Reading
start b path = record {
  config = record (defaults b) { config_path = if ltb (length path) b.max_path then path else [] };
  section = [];
  svc = false;
  common_seen = [];
  section_seen = [];
}

-- `file` is what `open_policy_file` opens.
unfoldable pub config_load :
    (inet_pton : ℕ → List ℕ → Bool)
    → Build
    → Environment
    → (path : List ℕ) → (file : Option File) → Option (Result Config LoadError)
config_load inet_pton b env path none = some (error cannot_open)
config_load inet_pton b env path (some file) = do
  r ←
      for_lines (b.max_path * 2 - 1) line_too_long (config_line b) (length file.bytes + 1) 0 file
        (start b path)
  some (bind r (end_load inet_pton b env file.broken))
