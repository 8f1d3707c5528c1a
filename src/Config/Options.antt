-- ===== src/Config/Options.antt =====
-- The options of a configuration file: `set_common`, `set_default_log_file` and `set_service` of
-- src/config/config.c.
pub mod Ranges
pub mod Services
use Prim.Native.String.{String}
use ctunnel.Prelude.{
  ℕ, ◌+◌, ◌^◌, Bool, true, false, not, ◌&&◌, ◌||◌, Option, none, some, List, [], ◌∷◌, ◌++◌, leb,
  ◌==◌, if◌then◌else◌, length,
}
use ctunnel.CString.{is, codes, through_last}
use ctunnel.Types.{
  Config, ServiceConfig, mode_server, mode_client, cipher_chacha, proxy_protocol_off,
  proxy_protocol_v1, proxy_protocol_v2,
}
use ctunnel.Config.Build.{Build}
use ctunnel.Config.Values.{
  Outcome, done, invalid, unavailable, unknown, over, cp, integer, port, enc, ciphers,
  log_parse_level,
}

-- What a field becomes.
abbrev pub into : {A B : Type 0} → (A → B) → Option A → Outcome B
into set none = invalid
into set (some a) = done (set a)

-- The value of "mode".
unfoldable pub set_mode : Build → Config → (v : List ℕ) → Outcome Config
set_mode b c v =
    if is v "server"
    then if not b.server then unavailable else done (record c { mode = mode_server })
    else if is v "client"
    then if not b.client then unavailable else done (record c { mode = mode_client })
    else invalid

-- The end of `set_common`: the options that store nothing.
unfoldable pub set_fixed : Config → (k v : List ℕ) → Outcome Config
set_fixed c k v =
    if is k "control_encryption"
    then if is v "required" then done c else invalid
    else if is k "auth_mode"
    then if is v "public-key" then done c else invalid
    else unknown

-- The limits of `set_common`.
unfoldable pub set_limit : Build → Config → (k v : List ℕ) → Outcome Config
set_limit b c k v =
    if is k "pool_count"
    then if b.work_pool
      then into (λ n. record c { pool_count = n }) (integer v 0 b.max_streams)
      else if is v "0"
      then done c
      else unavailable
    else if is k "max_clients"
    then into (λ n. record c { max_clients = n }) (integer v 1 b.max_auth_clients)
    else if is k "max_services_per_client"
    then into (λ n. record c { max_services_per_client = n }) (integer v 1 b.max_services)
    else if is k "max_streams_per_client"
    then into (λ n. record c { max_streams_per_client = n }) (integer v 1 b.max_streams)
    else if is k "max_pending_streams"
    then into (λ n. record c { max_pending_streams = n }) (integer v 1 b.max_pending)
    else if is k "log_rotate_days"
    then into (λ n. record c { log_rotate_days = n }) (integer v 0 3650)
    else if is k "log_max_size_kib"
    then into (λ n. record c { log_max_size_kib = n }) (integer v 64 1048576)
    else set_fixed c k v

-- The times of `set_common`, in seconds, and its jitter.
unfoldable pub set_time : Build → Config → (k v : List ℕ) → Outcome Config
set_time b c k v =
    if is k "heartbeat_interval"
    then into (λ n. record c { heartbeat_interval = n }) (integer v 1 3600)
    else if is k "heartbeat_timeout"
    then into (λ n. record c { heartbeat_timeout = n }) (integer v 2 7200)
    else if is k "handshake_timeout"
    then into (λ n. record c { handshake_timeout = n }) (integer v 1 120)
    else if is k "connect_timeout"
    then into (λ n. record c { connect_timeout = n }) (integer v 1 120)
    else if is k "reconnect_initial_delay"
    then into (λ n. record c { reconnect_initial_delay = n }) (integer v 1 3600)
    else if is k "reconnect_max_delay"
    then into (λ n. record c { reconnect_max_delay = n }) (integer v 1 86400)
    else if is k "reconnect_jitter_percent"
    then into (λ n. record c { reconnect_jitter_percent = n }) (integer v 0 90)
    else set_limit b c k v

-- The mode, the ports, the ciphers and the log level of `set_common`.
unfoldable pub set_choice : Build → Config → (k v : List ℕ) → Outcome Config
set_choice b c k v =
    if is k "mode"
    then set_mode b c v
    else if is k "bind_port"
    then into (λ p. record c { bind_port = p }) (port v)
    else if is k "server_port"
    then into (λ p. record c { server_port = p }) (port v)
    else if is k "allowed_ciphers"
    then into (λ m. record c { cipher_mask = m }) (ciphers v)
    else if is k "preferred_cipher"
    then if is v "xchacha20-poly1305"
      then done (record c { preferred_cipher = cipher_chacha })
      else invalid
    else if is k "default_data_encryption"
    then over (λ e. record c { default_data_encryption = e }) (enc b v)
    else if is k "log_level"
    then into (λ l. record c { log_level = l }) (log_parse_level b v)
    else set_time b c k v

-- All of `set_common`; its texts come first.
unfoldable pub set_common : Build → Config → (k v : List ℕ) → Outcome Config
set_common b c k v =
    if is k "bind_addr"
    then into (λ t. record c { bind_addr = t }) (cp (b.max_addr + 1) v)
    else if is k "server_addr"
    then into (λ t. record c { server_addr = t }) (cp (b.max_addr + 1) v)
    else if is k "client_id"
    then into (λ t. record c { client_id = t }) (cp (b.max_client_id + 1) v)
    else if is k "identity_private_key"
    then into (λ t. record c { identity_private_key = t }) (cp b.max_path v)
    else if is k "server_public_key"
    then into (λ t. record c { server_public_key = t }) (cp b.max_path v)
    else if is k "authorized_clients_file"
    then into (λ t. record c { authorized_clients_file = t }) (cp b.max_path v)
    else if is k "log_file"
    then into (λ t. record c { log_file = t }) (cp b.max_path v)
    else set_choice b c k v

-- The file's name in `set_default_log_file`.
unfoldable pub log_name : Build → (mode : ℕ) → List ℕ
log_name b mode =
    if b.server && mode == mode_server
    then codes "ctunnel-server.log"
    else if b.client && mode == mode_client
    then codes "ctunnel-client.log"
    else codes "ctunnel.log"

-- By what stands before the last slash of `config_path`, the slash included.
unfoldable pub log_path : Build → (mode : ℕ) → Option (List ℕ) → Option (List ℕ)
log_path b mode none = cp b.max_path (log_name b mode)
log_path b mode (some dir) =
    if leb b.max_path (length dir + length (log_name b mode))
    then none
    else some (dir ++ log_name b mode)

unfoldable pub set_default_log_file : Build → Config → Option Config
set_default_log_file b c =
    if not (length c.log_file == 0)
    then some c
    else elim (log_path b c.mode (through_last b'/' c.config_path)) [
      | none ↦ none
      | some t ↦ some (record c { log_file = t })
    ]

-- The value of "type".
unfoldable pub set_type : Build → ServiceConfig → (v : List ℕ) → Outcome ServiceConfig
set_type b s v =
    if is v "tcp"
    then done (record s { kind = 1 })
    else if is v "udp"
    then if b.udp then done (record s { kind = 2 }) else unavailable
    else if is v "http"
    then done (record s { kind = 3 })
    else if is v "https"
    then done (record s { kind = 4 })
    else invalid

-- The value of "proxy_protocol".
unfoldable pub set_proxy : Build → ServiceConfig → (v : List ℕ) → Outcome ServiceConfig
set_proxy b s v =
    if is v "off"
    then done (record s { proxy_protocol = proxy_protocol_off })
    else if is v "v1"
    then if b.proxy_protocol_v1
      then done (record s { proxy_protocol = proxy_protocol_v1 })
      else unavailable
    else if is v "v2"
    then if b.proxy_protocol_v2
      then done (record s { proxy_protocol = proxy_protocol_v2 })
      else unavailable
    else invalid

-- The UDP options of a build that has UDP.
unfoldable pub set_udp : Build → ServiceConfig → (k v : List ℕ) → Outcome ServiceConfig
set_udp b s k v =
    if is k "udp_idle_timeout"
    then into (λ n. record s { udp_options_seen = 1; udp_idle_timeout = n }) (integer v 1 86400)
    else if is k "udp_reply_timeout"
    then into (λ n. record s { udp_options_seen = 1; udp_reply_timeout = n }) (integer v 1 86400)
    else if is k "udp_max_sessions"
    then into (λ n. record s { udp_options_seen = 1; udp_max_sessions = n })
        (integer v 1 b.max_udp_sessions)
    else if is k "udp_max_datagram_size"
    then into (λ n. record s { udp_options_seen = 1; udp_max_datagram_size = n })
        (integer v 512 b.max_udp_datagram)
    else unknown

-- The options that depend on the build.
unfoldable pub set_feature : Build → ServiceConfig → (k v : List ℕ) → Outcome ServiceConfig
set_feature b s k v =
    if b.proxy_protocol && is k "proxy_protocol"
    then set_proxy b s v
    else if b.proxy_protocol && is k "proxy_protocol_tlv"
    then if is v "off" then done s else invalid
    else if b.udp
    then set_udp b s k v
    else if is k "udp_idle_timeout"
        || is k "udp_reply_timeout"
        || is k "udp_max_sessions"
        || is k "udp_max_datagram_size"
    then unavailable
    else unknown

unfoldable pub set_service : Build → ServiceConfig → (k v : List ℕ) → Outcome ServiceConfig
set_service b s k v =
    if is k "type"
    then set_type b s v
    else if is k "remote_addr"
    then into (λ t. record s { remote_addr = t }) (cp (b.max_addr + 1) v)
    else if is k "local_addr"
    then into (λ t. record s { local_addr = t }) (cp (b.max_addr + 1) v)
    else if is k "remote_port"
    then into (λ p. record s { remote_port = p }) (port v)
    else if is k "local_port"
    then into (λ p. record s { local_port = p }) (port v)
    else if is k "data_encryption"
    then over (λ e. record s { encryption = e }) (enc b v)
    else set_feature b s k v
