-- ===== src/Types.antt =====
-- src/ctunnel.h: the structures that the components share. A `char` array is its C string, the list
-- of the bytes before the NUL; an enum is its value, since the code casts integers to it.
use ctunnel.Prelude.{ℕ, List}

abbrev pub enc_required : ℕ
enc_required = 0

abbrev pub enc_disabled : ℕ
enc_disabled = 1

abbrev pub mode_none : ℕ
mode_none = 0

abbrev pub mode_server : ℕ
mode_server = 1

abbrev pub mode_client : ℕ
mode_client = 2

abbrev pub cipher_none : ℕ
cipher_none = 0

abbrev pub cipher_chacha : ℕ
cipher_chacha = 1

abbrev pub proxy_protocol_off : ℕ
proxy_protocol_off = 0

abbrev pub proxy_protocol_v1 : ℕ
proxy_protocol_v1 = 1

abbrev pub proxy_protocol_v2 : ℕ
proxy_protocol_v2 = 2

-- `ct_port_range`
pub record PortRange : Type 0 where
  pub first : ℕ
  pub last : ℕ

-- `ct_endpoint`; `addr` has 16 bytes.
pub record Endpoint : Type 0 where
  pub family : ℕ
  pub addr : List ℕ
  pub port : ℕ

-- `ct_stream_metadata`
pub record StreamMetadata : Type 0 where
  pub proxy_protocol : ℕ
  pub source : Endpoint
  pub destination : Endpoint

-- `ct_service_config`; `kind` is its `type`.
pub record ServiceConfig : Type 0 where
  pub id : List ℕ
  pub remote_addr : List ℕ
  pub local_addr : List ℕ
  pub remote_port : ℕ
  pub local_port : ℕ
  pub encryption : ℕ
  pub kind : ℕ
  pub proxy_protocol : ℕ
  pub udp_idle_timeout : ℕ
  pub udp_reply_timeout : ℕ
  pub udp_max_sessions : ℕ
  pub udp_max_datagram_size : ℕ
  pub udp_options_seen : ℕ

-- `ct_authorized_client`
pub record AuthorizedClient : Type 0 where
  pub id : List ℕ
  pub public_key : List ℕ
  pub allow_addr : List ℕ
  pub ports : List PortRange
  pub max_services : ℕ
  pub max_streams : ℕ

-- `ct_config`; `services` and `clients` hold the entries below `service_count` and `client_count`.
pub record Config : Type 0 where
  pub mode : ℕ
  pub config_path : List ℕ
  pub bind_addr : List ℕ
  pub server_addr : List ℕ
  pub bind_port : ℕ
  pub server_port : ℕ
  pub client_id : List ℕ
  pub identity_private_key : List ℕ
  pub server_public_key : List ℕ
  pub authorized_clients_file : List ℕ
  pub log_file : List ℕ
  pub cipher_mask : ℕ
  pub preferred_cipher : ℕ
  pub heartbeat_interval : ℕ
  pub heartbeat_timeout : ℕ
  pub handshake_timeout : ℕ
  pub connect_timeout : ℕ
  pub reconnect_initial_delay : ℕ
  pub reconnect_max_delay : ℕ
  pub reconnect_jitter_percent : ℕ
  pub pool_count : ℕ
  pub max_clients : ℕ
  pub max_services_per_client : ℕ
  pub max_streams_per_client : ℕ
  pub max_pending_streams : ℕ
  pub default_data_encryption : ℕ
  pub log_level : ℕ
  pub log_rotate_days : ℕ
  pub log_max_size_kib : ℕ
  pub services : List ServiceConfig
  pub clients : List AuthorizedClient
