-- ===== src/Config/Build.antt =====
-- What include/generated/autoconf.h fixes: the limits of src/Kconfig and the features of the build.
use ctunnel.Prelude.{ℕ, ◌≤◌, Bool}

pub record Build : Type 0 where
  pub max_client_id : ℕ
  pub max_service_id : ℕ
  pub max_addr : ℕ
  pub max_path : ℕ
  pub max_services : ℕ
  pub max_auth_clients : ℕ
  pub max_port_ranges : ℕ
  pub max_streams : ℕ
  pub max_pending : ℕ
  pub max_udp_sessions : ℕ
  pub max_udp_datagram : ℕ
  pub default_pool : ℕ
  pub default_max_streams : ℕ
  pub default_max_pending : ℕ
  pub compiled_log_max : ℕ
  pub server : Bool
  pub client : Bool
  pub ipv4 : Bool
  pub ipv6 : Bool
  pub udp : Bool
  pub data_encryption : Bool
  pub proxy_protocol : Bool
  pub proxy_protocol_v1 : Bool
  pub proxy_protocol_v2 : Bool
  pub work_pool : Bool
  pub env_override : Bool

-- The ranges of src/Kconfig that the code relies on. The default of `pool_count` is not tied to
-- `max_streams`.
pub record IsBuild (b : Build) : Type 0 where
  pub client_id_room : 8 ≤ b.max_client_id
  pub service_id_room : 8 ≤ b.max_service_id
  pub addr_room : 16 ≤ b.max_addr
  pub path_room : 64 ≤ b.max_path
  pub some_clients : 1 ≤ b.max_auth_clients
  pub some_services : 1 ≤ b.max_services
  pub services_small : b.max_services ≤ 256
  pub some_streams : 1 ≤ b.max_streams
  pub streams_small : b.max_streams ≤ 4096
  pub udp_sessions : 1 ≤ b.max_udp_sessions
  pub udp_datagram : 512 ≤ b.max_udp_datagram
  pub udp_datagram_small : b.max_udp_datagram ≤ 65507
  pub streams_least : 1 ≤ b.default_max_streams
  pub streams_default : b.default_max_streams ≤ b.max_streams
  pub pending_least : 1 ≤ b.default_max_pending
  pub pending_default : b.default_max_pending ≤ b.max_pending
  pub log_default : b.compiled_log_max ≤ 4
