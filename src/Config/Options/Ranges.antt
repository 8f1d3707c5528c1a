-- ===== src/Config/Options/Ranges.antt =====
-- The options of the section [common], against the ranges and buffers of src/config/config.c.
use ctunnel.Prelude.{
  ℕ, ◌+◌, ◌<◌, ◌≤◌, ◌≡◌, refl, false, not, Option, none, some, List, length, arith, either_way, ◌⊎◌,
  All,
}
use ctunnel.CString.{is}
use ctunnel.Types.{Config, ServiceConfig}
use ctunnel.Config.Build.{Build}
use ctunnel.Config.Values.{
  Outcome, done, invalid, unavailable, unknown, over, cp, integer, port, enc, ciphers,
  log_parse_level,
}
use ctunnel.Config.Values.Laws.{integer_bounds, port_bounds, cp_fits}
use ctunnel.Config.Options.{into, set_mode, set_fixed, set_limit, set_time, set_choice, set_common}

abbrev pub Within : (lo hi n : ℕ) → Type 0
Within lo hi n = (lo ≤ n) × (n ≤ hi)

-- What holds of what is stored, if anything is.
abbrev pub Stored : {A : Type 0} → (A → Type 0) → Outcome A → Type 0
Stored P (done a) = P a
Stored P invalid = Unit {0}
Stored P unavailable = Unit {0}
Stored P unknown = Unit {0}

pub into-Stored :
    {A B : Type 0} (P : B → Type 0) (set : A → B) (o : Option A)
    → ((a : A) → o ≡ some a → P (set a))
    → Stored P (into set o)
into-Stored P set none h = tt
into-Stored P set (some a) h = h a refl

module _ (b : Build) where
  -- Texts fit their arrays, ports their type (0 is not set), and UDP numbers their options' ranges.
  abbrev pub ServiceFits : ServiceConfig → Type 0
  ServiceFits s =
      (length s.id ≤ b.max_service_id)
      × (length s.remote_addr ≤ b.max_addr)
      × (length s.local_addr ≤ b.max_addr)
      × (s.remote_port ≤ 65535)
      × (s.local_port ≤ 65535)
      × ((b.udp ≡ false)
          ⊎ (Within 1 86400 s.udp_idle_timeout
              × Within 1 86400 s.udp_reply_timeout
              × Within 1 b.max_udp_sessions s.udp_max_sessions
              × Within 512 b.max_udp_datagram s.udp_max_datagram_size))

  -- Texts fit their arrays.
  abbrev pub TextsFit : Config → Type 0
  TextsFit c =
      (length c.bind_addr ≤ b.max_addr)
      × (length c.server_addr ≤ b.max_addr)
      × (length c.client_id ≤ b.max_client_id)
      × (length c.identity_private_key < b.max_path)
      × (length c.server_public_key < b.max_path)
      × (length c.authorized_clients_file < b.max_path)
      × (length c.log_file < b.max_path)
      × (length c.config_path < b.max_path)

  -- Ports and times are in the ranges of their options.
  abbrev pub TimesFit : Config → Type 0
  TimesFit c =
      Within 1 65535 c.bind_port
      × Within 1 65535 c.server_port
      × Within 1 3600 c.heartbeat_interval
      × Within 2 7200 c.heartbeat_timeout
      × Within 1 120 c.handshake_timeout
      × Within 1 120 c.connect_timeout
      × Within 1 3600 c.reconnect_initial_delay
      × Within 1 86400 c.reconnect_max_delay
      × Within 0 90 c.reconnect_jitter_percent

  -- Limits are in the ranges of their options, or the default of the build for `pool_count`.
  abbrev pub LimitsFit : Config → Type 0
  LimitsFit c =
      ((c.pool_count ≤ b.max_streams) ⊎ (c.pool_count ≡ b.default_pool))
      × Within 1 b.max_auth_clients c.max_clients
      × Within 1 b.max_services c.max_services_per_client
      × Within 1 b.max_streams c.max_streams_per_client
      × Within 1 b.max_pending c.max_pending_streams
      × Within 0 3650 c.log_rotate_days
      × Within 64 1048576 c.log_max_size_kib

  -- Services fit in the array, each within its own arrays and ranges.
  abbrev pub ServicesFit : List ServiceConfig → Type 0
  ServicesFit services = (length services ≤ b.max_services) × All ServiceFits services

  abbrev pub ConfigFits : Config → Type 0
  ConfigFits c = TextsFit c × TimesFit c × LimitsFit c × ServicesFit c.services

  abbrev Kept : Outcome Config → Type 0
  Kept o = Stored ConfigFits o

  number-Kept :
      (set : ℕ → Config) (v : List ℕ) (lo hi : ℕ)
      → ((n : ℕ) → Within lo hi n → ConfigFits (set n))
      → Kept (into set (integer v lo hi))
  number-Kept set v lo hi h =
      into-Stored ConfigFits set (integer v lo hi) (λ n e. h n (integer_bounds v lo hi n e))

  port-Kept :
      (set : ℕ → Config) (v : List ℕ)
      → ((n : ℕ) → Within 1 65535 n → ConfigFits (set n))
      → Kept (into set (port v))
  port-Kept set v h = into-Stored ConfigFits set (port v) (λ n e. h n (port_bounds v n e))

  text-Kept :
      (set : List ℕ → Config) (v : List ℕ) (n : ℕ)
      → ((t : List ℕ) → length t < n → ConfigFits (set t))
      → Kept (into set (cp n v))
  text-Kept set v n h = into-Stored ConfigFits set (cp n v) (λ t e. h t (cp_fits n v t e))

  set_fixed-Kept : (c : Config) (k v : List ℕ) → ConfigFits c → Kept (set_fixed c k v)
  unfolding set_fixed
  set_fixed-Kept c k v h =
      either_way Kept (is k "control_encryption") (either_way Kept (is v "required") h tt)
        (either_way Kept (is k "auth_mode") (either_way Kept (is v "public-key") h tt) tt)

  set_limit-Kept : (c : Config) (k v : List ℕ) → ConfigFits c → Kept (set_limit b c k v)
  unfolding set_limit
  set_limit-Kept c k v h =
      either_way Kept (is k "pool_count")
        (either_way Kept b.work_pool (number-Kept _ v 0 b.max_streams (λ n w. ground (arith, h, w)))
          (either_way Kept (is v "0") h tt))
        (either_way Kept (is k "max_clients")
          (number-Kept _ v 1 b.max_auth_clients (λ n w. ground (arith, h, w)))
          (either_way Kept (is k "max_services_per_client")
            (number-Kept _ v 1 b.max_services (λ n w. ground (arith, h, w)))
            (either_way Kept (is k "max_streams_per_client")
              (number-Kept _ v 1 b.max_streams (λ n w. ground (arith, h, w)))
              (either_way Kept (is k "max_pending_streams")
                (number-Kept _ v 1 b.max_pending (λ n w. ground (arith, h, w)))
                (either_way Kept (is k "log_rotate_days")
                  (number-Kept _ v 0 3650 (λ n w. ground (arith, h, w)))
                  (either_way Kept (is k "log_max_size_kib")
                    (number-Kept _ v 64 1048576 (λ n w. ground (arith, h, w)))
                    (set_fixed-Kept c k v h)))))))

  set_time-Kept : (c : Config) (k v : List ℕ) → ConfigFits c → Kept (set_time b c k v)
  unfolding set_time
  set_time-Kept c k v h =
      either_way Kept (is k "heartbeat_interval")
        (number-Kept _ v 1 3600 (λ n w. ground (arith, h, w)))
        (either_way Kept (is k "heartbeat_timeout")
          (number-Kept _ v 2 7200 (λ n w. ground (arith, h, w)))
          (either_way Kept (is k "handshake_timeout")
            (number-Kept _ v 1 120 (λ n w. ground (arith, h, w)))
            (either_way Kept (is k "connect_timeout")
              (number-Kept _ v 1 120 (λ n w. ground (arith, h, w)))
              (either_way Kept (is k "reconnect_initial_delay")
                (number-Kept _ v 1 3600 (λ n w. ground (arith, h, w)))
                (either_way Kept (is k "reconnect_max_delay")
                  (number-Kept _ v 1 86400 (λ n w. ground (arith, h, w)))
                  (either_way Kept (is k "reconnect_jitter_percent")
                    (number-Kept _ v 0 90 (λ n w. ground (arith, h, w)))
                    (set_limit-Kept c k v h)))))))

  set_mode-Kept : (c : Config) (v : List ℕ) → ConfigFits c → Kept (set_mode b c v)
  unfolding set_mode
  set_mode-Kept c v h =
      either_way Kept (is v "server") (either_way Kept (not b.server) tt h)
        (either_way Kept (is v "client") (either_way Kept (not b.client) tt h) tt)

  enc-Kept : (set : ℕ → Config) (o : Outcome ℕ) → ((n : ℕ) → ConfigFits (set n)) → Kept (over set o)
  enc-Kept set (done e) h = h e
  enc-Kept set invalid h = tt
  enc-Kept set unavailable h = tt
  enc-Kept set unknown h = tt

  set_choice-Kept : (c : Config) (k v : List ℕ) → ConfigFits c → Kept (set_choice b c k v)
  unfolding set_choice
  set_choice-Kept c k v h = either_way Kept (is k "mode") (set_mode-Kept c v h) (
      either_way Kept (is k "bind_port") (port-Kept _ v (λ n w. ground (arith, h, w))) (
        either_way Kept (is k "server_port") (port-Kept _ v (λ n w. ground (arith, h, w))) (
          either_way Kept (is k "allowed_ciphers") (into-Stored ConfigFits _ (ciphers v) (λ m e. h))
            (either_way Kept (is k "preferred_cipher")
              (either_way Kept (is v "xchacha20-poly1305") h tt)
              (either_way Kept (is k "default_data_encryption") (enc-Kept _ (enc b v) (λ e. h)) (
                either_way Kept (is k "log_level")
                  (into-Stored ConfigFits _ (log_parse_level b v) (λ l e. h))
                  (set_time-Kept c k v h)))))))

  -- An option that `set_common` accepts leaves the texts within their arrays and the numbers within
  -- the ranges of their options.
  pub set_common-Kept : (c : Config) (k v : List ℕ) → ConfigFits c → Kept (set_common b c k v)
  unfolding set_common
  set_common-Kept c k v h =
      either_way Kept (is k "bind_addr")
        (text-Kept _ v (b.max_addr + 1) (λ t l. ground (arith, h, l)))
        (either_way Kept (is k "server_addr")
          (text-Kept _ v (b.max_addr + 1) (λ t l. ground (arith, h, l)))
          (either_way Kept (is k "client_id")
            (text-Kept _ v (b.max_client_id + 1) (λ t l. ground (arith, h, l)))
            (either_way Kept (is k "identity_private_key")
              (text-Kept _ v b.max_path (λ t l. ground (arith, h, l)))
              (either_way Kept (is k "server_public_key")
                (text-Kept _ v b.max_path (λ t l. ground (arith, h, l)))
                (either_way Kept (is k "authorized_clients_file")
                  (text-Kept _ v b.max_path (λ t l. ground (arith, h, l)))
                  (either_way Kept (is k "log_file")
                    (text-Kept _ v b.max_path (λ t l. ground (arith, h, l)))
                    (set_choice-Kept c k v h)))))))
