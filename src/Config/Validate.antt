-- ===== src/Config/Validate.antt =====
-- `ct_config_validate` of src/config/config.c; the messages are constructors.
pub mod Accepts
use ctunnel.Prelude.{
  ℕ, ◌^◌, ◌+◌, Bool, true, false, not, ◌&&◌, ◌||◌, Option, none, some, List, [], ◌∷◌, ◌++◌, ltb,
  leb, ◌==◌, if◌then◌else◌, length, bit_and,
}
use ctunnel.Prelude.Bytes.{bytes_eq}
use ctunnel.Types.{
  Config, ServiceConfig, mode_none, mode_server, mode_client, enc_disabled, proxy_protocol_off,
}
use ctunnel.Config.Build.{Build}
use ctunnel.Config.Values.{address_family_unavailable, any_eq}

-- The reasons to refuse a service and a configuration.
pub data Fault : Type 0 where
  family_missing : ℕ → Fault
  unsupported_type proxy_not_tcp udp_missing udp_option_on_tcp encryption_unavailable ports_required
        duplicate_service :
      Fault

pub data Refusal : Type 0 where
  mode_required server_missing client_missing identity_required cipher_not_allowed : Refusal
  address_missing : ℕ → Refusal
  heartbeat_too_short clients_exceed limit_exceeds pool_missing encryption_missing : Refusal
  clients_file_required services_on_server client_incomplete : Refusal
  service_refused : List ℕ → Fault → Refusal

-- The first of two reasons.
abbrev pub or_else {ℓ} : {A : Type ℓ} → Option A → Option A → Option A
or_else (some a) o = some a
or_else none o = o

-- `if (bad) { ...; return -1; }`
abbrev pub unless {ℓ} : {A : Type ℓ} → (bad : Bool) → A → Option A → Option A
unless true a next = some a
unless false a next = next

module _ (inet_pton : ℕ → List ℕ → Bool) (b : Build) where
  -- The family of the first address unless it is 0, else that of the second.
  unfoldable pub first_unavailable : (one two : List ℕ) → ℕ
  first_unavailable one two =
      let family = address_family_unavailable inet_pton b one in
      if family == 0 then address_family_unavailable inet_pton b two else family

  -- A round of the loop over the services; `earlier` are the ids of those before it.
  unfoldable pub validate_service : (earlier : List (List ℕ)) → ServiceConfig → Option Fault
  validate_service earlier s =
      unless (not (first_unavailable s.remote_addr s.local_addr == 0))
        (family_missing (first_unavailable s.remote_addr s.local_addr))
        (unless (not (s.kind == 1) && not (s.kind == 2)) unsupported_type (
          unless
            (b.proxy_protocol && not (s.kind == 1) && not (s.proxy_protocol == proxy_protocol_off))
            proxy_not_tcp
            (unless (not b.udp && s.kind == 2) udp_missing (
              unless (b.udp && s.kind == 1 && not (s.udp_options_seen == 0)) udp_option_on_tcp (
                unless (not b.data_encryption && not (s.encryption == enc_disabled))
                  encryption_unavailable
                  (unless (s.remote_port == 0 || s.local_port == 0) ports_required
                    (unless (any_eq s.id earlier) duplicate_service none)))))))

  unfoldable pub validate_services : (earlier : List (List ℕ)) → List ServiceConfig → Option Refusal
  validate_services earlier [] = none
  validate_services earlier (s ∷ services) = elim (validate_service earlier s) [
    | some fault ↦ some (service_refused s.id fault)
    | none ↦ validate_services (earlier ++ (s.id ∷ [])) services
  ]

  -- What only one of the modes requires.
  unfoldable pub validate_mode : Config → Option Refusal
  validate_mode c =
      if c.mode == mode_server
      then unless (length c.authorized_clients_file == 0) clients_file_required
          (unless (not (length c.services == 0)) services_on_server none)
      else unless
          (length c.server_addr == 0 || length c.client_id == 0 || length c.server_public_key == 0)
          client_incomplete (validate_services [] c.services)

  -- The checks on numbers and features.
  unfoldable pub validate_limits : Config → Option Refusal
  validate_limits c = unless (leb c.heartbeat_timeout c.heartbeat_interval) heartbeat_too_short (
      unless (ltb b.max_auth_clients c.max_clients) clients_exceed (
        unless
          (ltb b.max_services c.max_services_per_client
            || ltb b.max_streams c.max_streams_per_client
            || ltb b.max_pending c.max_pending_streams)
          limit_exceeds
          (unless (not b.work_pool && not (c.pool_count == 0)) pool_missing (
            unless (not b.data_encryption && not (c.default_data_encryption == enc_disabled))
              encryption_missing none))))

  -- The bind address's family, and for a client the server's.
  unfoldable pub config_family : Config → ℕ
  config_family c =
      if c.mode == mode_client
      then first_unavailable c.bind_addr c.server_addr
      else address_family_unavailable inet_pton b c.bind_addr

  unfoldable pub validate_general : Config → Option Refusal
  validate_general c = unless (c.mode == mode_none) mode_required (
      unless (not b.server && c.mode == mode_server) server_missing (
        unless (not b.client && c.mode == mode_client) client_missing (
          unless (length c.identity_private_key == 0) identity_required (
            unless (bit_and c.cipher_mask (2 ^ c.preferred_cipher) == 0) cipher_not_allowed
              (unless (not (config_family c == 0)) (address_missing (config_family c)) none)))))

  -- `none` for 0.
  unfoldable pub config_validate : Config → Option Refusal
  config_validate c = or_else (validate_general c) (or_else (validate_limits c) (validate_mode c))
