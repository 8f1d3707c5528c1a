-- ===== src/Config/Validate/Accepts.antt =====
-- Which configurations `ct_config_validate` of src/config/config.c accepts.
use ctunnel.Prelude.{
  ℕ, ◌^◌, ◌<◌, ◌≤◌, ◌≡◌, ◌≢◌, ◌↔◌, ◌⊎◌, Bool, true, false, none, List, [], ◌∷◌, ◌++◌, length,
  bit_and, arith, All,
}
use ctunnel.Types.{
  Config, ServiceConfig, mode_none, mode_server, mode_client, enc_disabled, proxy_protocol_off,
}
use ctunnel.Config.Build.{Build}
use ctunnel.Config.Values.{address_family_unavailable, any_eq}
use ctunnel.Config.Validate.{
  first_unavailable, validate_service, validate_services, validate_mode, validate_limits,
  validate_general, config_family, config_validate,
}

-- No list of `earlier` ids and none of the services before it has a service's id.
abbrev pub Distinct : (earlier : List (List ℕ)) → List ServiceConfig → Type 0
Distinct earlier [] = Unit {0}
Distinct earlier (s ∷ services) =
    (any_eq s.id earlier ≡ false) × Distinct (earlier ++ (s.id ∷ [])) services

module _ (inet_pton : ℕ → List ℕ → Bool) (b : Build) where
  -- The build has the family of an address.
  abbrev pub Reachable : List ℕ → Type 0
  Reachable address = address_family_unavailable inet_pton b address ≡ 0

  -- A service that a client of this build can offer.
  abbrev pub IsOffered : ServiceConfig → Type 0
  IsOffered s =
      Reachable s.remote_addr
      × Reachable s.local_addr
      × ((s.kind ≡ 1) ⊎ (s.kind ≡ 2))
      × ((b.proxy_protocol ≡ false) ⊎ (s.kind ≡ 1) ⊎ (s.proxy_protocol ≡ proxy_protocol_off))
      × ((b.udp ≡ true) ⊎ (s.kind ≢ 2))
      × ((b.udp ≡ false) ⊎ (s.kind ≢ 1) ⊎ (s.udp_options_seen ≡ 0))
      × ((b.data_encryption ≡ true) ⊎ (s.encryption ≡ enc_disabled))
      × (s.remote_port ≢ 0)
      × (s.local_port ≢ 0)

  first_unavailable_iff :
      (one two : List ℕ)
      → (first_unavailable inet_pton b one two ≡ 0) ↔ (Reachable one × Reachable two)
  unfolding first_unavailable
  first_unavailable_iff one two = ground arith

  validate_service_iff :
      (earlier : List (List ℕ)) (s : ServiceConfig)
      → (validate_service inet_pton b earlier s ≡ none)
        ↔ (IsOffered s × (any_eq s.id earlier ≡ false))
  unfolding validate_service
  validate_service_iff earlier s = ground (arith, first_unavailable_iff s.remote_addr s.local_addr)

  validate_services_iff :
      (earlier : List (List ℕ)) (services : List ServiceConfig)
      → (validate_services inet_pton b earlier services ≡ none)
        ↔ (All IsOffered services × Distinct earlier services)
  unfolding validate_services
  validate_services_iff earlier [] = ground arith
  validate_services_iff earlier (s ∷ services) = ground (
    arith,
    validate_service_iff earlier s,
    validate_services_iff (earlier ++ (s.id ∷ [])) services,
  )

  -- What a server needs, and what a client needs.
  abbrev pub IsServer : Config → Type 0
  IsServer c = (length c.authorized_clients_file ≢ 0) × (length c.services ≡ 0)

  abbrev pub IsClient : Config → Type 0
  IsClient c =
      (length c.server_addr ≢ 0)
      × (length c.client_id ≢ 0)
      × (length c.server_public_key ≢ 0)
      × All IsOffered c.services
      × Distinct [] c.services

  validate_mode_iff :
      (c : Config)
      → (validate_mode inet_pton b c ≡ none)
        ↔ (((c.mode ≡ mode_server) × IsServer c) ⊎ ((c.mode ≢ mode_server) × IsClient c))
  unfolding validate_mode
  validate_mode_iff c = ground (arith, validate_services_iff [] c.services)

  -- What both need.
  abbrev pub IsLimited : Config → Type 0
  IsLimited c =
      (c.heartbeat_interval < c.heartbeat_timeout)
      × (c.max_clients ≤ b.max_auth_clients)
      × (c.max_services_per_client ≤ b.max_services)
      × (c.max_streams_per_client ≤ b.max_streams)
      × (c.max_pending_streams ≤ b.max_pending)
      × ((b.work_pool ≡ true) ⊎ (c.pool_count ≡ 0))
      × ((b.data_encryption ≡ true) ⊎ (c.default_data_encryption ≡ enc_disabled))

  validate_limits_iff : (c : Config) → (validate_limits inet_pton b c ≡ none) ↔ IsLimited c
  unfolding validate_limits
  validate_limits_iff c = ground arith

  abbrev pub IsGeneral : Config → Type 0
  IsGeneral c =
      (c.mode ≢ mode_none)
      × ((b.server ≡ true) ⊎ (c.mode ≢ mode_server))
      × ((b.client ≡ true) ⊎ (c.mode ≢ mode_client))
      × (length c.identity_private_key ≢ 0)
      × (bit_and c.cipher_mask (2 ^ c.preferred_cipher) ≢ 0)
      × Reachable c.bind_addr
      × ((c.mode ≢ mode_client) ⊎ Reachable c.server_addr)

  validate_general_iff : (c : Config) → (validate_general inet_pton b c ≡ none) ↔ IsGeneral c
  unfolding validate_general config_family
  validate_general_iff c = ground (arith, first_unavailable_iff c.bind_addr c.server_addr)

  -- A configuration that can run in this build.
  abbrev pub IsRunnable : Config → Type 0
  IsRunnable c =
      IsGeneral c
      × IsLimited c
      × (((c.mode ≡ mode_server) × IsServer c) ⊎ ((c.mode ≢ mode_server) × IsClient c))

  pub config_validate_iff : (c : Config) → (config_validate inet_pton b c ≡ none) ↔ IsRunnable c
  unfolding config_validate
  config_validate_iff c =
      ground (arith, validate_general_iff c, validate_limits_iff c, validate_mode_iff c)
