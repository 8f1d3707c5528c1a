-- ===== src/Config/Tests.antt =====
-- A small build and small files, with what the readers make of them.
use ctunnel.Prelude.{
  length, inl, inr, Option, ◌+◌, ℕ, ◌≤◌, ◌≡◌, ◌↔◌, ◌⊎◌, refl, Bool, true, false, none, some, List,
  [], ◌∷◌, Any, arith,
}
use ctunnel.CString.{
  codes, is_space, is_digit, c_string, split_at, has, through_last, skip_space, scan, clamp,
  strtol_digits, strtol_sign, strtol, take_line,
}
use ctunnel.Prelude.Bytes.{bytes_eq}
use ctunnel.Types.{Config, ServiceConfig, AuthorizedClient, PortRange}
use ctunnel.Config.Build.{Build, IsBuild}
use ctunnel.Config.Values.{
  keep_before_space, trim_end, trim, cp, any_eq, key_seen, integer, port,
  address_family_unavailable,
}
use ctunnel.Config.Options.{
  set_mode, set_fixed, set_limit, set_time, set_choice, set_common, log_name, log_path,
  set_default_log_file, set_type, set_proxy, set_udp, set_feature, set_service,
}
use ctunnel.Config.Validate.{
  config_validate, first_unavailable, validate_service, validate_services, validate_mode,
  validate_limits, validate_general, config_family,
}
use ctunnel.Config.Reader.{File, Result, ok, at_end, is_comment, line_step, for_lines}
use ctunnel.Config.Load.{
  defaults, Reading, new_service, on_last, enter_section, section_line, service_option,
  common_option, option_line, config_line, Environment, override, checked, end_load, start,
  config_load,
}
use ctunnel.CString.Laws.{digits_value}
use ctunnel.Config.Values.Laws.{integer-digits}
use ctunnel.Config.Values.Lines.{IsKey}
use ctunnel.Config.Load.{line_too_long}
use ctunnel.Config.Load.Kept.{IsLoaded, config_load_sound}
use ctunnel.Config.Load.Syntax.{option_in_section, line_step-pair, set_default_log_file-beside}
use ctunnel.Config.Authorized.{authorized_find, authorized_port}
use ctunnel.Config.Authorized.Lookup.{authorized_port_iff, authorized_find_iff}

abbrev small_build : Build
small_build = record {
  max_client_id = 8;
  max_service_id = 8;
  max_addr = 16;
  max_path = 64;
  max_services = 2;
  max_auth_clients = 2;
  max_port_ranges = 2;
  max_streams = 4;
  max_pending = 4;
  max_udp_sessions = 2;
  max_udp_datagram = 512;
  default_pool = 1;
  default_max_streams = 4;
  default_max_pending = 4;
  compiled_log_max = 2;
  server = true;
  client = true;
  ipv4 = true;
  ipv6 = true;
  udp = true;
  data_encryption = true;
  proxy_protocol = true;
  proxy_protocol_v1 = true;
  proxy_protocol_v2 = true;
  work_pool = true;
  env_override = false;
}

small_build-IsBuild : IsBuild small_build
small_build-IsBuild = record {
  client_id_room = omega arith;
  service_id_room = omega arith;
  addr_room = omega arith;
  path_room = omega arith;
  some_clients = omega arith;
  some_services = omega arith;
  services_small = omega arith;
  some_streams = omega arith;
  streams_small = omega arith;
  udp_sessions = omega arith;
  udp_datagram = omega arith;
  udp_datagram_small = omega arith;
  streams_least = omega arith;
  streams_default = omega arith;
  pending_least = omega arith;
  pending_default = omega arith;
  log_default = omega arith;
}

abbrev no_address : ℕ → List ℕ → Bool
no_address family text = false

abbrev no_environment : Environment
no_environment = record { ctunnel_log_level = none; ctunnel_pool_count = none }

-- A client with one service.
abbrev client_file : File
client_file = record {
  bytes =
      codes
        "# c\n[common]\n mode = client \nserver_addr=h\nclient_id=a\nidentity_private_key=k\nserver_public_key=p\n\n[web]\ntype=tcp\nremote_port=80\nlocal_port = 8080";
  broken = false;
}

abbrev web : ServiceConfig
web = record (new_service small_build (defaults small_build) (codes "web")) {
  kind = 1;
  remote_port = 80;
  local_port = 8080;
}

abbrev client_config : Config
client_config = record (defaults small_build) {
  mode = 2;
  config_path = codes "etc/c";
  server_addr = codes "h";
  client_id = codes "a";
  identity_private_key = codes "k";
  server_public_key = codes "p";
  log_file = codes "etc/ctunnel-client.log";
  services = web ∷ [];
}

client_file_loads :
    config_load no_address small_build no_environment (codes "etc/c") (some client_file)
    ≡ some (ok client_config)
unfolding config_load for_lines line_step take_line has split_at c_string at_end trim trim_end
    keep_before_space skip_space is_space is_comment config_line section_line option_line
    enter_section cp common_option service_option on_last key_seen any_eq set_common set_choice
    set_mode set_time set_limit set_fixed set_service set_type set_feature set_proxy set_udp port
    integer strtol strtol_sign strtol_digits scan is_digit clamp start defaults new_service end_load
    override checked set_default_log_file log_path log_name through_last config_validate
    validate_general validate_limits validate_mode validate_services validate_service
    first_unavailable config_family address_family_unavailable bytes_eq
client_file_loads = refl

config_load_sound_example : IsLoaded small_build no_address client_config
config_load_sound_example =
    config_load_sound small_build no_address no_environment (codes "etc/c") (some client_file)
      client_config small_build-IsBuild client_file_loads

-- A body that counts lines.
abbrev count_lines : Option (Result ℕ ℕ)
count_lines =
    for_lines 1024 (λ ln. ln) (λ ln line s. ok (s + 1)) (length client_file.bytes + 1) 0 client_file
      0

-- The number 08 behind a blank.
integer-digits_example : integer (codes " 08") 1 10 ≡ some 8
unfolding digits_value is_space
integer-digits_example =
    integer-digits (32 ∷ []) 0 (8 ∷ []) 1 10 (refl, tt) (omega arith, (omega arith, tt))
      (omega arith)

-- An empty value is 0 where 0 is in range.
empty_is_zero : integer [] 0 90 ≡ some 0
unfolding integer strtol strtol_sign strtol_digits skip_space clamp
empty_is_zero = refl

abbrev in_common : Reading
in_common = record (start small_build (codes "etc/c")) { section = codes "common" }

line_step-pair_example :
    line_step 127 line_too_long (config_line small_build) 3 (codes " bind_port\t= 80 \n") in_common
    ≡ option_in_section small_build 3 in_common (codes "bind_port") (codes "80")
unfolding trim trim_end keep_before_space skip_space is_space
line_step-pair_example =
    line_step-pair small_build 127 3 line_too_long in_common (codes " ") b'b' (codes "ind_port")
      (codes "\t") (codes " 80 ") key (refl, tt) (refl, tt) (refl, (refl, (refl, (refl, tt))))
  where
    key : IsKey b'b' (codes "ind_port")
    key = record {
      no_equals = (refl, (refl, (refl, (refl, (refl, (refl, (refl, (refl, (refl, tt)))))))));
      no_end = (refl, (refl, (refl, (refl, (refl, (refl, (refl, (refl, (refl, tt)))))))));
      no_section = refl;
      no_comment = refl;
      solid_front = refl;
      solid_end = refl;
    }

set_default_log_file-beside_example :
    set_default_log_file small_build (record client_config { log_file = [] }) ≡ some client_config
unfolding log_name
set_default_log_file-beside_example =
    set_default_log_file-beside small_build (record client_config { log_file = [] }) (codes "etc/")
      (codes "ctunnel-client.log") refl (inr (codes "etc", codes "c", refl, (refl, tt), refl))
      (inr (inl (refl, refl, refl)))

-- Two clients.
abbrev policy_file : File
policy_file = record {
  bytes =
      codes
        "[client.a]\npublic_key=p\nallow_remote_port=80\nallow_remote_port = 1000-2000\n\n[client.b]\npublic_key=q\nallow_bind_addr=*\nallow_remote_port=1-65535\nmax_streams=1\n";
  broken = false;
}

abbrev client_a : AuthorizedClient
client_a = record {
  id = codes "a";
  public_key = codes "p";
  allow_addr = codes "::";
  ports = record { first = 80; last = 80 } ∷ record { first = 1000; last = 2000 } ∷ [];
  max_services = 2;
  max_streams = 4;
}

abbrev client_b : AuthorizedClient
client_b = record {
  id = codes "b";
  public_key = codes "q";
  allow_addr = codes "*";
  ports = record { first = 1; last = 65535 } ∷ [];
  max_services = 2;
  max_streams = 1;
}

abbrev with_clients : Config
with_clients = record client_config { clients = client_a ∷ client_b ∷ [] }

authorized_port_iff_example : (authorized_port client_b (codes "::1") 22 ≡ true) ↔ (
    ((client_b.allow_addr ≡ codes "*") ⊎ (client_b.allow_addr ≡ codes "::1"))
    × Any (λ (r : PortRange). (r.first ≤ 22) × (22 ≤ r.last)) client_b.ports)
authorized_port_iff_example = authorized_port_iff client_b (codes "::1") 22

authorized_find_iff_example :
    (authorized_find (client_a ∷ client_b ∷ []) (codes "b") ≡ some client_b) ↔ (
      Any (λ (x : AuthorizedClient). x ≡ client_b) (client_a ∷ client_b ∷ [])
      × (client_b.id ≡ codes "b"))
unfolding any_eq bytes_eq
authorized_find_iff_example =
    authorized_find_iff (client_a ∷ client_b ∷ []) (codes "b") client_b (refl, (refl, tt))
