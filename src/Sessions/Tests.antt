-- ===== src/Sessions/Tests.antt =====
-- A peer outside and a small table of sessions.
use ctunnel.Prelude.{
  ℕ, ◌≡◌, ◌==◌, refl, inl, Bool, true, Option, some, none, List, [], ◌∷◌, length, replicate, get_or,
  arith,
}
use ctunnel.CString.{codes}
use ctunnel.Types.{Endpoint, ServiceConfig}
use ctunnel.Datagram.{address_length}
use ctunnel.Datagram.RoundTrip.{IsDatagram}
use ctunnel.Sessions.{
  no_session, Peer, datagram, serves, index_of, is_free, count_active, next_id, new_session,
  server_udp_find, server_udp_place, server_udp_create, external_session, server_udp_from_external,
}
use ctunnel.Sessions.Table.{IsPeer}
use ctunnel.Sessions.Steps.{Event, from_outside, time_passes, stream_begins, run, run-IsPeer}
use ctunnel.Prelude.Bytes.{bytes_eq}
use ctunnel.Sessions.Frames.{handed_datagram}
use ctunnel.Sessions.Client.{
  ClientSession, no_client_session, Client, Answered, client_svc, session_of, client_udp_find,
  active_sessions, is_unused, client_udp_from_server,
}
use ctunnel.Sessions.Crossing.{datagram_crosses}

abbrev dns : ServiceConfig
dns = record {
  id = codes "dns";
  remote_addr = codes "::";
  local_addr = codes "::1";
  remote_port = 53;
  local_port = 53;
  encryption = 0;
  kind = 2;
  proxy_protocol = 0;
  udp_idle_timeout = 60;
  udp_reply_timeout = 5;
  udp_max_sessions = 2;
  udp_max_datagram_size = 512;
  udp_options_seen = 0;
}

abbrev services : ℕ → ServiceConfig
services svc = dns

abbrev caller : Endpoint
caller = record { family = 4; addr = 10 ∷ 0 ∷ 0 ∷ 1 ∷ replicate 12 0; port = 4000 }

abbrev small_peer : Peer
small_peer = record {
  udp = no_session ∷ no_session ∷ [];
  next_stream = 41;
  metrics = replicate 37 0;
}

abbrev buffer : List ℕ
buffer = replicate 64 0

abbrev always : List ℕ → Bool
always frame = true

abbrev calls : List Event
calls =
    from_outside always 1 7 100 (datagram caller (1 ∷ 2 ∷ []))
    ∷ stream_begins
    ∷ from_outside always 2 8 110 (datagram caller (3 ∷ []))
    ∷ time_passes 70000
    ∷ []

run-IsPeer_example : IsPeer (run 64 64 buffer services small_peer calls)
run-IsPeer_example =
    run-IsPeer 64 64 buffer services small_peer calls
      (((inl refl, tt), (tt, tt)), (inl refl, (inl refl, tt))) (omega arith)

-- The peer behind the first of these datagrams, before it is sent.
abbrev called_peer : Peer
called_peer = (server_udp_create services small_peer 1 caller 7 100).1

called_peer-IsDatagram :
    IsDatagram 64
      (handed_datagram services (get_or called_peer.udp 0 no_session) 1 caller (1 ∷ 2 ∷ []))
unfolding server_udp_create server_udp_place index_of is_free count_active next_id new_session
    address_length
called_peer-IsDatagram = record {
  session_u64 = omega arith;
  sequence_u64 = omega arith;
  service_fits = omega arith;
  service_small = omega arith;
  payload_small = omega arith;
  peer_valid = record { known = λ e. omega (arith, e); addr_size = refl; port_u16 = omega arith };
}

abbrev small_client : Client
small_client = record { udp = no_client_session ∷ []; metrics = replicate 37 0 }

abbrev resolve : List ℕ → ℕ → Option Endpoint
resolve address port = some (record { family = 6; addr = replicate 16 0; port = port })

abbrev open_socket : ℕ → Option ℕ
open_socket family = some 9

abbrev delivered : ClientSession → List ℕ → Bool
delivered s payload = s.fd == 9

abbrev at_server : Option (List ℕ)
at_server =
    (server_udp_from_external 64 64 buffer services always small_peer 1 7 100
      (datagram caller (1 ∷ 2 ∷ []))).handed_on

abbrev at_client : Client → (bytes : List ℕ) → (now : ℕ) → Answered
at_client c bytes now =
    client_udp_from_server 64 delivered resolve open_socket (dns ∷ []) 64 c bytes (length bytes) now

datagram_crosses_example :
    (bytes : List ℕ) × (at_server ≡ some bytes)
    × ((at_client small_client bytes 120).handed_on ≡ some (1 ∷ 2 ∷ []))
    × ((get_or (at_client small_client bytes 120).after.udp 0 no_client_session).local
        ≡ record { family = 6; addr = replicate 16 0; port = 53 })
    × ((get_or (at_client small_client bytes 120).after.udp 0 no_client_session).fd ≡ 9)
    × ((at_client (at_client small_client bytes 120).after bytes 130).handed_on ≡ none)
unfolding server_udp_create server_udp_place server_udp_find external_session index_of serves
    is_free count_active next_id new_session address_length client_udp_find session_of
    active_sessions is_unused client_svc bytes_eq
datagram_crosses_example =
    datagram_crosses 64 64 buffer services always delivered resolve open_socket (dns ∷ [])
      small_peer called_peer small_client 1 7 100 0 0 9 120 130 caller
      (record { family = 6; addr = replicate 16 0; port = 53 }) dns (1 ∷ 2 ∷ []) (λ bytes. refl)
      (λ t bytes e f. ground (arith, f)) (omega arith) refl called_peer-IsDatagram (omega arith)
      refl refl refl (omega arith) refl refl refl (omega arith) (omega arith) (omega arith)
