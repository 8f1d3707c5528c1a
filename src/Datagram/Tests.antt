-- ===== src/Datagram/Tests.antt =====
-- A datagram of an IPv4 peer.
use ctunnel.Prelude.{ℕ, ◌≡◌, refl, some, List, [], ◌∷◌, length, take, replicate, arith}
use ctunnel.Datagram.{Datagram, address_length, udp_datagram_pack, udp_datagram_unpack}
use ctunnel.Datagram.Endpoints.{canonical}
use ctunnel.Datagram.RoundTrip.{IsDatagram, datagram_size, udp_datagram_round_trip}

abbrev query : Datagram
query = record {
  direction = 1;
  session_id = 77;
  sequence = 3;
  service = 0x64 ∷ 0x6e ∷ 0x73 ∷ [];
  peer = record {
    family = 4;
    addr = 192 ∷ 0 ∷ 2 ∷ 1 ∷ 9 ∷ 9 ∷ 9 ∷ 9 ∷ 9 ∷ 9 ∷ 9 ∷ 9 ∷ 9 ∷ 9 ∷ 9 ∷ 9 ∷ [];
    port = 5353;
  };
  payload = 1 ∷ 2 ∷ 3 ∷ [];
}

query-IsDatagram : IsDatagram 64 query
unfolding address_length
query-IsDatagram = record {
  session_u64 = omega arith;
  sequence_u64 = omega arith;
  service_fits = omega arith;
  service_small = omega arith;
  payload_small = omega arith;
  peer_valid = record { known = λ e. omega (arith, e); addr_size = refl; port_u16 = omega arith };
}

abbrev buffer : List ℕ
buffer = replicate 40 0

udp_datagram_round_trip_example :
    (out : List ℕ × ℕ) × (udp_datagram_pack 64 buffer (length buffer) 0 query ≡ some out)
    × (length out.0 ≡ length buffer)
    × (out.1 ≡ datagram_size query)
    × (udp_datagram_unpack 64 (take out.1 out.0) out.1
        ≡ some (record query { peer = canonical query.peer }))
unfolding address_length
udp_datagram_round_trip_example =
    udp_datagram_round_trip 64 query buffer query-IsDatagram (omega arith)
