-- ===== src/Sessions/Frames.antt =====
-- The frames of the UDP sessions of src/server/server.c against those of src/net/net.c.
use ctunnel.Prelude.{
  ℕ, ◌+◌, ◌%◌, ◌^◌, ◌≤◌, ◌≡◌, refl, sym, ◌∙◌, subst, Bool, true, some, List, ltb, length,
  length-take, le→ltb, take, get_or, arith, Bool-cases, inl, inr,
}
use ctunnel.Types.{Endpoint, ServiceConfig}
use ctunnel.Datagram.{
  Datagram, udp_datagram_pack, udp_datagram_unpack, udp_datagram_head, udp_datagram_payload,
}
use ctunnel.Datagram.RoundTrip.{IsDatagram, datagram_size, udp_datagram_round_trip}
use ctunnel.Datagram.Endpoints.{canonical}
use ctunnel.Sessions.{
  Session, no_session, Peer, datagram, udp_pack, udp_unpack, forward, server_udp_find,
  external_session, external_with, touch_sent, server_udp_from_external,
}

udp_pack_lem :
    (max_service_id : ℕ) (out : List ℕ) (cap off : ℕ) (d : Datagram)
    → udp_pack max_service_id out cap off d.direction d.session_id d.sequence d.service d.peer
        d.payload
      ≡ udp_datagram_pack max_service_id out cap off d
unfolding udp_pack udp_datagram_pack udp_datagram_head udp_datagram_payload
udp_pack_lem max_service_id out cap off d = elim (Bool-cases (ltb 65535 (length d.payload))) [
  | inl e ↦ rw e refl
  | inr e ↦ rw e refl
]

pub udp_unpack_lem :
    (max_service_id : ℕ) (input : List ℕ) (len : ℕ)
    → udp_unpack max_service_id input len ≡ udp_datagram_unpack max_service_id input len
unfolding udp_unpack udp_datagram_unpack
udp_unpack_lem max_service_id input len = refl

-- The datagram that a session hands to the client.
abbrev pub handed_datagram :
    (cfg : ℕ → ServiceConfig) → Session → (svc : ℕ) → Endpoint → (payload : List ℕ) → Datagram
handed_datagram cfg s svc peer payload = record {
  direction = 0;
  session_id = s.id;
  sequence = (s.tx_seq + 1) % 2 ^ 64;
  service = (cfg svc).id;
  peer = peer;
  payload = payload;
}

module _ (max_service_id window : ℕ) (frame : List ℕ) (cfg : ℕ → ServiceConfig) where
  -- A datagram from outside for which there is a session, found or new, is handed to the client in a
  -- frame, which `ct_udp_datagram_unpack` at the client's end reads as the datagram, with the
  -- session's id, its next sequence number and the service's id. The datagram fits the service and
  -- the frame, and the control connection takes it.
  pub external_reaches :
      (sent : List ℕ → Bool) (p q : Peer) (svc listener now i : ℕ) (peer : Endpoint)
      (payload : List ℕ)
      → ((bytes : List ℕ) → sent bytes ≡ true)
      → length payload ≤ (cfg svc).udp_max_datagram_size
      → external_session max_service_id window frame cfg p svc peer listener now
          (server_udp_find svc peer p.udp)
        ≡ (some i, q)
      → IsDatagram max_service_id (handed_datagram cfg (get_or q.udp i no_session) svc peer payload)
      → datagram_size (handed_datagram cfg (get_or q.udp i no_session) svc peer payload)
        ≤ length frame
      → (bytes : List ℕ) × ((server_udp_from_external max_service_id window frame cfg sent p svc
            listener now
            (datagram peer payload)).handed_on
          ≡ some bytes)
        × (udp_datagram_unpack max_service_id bytes (length bytes)
            ≡ some (record (handed_datagram cfg (get_or q.udp i no_session) svc peer payload) {
              peer = canonical peer;
            }))
  unfolding server_udp_from_external external_with touch_sent forward
  external_reaches sent p q svc listener now i peer payload ok small e v room =
      let d = handed_datagram cfg (get_or q.udp i no_session) svc peer payload in
      let (out, packed, size, used, back) = udp_datagram_round_trip max_service_id d frame v room in
      (
        take out.1 out.0,
        rw
            (
              le→ltb (cfg svc).udp_max_datagram_size (length payload) small,
              e,
              udp_pack_lem max_service_id frame (length frame) 0 d ∙ packed,
              ok (take out.1 out.0),
            )
            refl,
        subst
            (λ (n : ℕ).
              udp_datagram_unpack max_service_id (take out.1 out.0) n
              ≡ some (record d { peer = canonical peer }))
            (sym (omega (arith, length-take out.1 out.0, size, used, room))) back,
      )
