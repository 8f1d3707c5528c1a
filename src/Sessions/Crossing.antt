-- ===== src/Sessions/Crossing.antt =====
-- A datagram from outside on its way through src/server/server.c and src/client/client.c.
use ctunnel.Prelude.{
  ℕ, ◌+◌, ◌%◌, ◌^◌, ◌<◌, ◌≤◌, ◌≡◌, refl, ap, Bool, true, Option, none, some, List, length, get_or,
}
use ctunnel.Types.{Endpoint, ServiceConfig}
use ctunnel.Datagram.Endpoints.{canonical}
use ctunnel.Datagram.RoundTrip.{IsDatagram, datagram_size}
use ctunnel.Sessions.{
  no_session, Peer, datagram, index_of, server_udp_find, external_session, server_udp_from_external,
}
use ctunnel.Sessions.Frames.{handed_datagram, external_reaches}
use ctunnel.Sessions.Client.{
  ClientSession, no_client_session, Client, Answered, client_svc, client_udp_find, active_sessions,
  is_unused, client_udp_from_server, begun,
}
use ctunnel.Sessions.Client.Arrives.{arrives_once}

-- The server's end, the client's end, and what the sockets of both do.
module _ (max_service_id window : ℕ) (frame : List ℕ) (cfg : ℕ → ServiceConfig)
    (sent : List ℕ → Bool) (delivered : ClientSession → List ℕ → Bool)
    (resolve : List ℕ → ℕ → Option Endpoint) (open_socket : ℕ → Option ℕ)
    (services : List ServiceConfig) where
  -- The handlers of the two ends.
  abbrev outside : Peer → (svc listener now : ℕ) → Endpoint → (payload : List ℕ) → Option (List ℕ)
  outside p svc listener now peer payload =
      (server_udp_from_external max_service_id window frame cfg sent p svc listener now
        (datagram peer payload)).handed_on

  abbrev inside : Client → (bytes : List ℕ) → (now : ℕ) → Answered
  inside c bytes now =
      client_udp_from_server window delivered resolve open_socket services max_service_id c bytes
        (length bytes) now

  -- A datagram from outside for which the server finds or makes a session leaves the server as a
  -- frame; the client makes a session of it, in the free slot, for the address that the local
  -- service's resolves to and the socket that was opened, and sends the same payload there, and does
  -- so once: the frame, if it comes again, is dropped. The fields fit the frame, and the payload the
  -- sizes of both ends; the client has no session of that id; the service is one of both ends, for
  -- UDP, with room and a free slot at the client, where the local address resolves and a socket
  -- opens; the window and the sequence number are not 0; and sending succeeds at the server's end and, at the client's, by that socket to that
  -- address. Of sending elsewhere nothing is assumed.
  pub datagram_crosses :
      (p q : Peer) (c : Client) (svc listener now i j fd arrival later : ℕ) (peer local : Endpoint)
      (service : ServiceConfig) (payload : List ℕ)
      → ((bytes : List ℕ) → sent bytes ≡ true)
      → ((t : ClientSession) (bytes : List ℕ)
          → t.local ≡ local
          → t.fd ≡ fd
          → delivered t bytes ≡ true)
      → length payload ≤ (cfg svc).udp_max_datagram_size
      → external_session max_service_id window frame cfg p svc peer listener now
          (server_udp_find svc peer p.udp)
        ≡ (some i, q)
      → IsDatagram max_service_id (handed_datagram cfg (get_or q.udp i no_session) svc peer payload)
      → datagram_size (handed_datagram cfg (get_or q.udp i no_session) svc peer payload)
        ≤ length frame
      → client_udp_find (get_or q.udp i no_session).id c.udp ≡ none
      → client_svc services (cfg svc).id ≡ some service
      → service.kind ≡ 2
      → active_sessions c.udp < service.udp_max_sessions
      → resolve service.local_addr service.local_port ≡ some local
      → open_socket local.family ≡ some fd
      → index_of is_unused c.udp ≡ some j
      → length payload ≤ service.udp_max_datagram_size
      → 0 < ((get_or q.udp i no_session).tx_seq + 1) % 2 ^ 64
      → 0 < window
      → (bytes : List ℕ) × (outside p svc listener now peer payload ≡ some bytes)
        × ((inside c bytes arrival).handed_on ≡ some payload)
        × ((get_or (inside c bytes arrival).after.udp j no_client_session).local ≡ local)
        × ((get_or (inside c bytes arrival).after.udp j no_client_session).fd ≡ fd)
        × ((inside (inside c bytes arrival).after bytes later).handed_on ≡ none)
  unfolding begun
  datagram_crosses p q c svc listener now i j fd arrival later peer local service payload sent_ok
        delivered_ok small session valid room unknown known udp space found opened free fits fresh
        window_open =
      let (bytes, leaves, reads) =
        external_reaches max_service_id window frame cfg sent p q svc listener now i peer payload
          sent_ok small session valid room in
      let arrives =
        arrives_once window delivered resolve open_socket services max_service_id c bytes
          (length bytes) arrival later j fd
          (record (handed_datagram cfg (get_or q.udp i no_session) svc peer payload) {
            peer = canonical peer;
          })
          service local reads refl unknown known udp space found opened free valid.peer_valid.known
          fits fresh window_open delivered_ok in
      (
        bytes,
        leaves,
        arrives.0,
        ap (λ (t : ClientSession). t.local) arrives.1,
        ap (λ (t : ClientSession). t.fd) arrives.1,
        arrives.2,
      )
