-- ===== src/Sessions/Client/Arrives.antt =====
-- A datagram that reaches the client of src/client/client.c for the first time, and again.
use ctunnel.Prelude.{
  ℕ, ◌<◌, ◌≤◌, ◌≡◌, ◌≢◌, refl, sym, ◌∙◌, ap, subst, Bool, true, false, not, ◌||◌, Option, none,
  some, List, ltb, leb, le→ltb, ◌==◌, get_or, set, length, either_way, arith,
}
use ctunnel.Prelude.Bytes.{bytes_eq}
use ctunnel.Types.{Endpoint, ServiceConfig}
use ctunnel.Datagram.{Datagram, address_length, udp_datagram_unpack}
use ctunnel.Replay.{Window, udp_replay_accept}
use ctunnel.Sessions.{endpoint_equal, index_of}
use ctunnel.Sessions.Client.{
  ClientSession, no_client_session, Client, Answered, client_svc, session_of, client_udp_find,
  active_sessions, is_unused, begun, client_udp_place, client_udp_begin, client_udp_serve,
  client_udp_create, client_deliver, client_accept, client_session, server_datagram,
  client_udp_from_server,
}
use ctunnel.Sessions.Client.First.{
  get_or-set, index_of_bound, index_of-set, set-set, client_svc_lem, endpoint_equal_refl,
  accept_first, accept_again,
}

module _ (window : ℕ) (delivered : ClientSession → List ℕ → Bool)
    (resolve : List ℕ → ℕ → Option Endpoint) (open_socket : ℕ → Option ℕ)
    (services : List ServiceConfig) where
  -- The session that the first datagram begins.
  session_begun :
      (c : Client) (d : Datagram) (now i fd : ℕ) (svc : ServiceConfig) (local : Endpoint)
      → client_udp_find d.session_id c.udp ≡ none
      → client_svc services d.service ≡ some svc
      → svc.kind ≡ 2
      → active_sessions c.udp < svc.udp_max_sessions
      → resolve svc.local_addr svc.local_port ≡ some local
      → open_socket local.family ≡ some fd
      → index_of is_unused c.udp ≡ some i
      → client_session window delivered resolve open_socket services c d now
          (client_udp_find d.session_id c.udp)
        ≡ client_udp_place c (begun d local svc fd now) (some i)
  unfolding client_session client_udp_create client_udp_serve client_udp_begin
  session_begun c d now i fd svc local unknown known udp room found opened free =
      let below : leb svc.udp_max_sessions (active_sessions c.udp) ≡ false = ground (arith, room) in
      rw (unknown, known, udp, below, found, opened, free) refl

  -- Sending by the socket `fd` to the address `local` succeeds; of other places nothing is said.
  abbrev pub DeliversTo : (local : Endpoint) → (fd : ℕ) → Type 0
  DeliversTo local fd =
      (t : ClientSession) (payload : List ℕ)
      → t.local ≡ local
      → t.fd ≡ fd
      → delivered t payload ≡ true

  -- A session that the datagram belongs to hands it on, if its number is new.
  accepted :
      (c : Client) (d : Datagram) (now i : ℕ) (rx : Window)
      → bytes_eq (get_or c.udp i no_client_session).svc.id d.service ≡ true
      → endpoint_equal (get_or c.udp i no_client_session).peer d.peer ≡ true
      → ltb (get_or c.udp i no_client_session).svc.udp_max_datagram_size (length d.payload) ≡ false
      → udp_replay_accept window (get_or c.udp i no_client_session).rx d.sequence ≡ (true, rx)
      → delivered (record (get_or c.udp i no_client_session) { rx = rx; last_ms = now }) d.payload
        ≡ true
      → ((client_accept window delivered d now (some i, c)).handed_on ≡ some d.payload)
        × ((client_accept window delivered d now (some i, c)).after.udp
            ≡ set c.udp i (record (get_or c.udp i no_client_session) { rx = rx; last_ms = now }))
  unfolding client_accept client_deliver
  accepted c d now i rx service peer small fresh ok =
      rw (service, peer, small, fresh, ok) (refl, refl)

  -- A number that was accepted before hands nothing on.
  replayed :
      (c : Client) (d : Datagram) (now i : ℕ)
      → udp_replay_accept window (get_or c.udp i no_client_session).rx d.sequence
        ≡ (false, (get_or c.udp i no_client_session).rx)
      → (client_accept window delivered d now (some i, c)).handed_on ≡ none
  unfolding client_accept client_deliver
  replayed c d now i old = rw old (
      either_way (λ (x : Answered). x.handed_on ≡ none)
        (not (bytes_eq (get_or c.udp i no_client_session).svc.id d.service)
          || not (endpoint_equal (get_or c.udp i no_client_session).peer d.peer))
        refl
        (either_way (λ (x : Answered). x.handed_on ≡ none)
          (ltb (get_or c.udp i no_client_session).svc.udp_max_datagram_size (length d.payload)) refl
          refl))

  handled :
      (max_service_id : ℕ) (c : Client) (bytes : List ℕ) (len now : ℕ) (d : Datagram)
      → udp_datagram_unpack max_service_id bytes len ≡ some d
      → d.direction ≡ 0
      → client_udp_from_server window delivered resolve open_socket services max_service_id c bytes
          len now
        ≡ client_accept window delivered d now (
            client_session window delivered resolve open_socket services c d now
              (client_udp_find d.session_id c.udp))
  unfolding client_udp_from_server server_datagram
  handled max_service_id c bytes len now d read from =
      let to_client : (d.direction == 0) ≡ true = ground (arith, from) in rw (read, to_client) refl

  session_kept :
      (c : Client) (d : Datagram) (now i : ℕ)
      → client_session window delivered resolve open_socket services c d now (some i) ≡ (some i, c)
  unfolding client_session
  session_kept c d now i = refl

  -- The session behind the first datagram.
  abbrev pub taken : Datagram → (local : Endpoint) → ServiceConfig → (fd now : ℕ) → ClientSession
  taken d local svc fd now = record (begun d local svc fd now) {
    rx = record { high = d.sequence; bitmap = 1 };
  }

  taken-session_of :
      (d : Datagram) (local : Endpoint) (svc : ServiceConfig) (fd now : ℕ)
      → session_of d.session_id (taken d local svc fd now) ≡ true
  unfolding session_of begun
  taken-session_of d local svc fd now = ground arith

  begun_accepts :
      (c : Client) (d : Datagram) (now i fd : ℕ) (svc : ServiceConfig) (local : Endpoint)
      → get_or c.udp i no_client_session ≡ begun d local svc fd now
      → bytes_eq svc.id d.service ≡ true
      → address_length d.peer.family ≢ 0
      → length d.payload ≤ svc.udp_max_datagram_size
      → 0 < d.sequence
      → DeliversTo local fd
      → ((client_accept window delivered d now (some i, c)).handed_on ≡ some d.payload)
        × ((client_accept window delivered d now (some i, c)).after.udp
            ≡ set c.udp i (taken d local svc fd now))
  unfolding begun
  begun_accepts c d now i fd svc local here service family small fresh ok =
      let took =
        accepted c d now i (record { high = d.sequence; bitmap = 1 })
          (subst (λ (s : ClientSession). bytes_eq s.svc.id d.service ≡ true) (sym here) service)
          (subst (λ (s : ClientSession). endpoint_equal s.peer d.peer ≡ true) (sym here)
            (endpoint_equal_refl d.peer family))
          (subst (λ (s : ClientSession). ltb s.svc.udp_max_datagram_size (length d.payload) ≡ false)
            (sym here) (le→ltb svc.udp_max_datagram_size (length d.payload) small))
          (subst
            (λ (s : ClientSession).
              udp_replay_accept window s.rx d.sequence
              ≡ (true, record { high = d.sequence; bitmap = 1 }))
            (sym here) (accept_first window d.sequence fresh))
          (ok _ d.payload (ap (λ (s : ClientSession). s.local) here)
            (ap (λ (s : ClientSession). s.fd) here)) in
      (
        took.0,
        took.1
            ∙ ap
                (λ (s : ClientSession).
                  set c.udp i
                    (record s { rx = record { high = d.sequence; bitmap = 1 }; last_ms = now }))
                here,
      )

  again_refused :
      (max_service_id : ℕ) (c : Client) (bytes : List ℕ) (len later i : ℕ) (d : Datagram)
      (udp : List ClientSession) (s : ClientSession)
      → udp_datagram_unpack max_service_id bytes len ≡ some d
      → d.direction ≡ 0
      → c.udp ≡ set udp i s
      → i < length udp
      → client_udp_find d.session_id udp ≡ none
      → session_of d.session_id s ≡ true
      → s.rx ≡ record { high = d.sequence; bitmap = 1 }
      → 0 < d.sequence
      → 0 < window
      → (client_udp_from_server window delivered resolve open_socket services max_service_id c bytes
          len later).handed_on
        ≡ none
  unfolding client_udp_find
  again_refused max_service_id c bytes len later i d udp s read from table bound unknown its rx
        fresh window_open =
      ap (λ (x : Answered). x.handed_on)
        (handled max_service_id c bytes len later d read from
          ∙ ap
              (λ (o : Option ℕ).
                client_accept window delivered d later
                  (client_session window delivered resolve open_socket services c d later o))
              (ap (index_of (session_of d.session_id)) table
                ∙ index_of-set (session_of d.session_id) udp i s unknown bound its)
          ∙ ap (client_accept window delivered d later) (session_kept c d later i))
      ∙ replayed c d later i (
          subst (λ (w : Window). udp_replay_accept window w d.sequence ≡ (false, w))
            (sym (
              ap (λ (xs : List ClientSession). (get_or xs i no_client_session).rx) table
              ∙ ap (λ (t : ClientSession). t.rx) (get_or-set udp i s no_client_session bound)
              ∙ rx))
            (accept_again window d.sequence fresh window_open))

  -- The first datagram of a session, in a frame from the server, begins a session at the client and
  -- is handed to the local service; the same frame, if it arrives again, is not. The service is one
  -- of the configuration's, for UDP, and has room for a session; its address resolves and a socket
  -- opens; a slot is free; the payload is within the service's size; sending by that socket to that
  -- address succeeds; and the window and the sequence number are not 0.
  pub arrives_once :
      (max_service_id : ℕ) (c : Client) (bytes : List ℕ) (len now later i fd : ℕ) (d : Datagram)
      (svc : ServiceConfig) (local : Endpoint)
      → udp_datagram_unpack max_service_id bytes len ≡ some d
      → d.direction ≡ 0
      → client_udp_find d.session_id c.udp ≡ none
      → client_svc services d.service ≡ some svc
      → svc.kind ≡ 2
      → active_sessions c.udp < svc.udp_max_sessions
      → resolve svc.local_addr svc.local_port ≡ some local
      → open_socket local.family ≡ some fd
      → index_of is_unused c.udp ≡ some i
      → address_length d.peer.family ≢ 0
      → length d.payload ≤ svc.udp_max_datagram_size
      → 0 < d.sequence
      → 0 < window
      → DeliversTo local fd
      → let first =
          client_udp_from_server window delivered resolve open_socket services max_service_id c
            bytes len now in
        (first.handed_on ≡ some d.payload)
        × (get_or first.after.udp i no_client_session ≡ taken d local svc fd now)
        × ((client_udp_from_server window delivered resolve open_socket services max_service_id
              first.after bytes len later).handed_on
            ≡ none)
  unfolding client_udp_place
  arrives_once max_service_id c bytes len now later i fd d svc local read from unknown known udp
        room found opened free family small fresh window_open ok =
      let bound = index_of_bound is_unused c.udp i free in
      let first =
        handled max_service_id c bytes len now d read from
        ∙ ap (client_accept window delivered d now)
            (session_begun c d now i fd svc local unknown known udp room found opened free) in
      let took =
        begun_accepts _ d now i fd svc local
          (get_or-set c.udp i (begun d local svc fd now) no_client_session bound)
          (client_svc_lem services d.service svc known) family small fresh ok in
      let table =
        ap (λ (x : Answered). x.after.udp) first
        ∙ took.1
        ∙ set-set c.udp i (begun d local svc fd now) (taken d local svc fd now) in
      (
        ap (λ (x : Answered). x.handed_on) first ∙ took.0,
        ap (λ (udp : List ClientSession). get_or udp i no_client_session) table
            ∙ get_or-set c.udp i (taken d local svc fd now) no_client_session bound,
        again_refused max_service_id _ bytes len later i d c.udp (taken d local svc fd now) read
            from table bound unknown (taken-session_of d local svc fd now) refl fresh window_open,
      )
