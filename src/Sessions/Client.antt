-- ===== src/Sessions/Client.antt =====
-- src/client/client.c: the UDP sessions at the client's end. The configuration does not change, so a
-- pointer to a service is the service.
pub mod First
pub mod Arrives
use ctunnel.Prelude.{
  ℕ, zero, suc, ◌+◌, ◌-◌, ◌*◌, ◌%◌, ◌^◌, Bool, true, false, not, ◌&&◌, ◌||◌, Option, none, some,
  ◌>>=◌, List, [], ◌∷◌, ltb, leb, ◌==◌, if◌then◌else◌, get_or, set, length, take, replicate,
}
use ctunnel.Prelude.Bytes.{bytes_eq}
use ctunnel.Types.{Endpoint, ServiceConfig}
use ctunnel.Datagram.{Datagram, udp_datagram_pack, udp_datagram_unpack}
use ctunnel.Replay.{Window, udp_replay_accept}
use ctunnel.Metrics.{Metrics, metric_inc, metric_dec, metric_add}
use ctunnel.Sessions.{
  udp_sessions_active, udp_sessions_created_total, udp_sessions_expired_total,
  udp_sessions_rejected_total, udp_datagrams_c2s_total, udp_datagrams_s2c_total,
  udp_bytes_c2s_total, udp_bytes_s2c_total, udp_datagrams_dropped_total,
  udp_datagrams_oversized_total, udp_replay_dropped_total, udp_local_send_failures_total,
  endpoint_equal, index_of, Arrival, receive_failed, nothing_there, datagram,
}

abbrev pub no_service : ServiceConfig
no_service = record {
  id = [];
  remote_addr = [];
  local_addr = [];
  remote_port = 0;
  local_port = 0;
  encryption = 0;
  kind = 0;
  proxy_protocol = 0;
  udp_idle_timeout = 0;
  udp_reply_timeout = 0;
  udp_max_sessions = 0;
  udp_max_datagram_size = 0;
  udp_options_seen = 0;
}

-- `client_udp_session`; `rx` is `rx_high` with `rx_bitmap`.
pub record ClientSession : Type 0 where
  pub active : Bool
  pub id : ℕ
  pub tx_seq : ℕ
  pub rx : Window
  pub last_ms : ℕ
  pub peer : Endpoint
  pub local : Endpoint
  pub svc : ServiceConfig
  pub fd : ℕ

abbrev pub no_endpoint : Endpoint
no_endpoint = record { family = 0; addr = replicate 16 0; port = 0 }

-- What a session is after `memset`; nothing reads the service of a session that is not active.
abbrev pub no_client_session : ClientSession
no_client_session = record {
  active = false;
  id = 0;
  tx_seq = 0;
  rx = record { high = 0; bitmap = 0 };
  last_ms = 0;
  peer = no_endpoint;
  local = no_endpoint;
  svc = no_service;
  fd = 0;
}

-- The table of sessions and the counters.
pub record Client : Type 0 where
  pub udp : List ClientSession
  pub metrics : Metrics

abbrev pub tally : (id : ℕ) → Client → Client
tally id c = record c { metrics = metric_inc id c.metrics }

unfoldable pub client_svc : List ServiceConfig → (id : List ℕ) → Option ServiceConfig
client_svc [] id = none
client_svc (s ∷ services) id =
    let found = client_svc services id in if bytes_eq s.id id then some s else found

unfoldable pub session_of : (id : ℕ) → ClientSession → Bool
session_of id s = s.active && s.id == id

unfoldable pub client_udp_find : (id : ℕ) → List ClientSession → Option ℕ
client_udp_find id udp = index_of (session_of id) udp

unfoldable pub active_sessions : List ClientSession → ℕ
active_sessions [] = 0
active_sessions (s ∷ udp) = let n = active_sessions udp in if s.active then n + 1 else n

unfoldable pub is_unused : ClientSession → Bool
is_unused s = not s.active

-- The session that is written into a free slot.
unfoldable pub begun : Datagram → (local : Endpoint) → ServiceConfig → (fd now : ℕ) → ClientSession
begun d local svc fd now = record no_client_session {
  active = true;
  id = d.session_id;
  peer = d.peer;
  local = local;
  svc = svc;
  fd = fd;
  last_ms = now;
}

-- By the first slot that is free; the socket is closed where there is none.
unfoldable pub client_udp_place : Client → ClientSession → Option ℕ → Option ℕ × Client
client_udp_place c s none = (none, c)
client_udp_place c s (some i) = (
  some i,
  record {
    udp = set c.udp i s;
    metrics = metric_inc udp_sessions_created_total (metric_inc udp_sessions_active c.metrics);
  },
)

-- `resolve` is `ct_udp_endpoint_from_host`, and `open_socket` is `ct_udp_open`.
module _ (resolve : List ℕ → ℕ → Option Endpoint) (open_socket : ℕ → Option ℕ) where
  -- By the service and by the endpoint and the socket for it.
  unfoldable pub client_udp_begin :
      Client → Datagram → (now : ℕ) → ServiceConfig → Option (Endpoint × ℕ) → Option ℕ × Client
  client_udp_begin c d now svc none = (none, c)
  client_udp_begin c d now svc (some (local, fd)) =
      client_udp_place c (begun d local svc fd now) (index_of is_unused c.udp)

  unfoldable pub client_udp_serve :
      Client → Datagram → (now : ℕ) → Option ServiceConfig → Option ℕ × Client
  client_udp_serve c d now none = (none, c)
  client_udp_serve c d now (some svc) =
      if not (svc.kind == 2)
      then (none, c)
      else if leb svc.udp_max_sessions (active_sessions c.udp)
      then (none, tally udp_sessions_rejected_total c)
      else client_udp_begin c d now svc (
          resolve svc.local_addr svc.local_port >>= λ local.
          open_socket local.family >>= λ fd. some (local, fd))

  unfoldable pub client_udp_create :
      List ServiceConfig → Client → Datagram → (now : ℕ) → Option ℕ × Client
  client_udp_create services c d now = client_udp_serve c d now (client_svc services d.service)

-- What a handler leaves: its return value, -1 as false, the datagram for the local service or the
-- frame for the server that it hands on, and the state.
pub record Answered : Type 0 where
  pub success : Bool
  pub handed_on : Option (List ℕ)
  pub after : Client

abbrev pub refuses : (success : Bool) → Client → Answered
refuses success c = record { success = success; handed_on = none; after = c }

-- `delivered` tells whether `ct_udp_send` returns 0 or more.
module _ (window : ℕ) (delivered : ClientSession → List ℕ → Bool) where
  -- Behind the window.
  unfoldable pub client_deliver :
      Client → (i now : ℕ) → (payload : List ℕ) → Bool × Window → Answered
  client_deliver c i now payload (false, rx) = refuses true (tally udp_replay_dropped_total c)
  client_deliver c i now payload (true, rx) =
      let s = record (get_or c.udp i no_client_session) { rx = rx; last_ms = now } in
      let d = record c { udp = set c.udp i s } in
      if not (delivered s payload)
      then refuses false (tally udp_local_send_failures_total d)
      else record {
        success = true;
        handed_on = some payload;
        after = record d {
          metrics =
              metric_add udp_bytes_c2s_total (length payload)
                (metric_inc udp_datagrams_c2s_total c.metrics);
        };
      }

  -- Behind the choice of the session.
  unfoldable pub client_accept : Datagram → (now : ℕ) → Option ℕ × Client → Answered
  client_accept d now (none, c) = refuses true (tally udp_datagrams_dropped_total c)
  client_accept d now (some i, c) =
      let s = get_or c.udp i no_client_session in
      if not (bytes_eq s.svc.id d.service) || not (endpoint_equal s.peer d.peer)
      then refuses true (tally udp_datagrams_dropped_total c)
      else if ltb s.svc.udp_max_datagram_size (length d.payload)
      then refuses true (tally udp_datagrams_dropped_total (tally udp_datagrams_oversized_total c))
      else client_deliver c i now d.payload (udp_replay_accept window s.rx d.sequence)

  module _ (resolve : List ℕ → ℕ → Option Endpoint) (open_socket : ℕ → Option ℕ)
      (services : List ServiceConfig) where
    unfoldable pub client_session : Client → Datagram → (now : ℕ) → Option ℕ → Option ℕ × Client
    client_session c d now (some i) = (some i, c)
    client_session c d now none = client_udp_create resolve open_socket services c d now

    unfoldable pub server_datagram : Client → (now : ℕ) → Option Datagram → Answered
    server_datagram c now none = refuses false (tally udp_datagrams_dropped_total c)
    server_datagram c now (some d) =
        if not (d.direction == 0)
        then refuses false (tally udp_datagrams_dropped_total c)
        else client_accept d now (client_session c d now (client_udp_find d.session_id c.udp))

    unfoldable pub client_udp_from_server :
        (max_service_id : ℕ) → Client → (payload : List ℕ) → (len now : ℕ) → Answered
    client_udp_from_server max_service_id c payload len now =
        server_datagram c now (udp_datagram_unpack max_service_id payload len)

-- What `ct_control_send` makes of a frame that was packed.
unfoldable pub reply_sent :
    (sent : List ℕ → Bool) → Client → (size : ℕ) → Option (List ℕ × ℕ) → Answered
reply_sent sent c size none = refuses false (tally udp_datagrams_dropped_total c)
reply_sent sent c size (some (frame, n)) =
    if not (sent (take n frame))
    then refuses false (tally udp_datagrams_dropped_total c)
    else record {
      success = true;
      handed_on = some (take n frame);
      after = record c {
        metrics =
            metric_add udp_bytes_s2c_total size (metric_inc udp_datagrams_s2c_total c.metrics);
      };
    }

-- `i` is the session's index, and `frame` the buffer as it is found. The service's id fits the array
-- that snprintf copies it to.
unfoldable pub client_udp_from_local :
    (max_service_id : ℕ)
    → (frame : List ℕ) → (sent : List ℕ → Bool) → Client
    → (i now : ℕ) → Arrival
    → Answered
client_udp_from_local max_service_id frame sent c i now receive_failed = refuses false c
client_udp_from_local max_service_id frame sent c i now nothing_there = refuses true c
client_udp_from_local max_service_id frame sent c i now (datagram source payload) =
    let s = get_or c.udp i no_client_session in
    let t = record s { last_ms = now; tx_seq = (s.tx_seq + 1) % 2 ^ 64 } in
    if ltb s.svc.udp_max_datagram_size (length payload)
    then refuses true (tally udp_datagrams_dropped_total (tally udp_datagrams_oversized_total c))
    else reply_sent sent (record c { udp = set c.udp i t }) (length payload)
        (udp_datagram_pack max_service_id frame (length frame) 0 (record {
          direction = 1;
          session_id = s.id;
          sequence = t.tx_seq;
          service = take max_service_id s.svc.id;
          peer = s.peer;
          payload = payload;
        }))

unfoldable pub client_udp_close :
    ClientSession → (expired : Bool) → Metrics → ClientSession × Metrics
client_udp_close s expired m = if not s.active then (s, m) else (
  no_client_session,
  if expired
      then metric_inc udp_sessions_expired_total (metric_dec udp_sessions_active m)
      else metric_dec udp_sessions_active m,
)

unfoldable pub client_idle : (now : ℕ) → ClientSession → Bool
client_idle now s =
    s.active && ltb (s.svc.udp_idle_timeout * 1000) ((now + 2 ^ 64 - s.last_ms) % 2 ^ 64)

-- The loop of `client_udp_expire`.
unfoldable pub client_udp_expire :
    (now : ℕ) → List ClientSession → Metrics → List ClientSession × Metrics
client_udp_expire now [] m = ([], m)
client_udp_expire now (s ∷ udp) m =
    let (t, m₁) = if client_idle now s then client_udp_close s true m else (s, m) in
    let (rest, m₂) = client_udp_expire now udp m₁ in (t ∷ rest, m₂)
