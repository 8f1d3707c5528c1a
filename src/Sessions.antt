-- ===== src/Sessions.antt =====
-- src/server/server.c: the UDP sessions of a client that is connected to the server. A socket, and a
-- pointer to a service, is a number; `cfg` gives the configuration behind such a pointer.
pub mod Client
pub mod Crossing
pub mod Frames
pub mod Apart
pub mod Table
pub mod Steps
mod Tests
use ctunnel.Prelude.{
  ℕ, zero, suc, ◌+◌, ◌-◌, ◌*◌, ◌%◌, ◌^◌, Bool, true, false, not, ◌&&◌, ◌||◌, Option, none, some,
  ◌>>=◌, ◌>>◌, guard, List, [], ◌∷◌, ltb, leb, ◌==◌, if◌then◌else◌, get_or, set, length, take, drop,
  replicate, blit,
}
use ctunnel.Prelude.Bytes.{bytes_eq}
use ctunnel.Types.{Endpoint, ServiceConfig}
use ctunnel.Wire.Ints.{put_u16, put_u64, get_u16, get_u64, at}
use ctunnel.Wire.Text.{pack_string, unpack_string}
use ctunnel.Datagram.{
  Datagram, address_length, udp_endpoint_encode, udp_endpoint_decode, udp_datagram_head,
  udp_datagram_payload,
}
use ctunnel.Replay.{Window, udp_replay_accept}
use ctunnel.Metrics.{Metrics, metric_inc, metric_dec, metric_add}

abbrev pub udp_sessions_active : ℕ
udp_sessions_active = 18

abbrev pub udp_sessions_created_total : ℕ
udp_sessions_created_total = 19

abbrev pub udp_sessions_expired_total : ℕ
udp_sessions_expired_total = 20

abbrev pub udp_sessions_rejected_total : ℕ
udp_sessions_rejected_total = 21

abbrev pub udp_datagrams_c2s_total : ℕ
udp_datagrams_c2s_total = 22

abbrev pub udp_datagrams_s2c_total : ℕ
udp_datagrams_s2c_total = 23

abbrev pub udp_bytes_c2s_total : ℕ
udp_bytes_c2s_total = 24

abbrev pub udp_bytes_s2c_total : ℕ
udp_bytes_s2c_total = 25

abbrev pub udp_datagrams_dropped_total : ℕ
udp_datagrams_dropped_total = 26

abbrev pub udp_datagrams_oversized_total : ℕ
udp_datagrams_oversized_total = 27

abbrev pub udp_replay_dropped_total : ℕ
udp_replay_dropped_total = 28

abbrev pub udp_local_send_failures_total : ℕ
udp_local_send_failures_total = 30

-- `server_udp_session`; `rx` is `rx_high` with `rx_bitmap`.
pub record Session : Type 0 where
  pub active : Bool
  pub id : ℕ
  pub tx_seq : ℕ
  pub rx : Window
  pub last_ms : ℕ
  pub peer : Endpoint
  pub svc : ℕ
  pub listener : ℕ

-- What a session is after `memset`.
abbrev pub no_session : Session
no_session = record {
  active = false;
  id = 0;
  tx_seq = 0;
  rx = record { high = 0; bitmap = 0 };
  last_ms = 0;
  peer = record { family = 0; addr = replicate 16 0; port = 0 };
  svc = 0;
  listener = 0;
}

-- The fields of `server_peer` that the sessions use, and the counters.
pub record Peer : Type 0 where
  pub udp : List Session
  pub next_stream : ℕ
  pub metrics : Metrics

abbrev pub count : (id : ℕ) → Peer → Peer
count id p = record p { metrics = metric_inc id p.metrics }

unfoldable pub endpoint_equal : (a b : Endpoint) → Bool
endpoint_equal a b =
    let n = address_length a.family in
    not (n == 0)
    && a.family == b.family
    && a.port == b.port
    && bytes_eq (take n a.addr) (take n b.addr)

-- Whether a session is of a service and an endpoint outside.
unfoldable pub serves : (svc : ℕ) → (peer : Endpoint) → Session → Bool
serves svc peer s = s.active && s.svc == svc && endpoint_equal s.peer peer

unfoldable pub has_id : (id : ℕ) → Session → Bool
has_id id s = s.active && s.id == id

-- The index of the first entry that passes a test.
unfoldable pub index_of : {A : Type 0} → (A → Bool) → List A → Option ℕ
index_of test [] = none
index_of test (s ∷ udp) =
    if test s then some 0 else elim (index_of test udp) [ none ↦ none | some i ↦ some (suc i) ]

unfoldable pub server_udp_find : (svc : ℕ) → (peer : Endpoint) → List Session → Option ℕ
server_udp_find svc peer udp = index_of (serves svc peer) udp

unfoldable pub server_udp_find_id : (id : ℕ) → List Session → Option ℕ
server_udp_find_id id udp = index_of (has_id id) udp

unfoldable pub count_active : List Session → ℕ
count_active [] = 0
count_active (s ∷ udp) = let n = count_active udp in if s.active then n + 1 else n

-- `++p->next_stream`, and once more if that is 0.
unfoldable pub next_id : (next_stream : ℕ) → ℕ
next_id n = if (n + 1) % 2 ^ 64 == 0 then 1 else (n + 1) % 2 ^ 64

-- The session that is written into a free slot.
unfoldable pub new_session : (id svc : ℕ) → (peer : Endpoint) → (listener now : ℕ) → Session
new_session id svc peer listener now = record no_session {
  active = true;
  id = id;
  peer = peer;
  svc = svc;
  listener = listener;
  last_ms = now;
}

-- By the first slot that is free.
unfoldable pub server_udp_place :
    Peer → (svc : ℕ) → (peer : Endpoint) → (listener now : ℕ) → Option ℕ → Option ℕ × Peer
server_udp_place p svc peer listener now none = (none, count udp_sessions_rejected_total p)
server_udp_place p svc peer listener now (some i) = (
  some i,
  record {
    udp = set p.udp i (new_session (next_id p.next_stream) svc peer listener now);
    next_stream = next_id p.next_stream;
    metrics = metric_inc udp_sessions_created_total (metric_inc udp_sessions_active p.metrics);
  },
)

unfoldable pub is_free : Session → Bool
is_free s = not s.active

module _ (cfg : ℕ → ServiceConfig) where
  unfoldable pub server_udp_create :
      Peer → (svc : ℕ) → (peer : Endpoint) → (listener now : ℕ) → Option ℕ × Peer
  server_udp_create p svc peer listener now =
      if leb (cfg svc).udp_max_sessions (count_active p.udp)
      then (none, count udp_sessions_rejected_total p)
      else server_udp_place p svc peer listener now (index_of is_free p.udp)

-- The server's own copy of `ct_udp_datagram_pack`.
unfoldable pub udp_pack :
    (max_service_id : ℕ)
    → (out : List ℕ) → (cap off direction id seq : ℕ) → (service : List ℕ) → (peer : Endpoint)
    → (payload : List ℕ) → Option (List ℕ × ℕ)
udp_pack max_service_id out cap off direction id seq service peer payload = do
  guard (not (ltb 65535 (length payload)))
  guard (not (ltb cap 17))
  let b₁ = set out off direction
  let b₂ = at (off + 1) (λ q. put_u64 q id) b₁
  let b₃ = at (off + 9) (λ q. put_u64 q seq) b₂
  (b₄, o₄) ← pack_string b₃ cap (off + 17) service max_service_id
  (b₅, o₅) ← udp_endpoint_encode b₄ cap o₄ peer
  guard (not (ltb (cap - o₅) (2 + length payload)))
  let b₆ = at o₅ (λ q. put_u16 q (length payload % 2 ^ 16)) b₅
  some (blit (o₅ + 2) payload b₆, o₅ + (2 + length payload))

-- The server's own copy of `ct_udp_datagram_unpack`.
unfoldable pub udp_unpack : (max_service_id : ℕ) → List ℕ → (len : ℕ) → Option Datagram
udp_unpack max_service_id input len = do
  guard (not (ltb len 17))
  (service, o₁) ← unpack_string input len 17 (max_service_id + 1)
  (peer, o₂) ← udp_endpoint_decode input len o₁
  guard (not (ltb (len - o₂) 2))
  guard (len - (o₂ + 2) == get_u16 (drop o₂ input))
  some (record {
    direction = get_or input 0 0;
    session_id = get_u64 (drop 1 input);
    sequence = get_u64 (drop 9 input);
    service = service;
    peer = peer;
    payload = take (get_u16 (drop o₂ input)) (drop (o₂ + 2) input);
  })

-- What `ct_udp_recv` answers.
pub data Arrival : Type 0 where
  receive_failed nothing_there : Arrival
  datagram : (peer : Endpoint) → (payload : List ℕ) → Arrival

-- What a handler leaves: its return value, -1 as false, the frame for the client or the datagram for
-- the peer outside that it hands on, and the state.
pub record Handled : Type 0 where
  pub success : Bool
  pub handed_on : Option (List ℕ)
  pub after : Peer

abbrev pub drops : (success : Bool) → Peer → Handled
drops success p = record { success = success; handed_on = none; after = p }

-- A change of the session at an index.
abbrev pub with_session : Peer → (i : ℕ) → Session → Peer
with_session p i s = record p { udp = set p.udp i s }

-- What `ct_control_send` makes of a frame that was packed; `sent` tells whether it succeeds.
unfoldable pub forward : (sent : List ℕ → Bool) → Peer → (size : ℕ) → Option (List ℕ × ℕ) → Handled
forward sent p size none = drops false (count udp_datagrams_dropped_total p)
forward sent p size (some (frame, n)) =
    if not (sent (take n frame))
    then drops false (count udp_datagrams_dropped_total p)
    else record {
      success = true;
      handed_on = some (take n frame);
      after = record p {
        metrics =
            metric_add udp_bytes_c2s_total size (metric_inc udp_datagrams_c2s_total p.metrics);
      };
    }

-- `frame` is the buffer of `server_udp_from_external` as it is found.
module _ (max_service_id window : ℕ) (frame : List ℕ) (cfg : ℕ → ServiceConfig) where
  -- The session found or created for a datagram from outside.
  unfoldable pub external_session :
      Peer → (svc : ℕ) → (peer : Endpoint) → (listener now : ℕ) → Option ℕ → Option ℕ × Peer
  external_session p svc peer listener now (some i) = (some i, p)
  external_session p svc peer listener now none = server_udp_create cfg p svc peer listener now

  unfoldable pub touch_sent : (now : ℕ) → Session → Session
  touch_sent now s = record s { last_ms = now; tx_seq = (s.tx_seq + 1) % 2 ^ 64 }

  -- Behind the choice of the session.
  unfoldable pub external_with :
      (sent : List ℕ → Bool)
      → (svc : ℕ) → (peer : Endpoint) → (payload : List ℕ) → (now : ℕ) → Option ℕ × Peer
      → Handled
  external_with sent svc peer payload now (none, p) =
      drops true (count udp_datagrams_dropped_total p)
  external_with sent svc peer payload now (some i, p) =
      let s = touch_sent now (get_or p.udp i no_session) in
      forward sent (with_session p i s) (length payload)
        (udp_pack max_service_id frame (length frame) 0 0 s.id s.tx_seq (cfg svc).id peer payload)

  unfoldable pub server_udp_from_external :
      (sent : List ℕ → Bool) → Peer → (svc listener now : ℕ) → Arrival → Handled
  server_udp_from_external sent p svc listener now receive_failed = drops false p
  server_udp_from_external sent p svc listener now nothing_there = drops true p
  server_udp_from_external sent p svc listener now (datagram peer payload) =
      if ltb (cfg svc).udp_max_datagram_size (length payload)
      then drops true (count udp_datagrams_dropped_total (count udp_datagrams_oversized_total p))
      else external_with sent svc peer payload now
          (external_session p svc peer listener now (server_udp_find svc peer p.udp))

  -- Behind the window; `delivered` tells whether `ct_udp_send` returns 0 or more.
  unfoldable pub deliver :
      (delivered : Session → List ℕ → Bool)
      → Peer
      → (i now : ℕ) → (payload : List ℕ) → Bool × Window
      → Handled
  deliver delivered p i now payload (false, rx) = drops true (count udp_replay_dropped_total p)
  deliver delivered p i now payload (true, rx) =
      let s = record (get_or p.udp i no_session) { rx = rx; last_ms = now } in
      if not (delivered s payload)
      then drops false (count udp_local_send_failures_total (with_session p i s))
      else record {
        success = true;
        handed_on = some payload;
        after = record (with_session p i s) {
          metrics =
              metric_add udp_bytes_s2c_total (length payload)
                (metric_inc udp_datagrams_s2c_total p.metrics);
        };
      }

  -- For a datagram with the session that its id names.
  unfoldable pub client_with :
      (delivered : Session → List ℕ → Bool) → Peer → (now : ℕ) → Datagram → Option ℕ → Handled
  client_with delivered p now d none = drops true (count udp_datagrams_dropped_total p)
  client_with delivered p now d (some i) =
      let s = get_or p.udp i no_session in
      if not (bytes_eq (cfg s.svc).id d.service) || not (endpoint_equal s.peer d.peer)
      then drops true (count udp_datagrams_dropped_total p)
      else deliver delivered p i now d.payload (udp_replay_accept window s.rx d.sequence)

  unfoldable pub client_datagram :
      (delivered : Session → List ℕ → Bool) → Peer → (now : ℕ) → Option Datagram → Handled
  client_datagram delivered p now none = drops false (count udp_datagrams_dropped_total p)
  client_datagram delivered p now (some d) =
      if not (d.direction == 1)
      then drops false (count udp_datagrams_dropped_total p)
      else client_with delivered p now d (server_udp_find_id d.session_id p.udp)

  unfoldable pub server_udp_from_client :
      (delivered : Session → List ℕ → Bool) → Peer → (payload : List ℕ) → (len now : ℕ) → Handled
  server_udp_from_client delivered p payload len now =
      client_datagram delivered p now (udp_unpack max_service_id payload len)

  -- Whether a session has been idle for too long.
  unfoldable pub idle : (now : ℕ) → Session → Bool
  idle now s =
      s.active && ltb ((cfg s.svc).udp_idle_timeout * 1000) ((now + 2 ^ 64 - s.last_ms) % 2 ^ 64)

  -- The loop of `server_udp_expire`.
  unfoldable pub expire_from : (now : ℕ) → List Session → Metrics → List Session × Metrics
  expire_from now [] m = ([], m)
  expire_from now (s ∷ udp) m =
      let late = idle now s in
      let counted = metric_inc udp_sessions_expired_total (metric_dec udp_sessions_active m) in
      let (rest, m') = expire_from now udp (if late then counted else m) in
      ((if late then no_session else s) ∷ rest, m')

  unfoldable pub server_udp_expire : (now : ℕ) → Peer → Peer
  server_udp_expire now p =
      let (udp, m) = expire_from now p.udp p.metrics in record p { udp = udp; metrics = m }
