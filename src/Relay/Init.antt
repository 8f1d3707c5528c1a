-- ===== src/Relay/Init.antt =====
-- src/net/relay.c: `ct_relay_init`, in a build with CONFIG_FEATURE_DATA_ENCRYPTION and
-- CONFIG_FEATURE_PROXY_PROTOCOL.
use ctunnel.Prelude.{
  ℕ, Bool, true, false, not, ◌&&◌, Option, none, some, ◌>>=◌, List, [], replicate, ◌==◌,
  if◌then◌else◌,
}
use ctunnel.Types.{
  StreamMetadata, enc_required, proxy_protocol_off, proxy_protocol_v1, proxy_protocol_v2,
}
use ctunnel.Ring.{Ring, ring_init}
use ctunnel.Metrics.{Metrics, metric_inc}
use ctunnel.Proxy.{proxy_protocol_build}
use ctunnel.Relay.{Relay, State, append}
use ctunnel.Relay.Process.{active_streams, work_active, relay_close}

abbrev pub streams_opened_total : ℕ
streams_opened_total = 4

abbrev pub proxy_v1_connections_total : ℕ
proxy_v1_connections_total = 31

abbrev pub proxy_v2_connections_total : ℕ
proxy_v2_connections_total = 32

abbrev pub proxy_disabled_connections_total : ℕ
proxy_disabled_connections_total = 33

abbrev pub proxy_header_failures_total : ℕ
proxy_header_failures_total = 34

abbrev pub no_ring : Ring
no_ring = record { bytes = []; cap = 0; head = 0; len = 0 }

-- The structure after `memset` and the first assignments.
unfoldable pub blank : (direct work : ℕ) → (client : Bool) → (mode cipher : ℕ) → Relay
blank direct work client mode cipher = record {
  direct = direct;
  work = work;
  closed = false;
  direct_eof = false;
  work_eof = false;
  is_client = client;
  stream_accounted = false;
  proxy_header_pending = false;
  proxy_header_remaining = 0;
  accounted_buffer_bytes = 0;
  encrypted = mode == enc_required;
  cipher = cipher;
  send_key = replicate 32 0;
  recv_key = replicate 32 0;
  send_nonce = [];
  recv_nonce = [];
  send_seq = 0;
  recv_seq = 0;
  work_input = no_ring;
  to_direct = no_ring;
  to_work = no_ring;
}

-- The three rings; each gets its memory, or `none`.
unfoldable pub with_rings : (size : ℕ) → (m₁ m₂ m₃ : Option (List ℕ)) → Relay → Option Relay
with_rings size m₁ m₂ m₃ r = do
  to_direct ← ring_init m₁ size
  to_work ← ring_init m₂ size
  work_input ← ring_init m₃ size
  some (record r { to_direct = to_direct; to_work = to_work; work_input = work_input })

-- `derive` is `ct_derive_data` for a direction, with the stream's other values: a key and a nonce.
unfoldable pub with_keys :
    (derive : ℕ → Option (List ℕ × List ℕ)) → (client : Bool) → Relay → Option Relay
with_keys derive client r = do
  (send_key, send_nonce) ← derive (if client then 0 else 1)
  (recv_key, recv_nonce) ← derive (if client then 1 else 0)
  some (record r {
    send_key = send_key;
    send_nonce = send_nonce;
    recv_key = recv_key;
    recv_nonce = recv_nonce;
  })

-- What is counted of a stream with a PROXY header.
unfoldable pub count_header : (mode : ℕ) → Metrics → Metrics
count_header mode m =
    if mode == proxy_protocol_v1
    then metric_inc proxy_v1_connections_total m
    else if mode == proxy_protocol_v2
    then metric_inc proxy_v2_connections_total m
    else m

-- The end of a call that succeeds.
unfoldable pub opened : State → Bool × State
opened s = (
  true,
  record {
    relay = record s.relay { stream_accounted = true };
    metrics =
        metric_inc work_active
          (metric_inc active_streams (metric_inc streams_opened_total s.metrics));
  },
)

unfoldable pub header_failed : State → Bool × State
header_failed s =
    (false, relay_close (record s { metrics = metric_inc proxy_header_failures_total s.metrics }))

-- From the call of `ct_proxy_protocol_build` on; `none` is its failure.
unfoldable pub queue_header : (mode : ℕ) → Option (List ℕ × ℕ) → State → Bool × State
queue_header mode none s = header_failed s
queue_header mode (some (header, n)) s =
    let (ok, ring) = append s.relay.to_direct header n in
    let queued = record s.relay { to_direct = ring } in
    if ok
    then opened (record {
      relay = record queued { proxy_header_pending = true; proxy_header_remaining = n };
      metrics = count_header mode s.metrics;
    })
    else header_failed (record s { relay = queued })

unfoldable pub begin_plain : State → Bool × State
begin_plain s = opened (
    if s.relay.is_client
    then record s { metrics = metric_inc proxy_disabled_connections_total s.metrics }
    else s)

-- From the keys on; `build` is `ct_proxy_protocol_build` into a buffer of 108 bytes.
unfoldable pub begin_stream :
    (build : StreamMetadata → Option (List ℕ × ℕ)) → Option StreamMetadata → State → Bool × State
begin_stream build none s = begin_plain s
begin_stream build (some metadata) s =
    if s.relay.is_client && not (metadata.proxy_protocol == proxy_protocol_off)
    then queue_header metadata.proxy_protocol (build metadata) s
    else begin_plain s

-- A relay that could not be set up is closed. The keys and nonces that were derived by then are not
-- kept here; the code wipes the keys and uses nothing of a closed relay.
unfoldable pub set_up :
    (build : StreamMetadata → Option (List ℕ × ℕ))
    → Option StreamMetadata
    → Relay
    → Metrics
    → Option Relay
    → Bool × State
set_up build metadata failed m none = (false, relay_close (record { relay = failed; metrics = m }))
set_up build metadata failed m (some r) =
    begin_stream build metadata (record { relay = r; metrics = m })

-- `ct_proxy_protocol_build` as `ct_relay_init` calls it, into a buffer of 108 bytes.
unfoldable pub build_header :
    (inet_ntop : ℕ → List ℕ → Option (List ℕ)) (decimal : ℕ → List ℕ) (feature_v1 feature_v2 : Bool)
    → StreamMetadata
    → Option (List ℕ × ℕ)
build_header inet_ntop decimal feature_v1 feature_v2 metadata =
    proxy_protocol_build inet_ntop decimal feature_v1 feature_v2 (replicate 108 0) 108
      (some metadata)

unfoldable pub relay_init :
    (inet_ntop : ℕ → List ℕ → Option (List ℕ)) (decimal : ℕ → List ℕ) (feature_v1 feature_v2 : Bool)
    (size : ℕ) (m₁ m₂ m₃ : Option (List ℕ)) (derive : ℕ → Option (List ℕ × List ℕ))
    (direct work : ℕ) (client : Bool) (mode cipher : ℕ)
    → Option StreamMetadata
    → Metrics
    → Bool × State
relay_init inet_ntop decimal feature_v1 feature_v2 size m₁ m₂ m₃ derive direct work client mode
      cipher metadata m =
    let r = blank direct work client mode cipher in
    set_up (build_header inet_ntop decimal feature_v1 feature_v2) metadata r m (do
      r₁ ← with_rings size m₁ m₂ m₃ r
      if mode == enc_required then with_keys derive client r₁ else some r₁)
