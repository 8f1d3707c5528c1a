-- ===== src/Relay/Process.antt =====
-- src/net/relay.c: one call of `ct_relay_process`, with what the sockets answer as its inputs.
use ctunnel.Prelude.{
  ℕ, ◌-◌, Bool, true, false, not, ◌&&◌, bit_and, List, Option, leb, ◌==◌, if◌then◌else◌, length,
  take, replicate,
}
use ctunnel.Ring.{Ring, ring_free, ring_peek, ring_consume}
use ctunnel.Metrics.{metric_add, metric_inc, metric_sub, metric_dec, buffer_bytes_current}
use ctunnel.Relay.{Relay, State, append, buffered_bytes, encrypt_chunk, decrypt_ready}

abbrev pub active_streams : ℕ
active_streams = 2

abbrev pub streams_closed_total : ℕ
streams_closed_total = 5

abbrev pub streams_failed_total : ℕ
streams_failed_total = 6

abbrev pub work_active : ℕ
work_active = 8

abbrev pub bytes_c2s_total : ℕ
bytes_c2s_total = 11

abbrev pub bytes_s2c_total : ℕ
bytes_s2c_total = 12

abbrev pub proxy_local_write_failures_total : ℕ
proxy_local_write_failures_total = 36

-- What `send` returns for the bytes it is offered: a count, -1 with an error that means to
-- try again, or another error.
pub data Sent : Type 0 where
  accepted : ℕ → Sent
  send_blocked : Sent
  send_failed : Sent

-- What `recv` returns: bytes, 0, -1 with an error that means to try again, or another error.
pub data Received : Type 0 where
  received : List ℕ → Received
  end_of_file : Received
  recv_blocked : Received
  recv_failed : Received

unfoldable pub flush_sent : Ring → Sent → Bool × Ring
flush_sent ring (accepted z) = if z == 0 then (false, ring) else (true, ring_consume ring z)
flush_sent ring send_blocked = (true, ring)
flush_sent ring send_failed = (false, ring)

unfoldable pub flush : (List ℕ → Sent) → Ring → Bool × Ring
flush send ring =
    let (n, p) = ring_peek ring in
    if n == 0 then (true, ring) else flush_sent ring (send (take n p))

-- How much of the PROXY header still waits, after `consumed` bytes have left.
unfoldable pub header_sent : (consumed : ℕ) → Relay → Relay
header_sent consumed r =
    if leb r.proxy_header_remaining consumed
    then record r { proxy_header_remaining = 0; proxy_header_pending = false }
    else record r { proxy_header_remaining = r.proxy_header_remaining - consumed }

-- The call for `to_direct` at the direct socket.
unfoldable pub flush_direct : (List ℕ → Sent) → State → Bool × State
flush_direct send s =
    let r = s.relay in
    let (ok, ring) = flush send r.to_direct in
    let after = record r { to_direct = ring } in
    if not r.proxy_header_pending
    then (ok, record s { relay = after })
    else if ok
    then (true, record s { relay = header_sent (r.to_direct.len - ring.len) after })
    else (
      false,
      record { relay = after; metrics = metric_inc proxy_local_write_failures_total s.metrics },
    )

-- The call for `to_work` at the work socket.
unfoldable pub flush_work : (List ℕ → Sent) → State → Bool × State
flush_work send s =
    let (ok, ring) = flush send s.relay.to_work in
    (ok, record s { relay = record s.relay { to_work = ring } })

unfoldable pub sync_buffer_metric : State → State
sync_buffer_metric s =
    let now = buffered_bytes s.relay in
    let before = s.relay.accounted_buffer_bytes in
    record {
      relay = record s.relay { accounted_buffer_bytes = now };
      metrics =
          if leb before now
          then metric_add buffer_bytes_current (now - before) s.metrics
          else metric_sub buffer_bytes_current (before - now) s.metrics;
    }

unfoldable pub metric_bytes : (source n : ℕ) → State → State
metric_bytes source n s =
    let direct_to_work = source == s.relay.direct in
    let c2s = if s.relay.is_client then direct_to_work else not direct_to_work in
    record s { metrics = metric_add (if c2s then bytes_c2s_total else bytes_s2c_total) n s.metrics }

unfoldable pub close_accounts : State → State
close_accounts s =
    let s₁ = sync_buffer_metric s in
    let m₁ = metric_sub buffer_bytes_current s₁.relay.accounted_buffer_bytes s₁.metrics in
    let m₂ = metric_inc streams_closed_total m₁ in
    let m₃ = metric_dec active_streams m₂ in
    record {
      relay = record s₁.relay { accounted_buffer_bytes = 0; stream_accounted = false };
      metrics = metric_dec work_active m₃;
    }

-- The sockets are closed too; the keys are wiped.
unfoldable pub relay_close : State → State
relay_close s =
    let s₁ = if not s.relay.closed && s.relay.stream_accounted then close_accounts s else s in
    record s₁ {
      relay = record s₁.relay {
        send_key = replicate 32 0;
        recv_key = replicate 32 0;
        work_input = ring_free s₁.relay.work_input;
        to_direct = ring_free s₁.relay.to_direct;
        to_work = ring_free s₁.relay.to_work;
        closed = true;
      };
    }

-- `goto bad` where a part fails.
unfoldable pub proceed : Bool × State → (State → Bool × State) → Bool × State
proceed (true, s) next = next s
proceed (false, s) next =
    (false, relay_close (record s { metrics = metric_inc streams_failed_total s.metrics }))

-- Both sides are at their end, and nothing waits: the relay closes. The calls of `shutdown` for one
-- side change nothing of the relay.
unfoldable pub finish : State → Bool × State
finish s =
    let r = s.relay in
    if r.direct_eof && r.work_eof && r.to_direct.len == 0 && r.to_work.len == 0
    then (false, relay_close s)
    else (true, s)

module _ (chunk : ℕ)
    (aead_encrypt aead_decrypt : ℕ → List ℕ → List ℕ → ℕ → List ℕ → List ℕ → Option (List ℕ)) where
  unfoldable pub read_direct : Received → State → Bool × State
  read_direct (received b) s =
      let s₁ = metric_bytes s.relay.direct (length b) s in
      let (ok, ring) = append s₁.relay.to_work b (length b) in
      if s₁.relay.encrypted
      then encrypt_chunk chunk aead_encrypt aead_decrypt s₁ b
      else (ok, record s₁ { relay = record s₁.relay { to_work = ring } })
  read_direct end_of_file s = (true, record s { relay = record s.relay { direct_eof = true } })
  read_direct recv_blocked s = (true, s)
  read_direct recv_failed s = (false, s)

  unfoldable pub read_work : Received → State → Bool × State
  read_work (received b) s =
      let s₁ = metric_bytes s.relay.work (length b) s in
      let (ok, input) = append s₁.relay.work_input b (length b) in
      let s₂ = record s₁ { relay = record s₁.relay { work_input = input } } in
      let (ok', ring) = append s₁.relay.to_direct b (length b) in
      if s₁.relay.encrypted
      then if ok then decrypt_ready chunk aead_encrypt aead_decrypt s₂ else (false, s₂)
      else (ok', record s₁ { relay = record s₁.relay { to_direct = ring } })
  read_work end_of_file s = (true, record s { relay = record s.relay { work_eof = true } })
  read_work recv_blocked s = (true, s)
  read_work recv_failed s = (false, s)

  unfoldable pub flush_part : (fd ev : ℕ) → (List ℕ → Sent) → State → Bool × State
  flush_part fd ev send s =
      if bit_and ev 2 == 0
      then (true, s)
      else if fd == s.relay.direct
      then flush_direct send s
      else flush_work send s

  -- Records that waited for room are decrypted after a flush of the direct side.
  unfoldable pub drain_part : (fd : ℕ) → State → Bool × State
  drain_part fd s =
      if fd == s.relay.direct && s.relay.encrypted && not (s.relay.work_input.len == 0)
      then decrypt_ready chunk aead_encrypt aead_decrypt s
      else (true, s)

  unfoldable pub read_part : (fd ev : ℕ) → Received → State → Bool × State
  read_part fd ev answer s =
      if bit_and ev 1 == 0
      then (true, s)
      else if fd == s.relay.direct
      then read_direct answer s
      else read_work answer s

  unfoldable pub relay_process : (fd ev : ℕ) → (List ℕ → Sent) → Received → State → Bool × State
  relay_process fd ev send answer s =
      if s.relay.closed
      then (false, s)
      else proceed (flush_part fd ev send s) (λ s₁.
        proceed (drain_part fd (sync_buffer_metric s₁)) (λ s₂.
          proceed (read_part fd ev answer (sync_buffer_metric s₂))
            (λ s₃. finish (sync_buffer_metric s₃))))
