-- ===== src/Relay.antt =====
-- src/net/relay.c: the records of an encrypted stream, between the rings of a relay, in a build with
-- CONFIG_FEATURE_DATA_ENCRYPTION.
pub mod Records
pub mod Stream
pub mod Loop
pub mod Authentic
pub mod Process
pub mod Rings
pub mod Invariant
pub mod Pressure
pub mod Init
pub mod Setup
mod Tests
use ctunnel.Prelude.{
  ℕ, zero, suc, ◌+◌, ◌-◌, ◌%◌, ◌^◌, Bool, true, false, not, ◌&&◌, bit_or, Option, none, some, List,
  ◌++◌, ltb, ◌==◌, if◌then◌else◌, length, replicate,
}
use ctunnel.Wire.Ints.{put_u32, put_u64, at}
use ctunnel.Wire.Record.{record_tag_size, data_record_header_decode}
use ctunnel.Ring.{Ring, ring_write, ring_read}
use ctunnel.Metrics.{Metrics, metric_inc}

abbrev pub aead_failures_total : ℕ
aead_failures_total = 15

-- `ct_relay`
pub record Relay : Type 0 where
  pub direct : ℕ
  pub work : ℕ
  pub closed : Bool
  pub direct_eof : Bool
  pub work_eof : Bool
  pub is_client : Bool
  pub stream_accounted : Bool
  pub proxy_header_pending : Bool
  pub proxy_header_remaining : ℕ
  pub accounted_buffer_bytes : ℕ
  pub encrypted : Bool
  pub cipher : ℕ
  pub send_key : List ℕ
  pub recv_key : List ℕ
  pub send_nonce : List ℕ
  pub recv_nonce : List ℕ
  pub send_seq : ℕ
  pub recv_seq : ℕ
  pub work_input : Ring
  pub to_direct : Ring
  pub to_work : Ring

-- A relay, and the counters of the process.
pub record State : Type 0 where
  pub relay : Relay
  pub metrics : Metrics

-- `true` is 0, success. A write that falls short has still written what fits.
unfoldable pub append : Ring → List ℕ → ℕ → Bool × Ring
append r p n = let (written, r') = ring_write r p n in (written == n, r')

unfoldable pub buffered_bytes : Relay → ℕ
buffered_bytes r = r.to_direct.len + r.to_work.len + r.work_input.len

-- The events that the relay waits for on `fd`: 1 to read, 2 to write. `chunk` is CHUNK, which leaves
-- more than 32 bytes of a buffer in every build.
unfoldable pub relay_events : (chunk : ℕ) → Relay → (fd : ℕ) → ℕ
relay_events chunk r fd =
    if r.closed
    then 0
    else if fd == r.direct
    then bit_or
        (if not r.direct_eof && ltb r.to_work.len (r.to_work.cap - chunk - 32) then 1 else 0)
        (if r.to_direct.len == 0 then 0 else 2)
    else if fd == r.work
    then bit_or
        (if not r.work_eof && ltb r.work_input.len (r.work_input.cap - chunk - 32) then 1 else 0)
        (if r.to_work.len == 0 then 0 else 2)
    else 0

unfoldable pub aead_failed : State → State
aead_failed s = record s { metrics = metric_inc aead_failures_total s.metrics }

-- The first 12 bytes of `record`, each of which is written.
unfoldable pub record_header : (size seq : ℕ) → List ℕ
record_header size seq =
    at 4 (λ q. put_u64 q seq) (put_u32 (replicate 12 0) ((size + record_tag_size) % 2 ^ 32))

-- How one round of the loop of `decrypt_ready` ends: it returns, or goes on.
pub data Step : Type 0 where
  return : Bool → State → Step
  again : State → Step

unfoldable pub resume : (State → Bool × State) → Step → Bool × State
resume go (return ok s) = (ok, s)
resume go (again s) = go s

-- `ct_aead_encrypt` and `ct_aead_decrypt`: the cipher, the key, the base of the nonce, the sequence
-- number, the associated data and the input; `none` is a failure. `chunk` is CHUNK.
module _ (chunk : ℕ)
    (aead_encrypt aead_decrypt : ℕ → List ℕ → List ℕ → ℕ → List ℕ → List ℕ → Option (List ℕ)) where
  -- From the call of `ct_aead_encrypt` on; the sequence number is already advanced.
  unfoldable pub encrypt_append : State → (header : List ℕ) → Option (List ℕ) → Bool × State
  encrypt_append s header none = (false, aead_failed s)
  encrypt_append s header (some box) =
      let (ok, ring) = append s.relay.to_work (header ++ box) (12 + length box) in
      (ok, record s { relay = record s.relay { to_work = ring } })

  unfoldable pub encrypt_chunk : State → List ℕ → Bool × State
  encrypt_chunk s p =
      let r = s.relay in
      let seq = r.send_seq + 1 in
      let header = record_header (length p) seq in
      if r.send_seq == 2 ^ 64 - 1
      then (false, s)
      else encrypt_append (record s { relay = record r { send_seq = seq } }) header
          (aead_encrypt r.cipher r.send_key r.send_nonce seq header p)

  -- From the call of `ct_aead_decrypt` on; the record has been read from `work_input`.
  unfoldable pub decrypt_append : State → (seq : ℕ) → Option (List ℕ) → Step
  decrypt_append s seq none = return false (aead_failed s)
  decrypt_append s seq (some plain) =
      let (ok, ring) = append s.relay.to_direct plain (length plain) in
      if ok
      then again (record s { relay = record s.relay { to_direct = ring; recv_seq = seq } })
      else return false (record s { relay = record s.relay { to_direct = ring } })

  -- From the decoded header on.
  unfoldable pub decrypt_box : State → Option (ℕ × ℕ) → Step
  decrypt_box s none = return false (aead_failed s)
  decrypt_box s (some (n, seq)) =
      let r = s.relay in
      let (_, h, after_header) = ring_read r.work_input 12 in
      let (_, box, after_box) = ring_read after_header n in
      if ltb r.work_input.len (12 + n)
      then return true s
      else if ltb (r.to_direct.cap - r.to_direct.len) (n - record_tag_size)
      then return true s
      else decrypt_append (record s { relay = record r { work_input = after_box } }) seq
          (aead_decrypt r.cipher r.recv_key r.recv_nonce seq h box)

  -- One round, at a header that is read from a copy of the ring.
  unfoldable pub decrypt_round : State → Step
  decrypt_round s =
      let r = s.relay in
      if ltb r.work_input.len 12
      then return true s
      else (let (_, h, _) = ring_read r.work_input 12 in
          decrypt_box s (data_record_header_decode h chunk r.recv_seq))

  -- The loop; at fuel 0 its condition is taken to be false.
  unfoldable pub decrypt_loop : ℕ → State → Bool × State
  decrypt_loop zero s = (true, s)
  decrypt_loop (suc fuel) s = resume (decrypt_loop fuel) (decrypt_round s)

  -- Every round that goes on takes at least 28 bytes from the ring, so its size is fuel enough.
  unfoldable pub decrypt_ready : State → Bool × State
  decrypt_ready s = decrypt_loop s.relay.work_input.len s
