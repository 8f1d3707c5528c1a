-- ===== src/Relay/Rings.antt =====
-- The rings of src/net/relay.c when it sends and when it appends a record.
use ctunnel.Prelude.{
  ℕ, ◌+◌, ◌%◌, ◌≤◌, ◌^◌, ◌≡◌, refl, Bool, false, not, List, ◌==◌, length, take, replicate, arith,
  either_way,
}
use ctunnel.Wire.Buffer.{put_u32-IsFilled, put_u64-IsFilled, empty-IsFilled}
use ctunnel.Wire.Record.{record_tag_size}
use ctunnel.Ring.{Ring, IsRing, ring_peek}
use ctunnel.Ring.Write.{ring_write_refines}
use ctunnel.Ring.Read.{ring_consume_refines}
use ctunnel.Relay.{Relay, State, append, record_header}
use ctunnel.Relay.Process.{
  Sent, accepted, send_blocked, send_failed, flush_sent, flush, header_sent, flush_direct,
  flush_work, sync_buffer_metric,
}

-- An open relay with its three rings.
pub record IsOpen (r : Relay) : Type 0 where
  pub open_still : r.closed ≡ false
  pub work_input_ring : IsRing r.work_input
  pub to_direct_ring : IsRing r.to_direct
  pub to_work_ring : IsRing r.to_work

pub append-IsRing :
    (r : Ring) (p : List ℕ) (n : ℕ) → IsRing r → n ≤ length p → IsRing (append r p n).1
unfolding append
append-IsRing r p n v h = (ring_write_refines r p n v h).4

pub length-record_header : (n seq : ℕ) → length (record_header n seq) ≡ 12
unfolding record_header
length-record_header n seq =
    (put_u64-IsFilled
      (put_u32-IsFilled (empty-IsFilled (replicate 12 0)) ((n + record_tag_size) % 2 ^ 32) 4 refl
        (omega arith))
      seq 12 refl (omega arith)).size

flush_sent-IsRing : (r : Ring) (z : Sent) → IsRing r → IsRing (flush_sent r z).1
unfolding flush_sent
flush_sent-IsRing r (accepted z) v =
    either_way (λ (x : Bool × Ring). IsRing x.1) (z == 0) v (ring_consume_refines r z v).3
flush_sent-IsRing r send_blocked v = v
flush_sent-IsRing r send_failed v = v

flush-IsRing : (send : List ℕ → Sent) (r : Ring) → IsRing r → IsRing (flush send r).1
unfolding flush
flush-IsRing send r v =
    either_way (λ (x : Bool × Ring). IsRing x.1) ((ring_peek r).0 == 0) v
      (flush_sent-IsRing r (send (take (ring_peek r).0 (ring_peek r).1)) v)

-- What a part of `ct_relay_process` leaves behind.
abbrev pub Kept : Bool × State → Type 0
Kept x = IsOpen x.1.relay

pub flush_direct-Kept :
    (send : List ℕ → Sent) (s : State) → IsOpen s.relay → Kept (flush_direct send s)
unfolding flush_direct header_sent
flush_direct-Kept send s v = either_way Kept (not s.relay.proxy_header_pending) after (
    either_way Kept (flush send s.relay.to_direct).0
      (either_way IsOpen _ (changed after) (changed after)) after)
  where
    after : IsOpen (record s.relay { to_direct = (flush send s.relay.to_direct).1 })
    after = record {
      open_still = v.open_still;
      work_input_ring = v.work_input_ring;
      to_direct_ring = flush-IsRing send s.relay.to_direct v.to_direct_ring;
      to_work_ring = v.to_work_ring;
    }

    changed :
        {n : ℕ} {b : Bool}
        → IsOpen (record s.relay { to_direct = (flush send s.relay.to_direct).1 })
        → IsOpen (record s.relay {
          to_direct = (flush send s.relay.to_direct).1;
          proxy_header_remaining = n;
          proxy_header_pending = b;
        })
    changed w = record {
      open_still = w.open_still;
      work_input_ring = w.work_input_ring;
      to_direct_ring = w.to_direct_ring;
      to_work_ring = w.to_work_ring;
    }

pub flush_work-Kept : (send : List ℕ → Sent) (s : State) → IsOpen s.relay → Kept (flush_work send s)
unfolding flush_work
flush_work-Kept send s v = record {
  open_still = v.open_still;
  work_input_ring = v.work_input_ring;
  to_direct_ring = v.to_direct_ring;
  to_work_ring = flush-IsRing send s.relay.to_work v.to_work_ring;
}

pub sync-IsOpen : (s : State) → IsOpen s.relay → IsOpen (sync_buffer_metric s).relay
unfolding sync_buffer_metric
sync-IsOpen s v = record {
  open_still = v.open_still;
  work_input_ring = v.work_input_ring;
  to_direct_ring = v.to_direct_ring;
  to_work_ring = v.to_work_ring;
}
