-- ===== src/Relay/Invariant.antt =====
-- The rings of a relay across `ct_relay_process` of src/net/relay.c.
use ctunnel.Prelude.{
  ℕ, zero, suc, ◌+◌, ◌-◌, ◌^◌, ◌≡◌, refl, Bool, true, false, ◌&&◌, Option, none, some, List, ◌++◌,
  ltb, ◌==◌, bit_and, length, length-append, arith, either_way, by_test,
}
use ctunnel.Wire.Record.{record_tag_size}
use ctunnel.Ring.{ring_read}
use ctunnel.Ring.Read.{ring_read_refines}
use ctunnel.Relay.{
  State, Step, return, again, resume, append, aead_failed, encrypt_append, encrypt_chunk,
  decrypt_append, decrypt_box, decrypt_round, decrypt_loop, decrypt_ready,
}
use ctunnel.Relay.Process.{
  Sent, Received, received, end_of_file, recv_blocked, recv_failed, sync_buffer_metric,
  metric_bytes, relay_close, read_direct, read_work, proceed, finish, flush_part, drain_part,
  read_part, relay_process,
}
use ctunnel.Relay.Rings.{
  IsOpen, append-IsRing, length-record_header, Kept, flush_direct-Kept, flush_work-Kept,
  sync-IsOpen,
}

-- What a round of `decrypt_ready` leaves behind.
abbrev StepKept : Step → Type 0
StepKept (return ok s) = IsOpen s.relay
StepKept (again s) = IsOpen s.relay

module _ (chunk : ℕ)
    (aead_encrypt aead_decrypt : ℕ → List ℕ → List ℕ → ℕ → List ℕ → List ℕ → Option (List ℕ)) where
  encrypt_append-Kept :
      (s : State) (header : List ℕ) (o : Option (List ℕ))
      → length header ≡ 12
      → IsOpen s.relay
      → Kept (encrypt_append chunk aead_encrypt aead_decrypt s header o)
  unfolding encrypt_append aead_failed
  encrypt_append-Kept s header none e v = v
  encrypt_append-Kept s header (some box) e v = record {
    open_still = v.open_still;
    work_input_ring = v.work_input_ring;
    to_direct_ring = v.to_direct_ring;
    to_work_ring =
        append-IsRing s.relay.to_work (header ++ box) (12 + length box) v.to_work_ring
          (omega (arith, length-append header box));
  }

  encrypt_chunk-Kept :
      (s : State) (p : List ℕ)
      → IsOpen s.relay
      → Kept (encrypt_chunk chunk aead_encrypt aead_decrypt s p)
  unfolding encrypt_chunk
  encrypt_chunk-Kept s p v = either_way Kept (s.relay.send_seq == 2 ^ 64 - 1) v (
      encrypt_append-Kept _ _ _ (length-record_header (length p) (s.relay.send_seq + 1)) (record {
        open_still = v.open_still;
        work_input_ring = v.work_input_ring;
        to_direct_ring = v.to_direct_ring;
        to_work_ring = v.to_work_ring;
      }))

  decrypt_append-StepKept :
      (s : State) (seq : ℕ) (o : Option (List ℕ))
      → IsOpen s.relay
      → StepKept (decrypt_append chunk aead_encrypt aead_decrypt s seq o)
  unfolding decrypt_append aead_failed
  decrypt_append-StepKept s seq none v = v
  decrypt_append-StepKept s seq (some plain) v =
      either_way StepKept (append s.relay.to_direct plain (length plain)).0 (next seq)
        (next s.relay.recv_seq)
    where
      next :
          (q : ℕ)
          → IsOpen (record s.relay {
            to_direct = (append s.relay.to_direct plain (length plain)).1;
            recv_seq = q;
          })
      next q = record {
        open_still = v.open_still;
        work_input_ring = v.work_input_ring;
        to_direct_ring =
            append-IsRing s.relay.to_direct plain (length plain) v.to_direct_ring (omega arith);
        to_work_ring = v.to_work_ring;
      }

  decrypt_box-StepKept :
      (s : State) (o : Option (ℕ × ℕ))
      → IsOpen s.relay
      → StepKept (decrypt_box chunk aead_encrypt aead_decrypt s o)
  unfolding decrypt_box aead_failed
  decrypt_box-StepKept s none v = v
  decrypt_box-StepKept s (some (n, seq)) v =
      either_way StepKept (ltb s.relay.work_input.len (12 + n)) v (
        either_way StepKept
          (ltb (s.relay.to_direct.cap - s.relay.to_direct.len) (n - record_tag_size)) v
          (decrypt_append-StepKept _ seq _ (record {
            open_still = v.open_still;
            work_input_ring =
                (ring_read_refines (ring_read s.relay.work_input 12).2 n
                  (ring_read_refines s.relay.work_input 12 v.work_input_ring).5).5;
            to_direct_ring = v.to_direct_ring;
            to_work_ring = v.to_work_ring;
          })))

  decrypt_loop-Kept :
      (fuel : ℕ) (s : State)
      → IsOpen s.relay
      → Kept (decrypt_loop chunk aead_encrypt aead_decrypt fuel s)
  unfolding decrypt_loop decrypt_round resume
  decrypt_loop-Kept zero s v = v
  decrypt_loop-Kept (suc fuel) s v =
      went_on (decrypt_round chunk aead_encrypt aead_decrypt s)
        (either_way StepKept (ltb s.relay.work_input.len 12) v (decrypt_box-StepKept s _ v))
        (λ t w. decrypt_loop-Kept fuel t w)
    where
      went_on :
          (x : Step)
          → StepKept x
          → ((t : State)
              → IsOpen t.relay
              → Kept (decrypt_loop chunk aead_encrypt aead_decrypt fuel t))
          → Kept (resume (decrypt_loop chunk aead_encrypt aead_decrypt fuel) x)
      went_on (return ok t) w ih = w
      went_on (again t) w ih = ih t w

  decrypt_ready-Kept :
      (s : State) → IsOpen s.relay → Kept (decrypt_ready chunk aead_encrypt aead_decrypt s)
  unfolding decrypt_ready
  decrypt_ready-Kept s v = decrypt_loop-Kept s.relay.work_input.len s v

  read_direct-Kept :
      (answer : Received) (s : State)
      → IsOpen s.relay
      → Kept (read_direct chunk aead_encrypt aead_decrypt answer s)
  unfolding read_direct metric_bytes
  read_direct-Kept (received b) s v =
      either_way Kept s.relay.encrypted (encrypt_chunk-Kept _ b v) (record {
        open_still = v.open_still;
        work_input_ring = v.work_input_ring;
        to_direct_ring = v.to_direct_ring;
        to_work_ring = append-IsRing s.relay.to_work b (length b) v.to_work_ring (omega arith);
      })
  read_direct-Kept end_of_file s v = record {
    open_still = v.open_still;
    work_input_ring = v.work_input_ring;
    to_direct_ring = v.to_direct_ring;
    to_work_ring = v.to_work_ring;
  }
  read_direct-Kept recv_blocked s v = v
  read_direct-Kept recv_failed s v = v

  read_work-Kept :
      (answer : Received) (s : State)
      → IsOpen s.relay
      → Kept (read_work chunk aead_encrypt aead_decrypt answer s)
  unfolding read_work metric_bytes
  read_work-Kept (received b) s v =
      either_way Kept s.relay.encrypted
        (either_way Kept (append s.relay.work_input b (length b)).0 (decrypt_ready-Kept _ input)
          input)
        (record {
          open_still = v.open_still;
          work_input_ring = v.work_input_ring;
          to_direct_ring =
              append-IsRing s.relay.to_direct b (length b) v.to_direct_ring (omega arith);
          to_work_ring = v.to_work_ring;
        })
    where
      input : IsOpen (record s.relay { work_input = (append s.relay.work_input b (length b)).1 })
      input = record {
        open_still = v.open_still;
        work_input_ring =
            append-IsRing s.relay.work_input b (length b) v.work_input_ring (omega arith);
        to_direct_ring = v.to_direct_ring;
        to_work_ring = v.to_work_ring;
      }
  read_work-Kept end_of_file s v = record {
    open_still = v.open_still;
    work_input_ring = v.work_input_ring;
    to_direct_ring = v.to_direct_ring;
    to_work_ring = v.to_work_ring;
  }
  read_work-Kept recv_blocked s v = v
  read_work-Kept recv_failed s v = v

-- How a call ends: the relay is open with its rings well formed, or it is closed and the call failed.
abbrev pub Sound : Bool × State → Type 0
Sound (true, s) = IsOpen s.relay
Sound (false, s) = s.relay.closed ≡ true

proceed-Sound :
    (x : Bool × State) (next : State → Bool × State)
    → Kept x
    → ((s : State) → IsOpen s.relay → Sound (next s))
    → Sound (proceed x next)
unfolding proceed relay_close
proceed-Sound (true, s) next k h = h s k
proceed-Sound (false, s) next k h = refl

finish-Sound : (s : State) → IsOpen s.relay → Sound (finish s)
unfolding finish relay_close
finish-Sound s v =
    either_way Sound
      (s.relay.direct_eof
        && s.relay.work_eof
        && s.relay.to_direct.len == 0
        && s.relay.to_work.len == 0)
      refl v

module _ (chunk : ℕ)
    (aead_encrypt aead_decrypt : ℕ → List ℕ → List ℕ → ℕ → List ℕ → List ℕ → Option (List ℕ)) where
  -- Whatever event is reported, whatever the sockets answer and whatever the AEAD does: a call on an
  -- open relay with well-formed rings leaves such a relay and succeeds, or closes it and fails.
  pub relay_process-Sound :
      (fd ev : ℕ) (send : List ℕ → Sent) (answer : Received) (s : State)
      → IsOpen s.relay
      → Sound (relay_process chunk aead_encrypt aead_decrypt fd ev send answer s)
  unfolding relay_process flush_part drain_part read_part
  relay_process-Sound fd ev send answer s v =
      by_test Sound s.relay.closed (λ shut. shut)
        (λ _.
          proceed-Sound (flush_part chunk aead_encrypt aead_decrypt fd ev send s) _ flushed
            (λ s₁ v₁.
              proceed-Sound (drain_part chunk aead_encrypt aead_decrypt fd (sync_buffer_metric s₁))
                _ (drained s₁ v₁)
                (λ s₂ v₂.
                  proceed-Sound
                    (read_part chunk aead_encrypt aead_decrypt fd ev answer (sync_buffer_metric s₂))
                    _ (read s₂ v₂)
                    (λ s₃ v₃. finish-Sound (sync_buffer_metric s₃) (sync-IsOpen s₃ v₃)))))
    where
      flushed : Kept (flush_part chunk aead_encrypt aead_decrypt fd ev send s)
      flushed = either_way Kept (bit_and ev 2 == 0) v (
          either_way Kept (fd == s.relay.direct) (flush_direct-Kept send s v)
            (flush_work-Kept send s v))

      drained :
          (t : State)
          → IsOpen t.relay
          → Kept (drain_part chunk aead_encrypt aead_decrypt fd (sync_buffer_metric t))
      drained t w =
          either_way Kept _ (decrypt_ready-Kept chunk aead_encrypt aead_decrypt _ (sync-IsOpen t w))
            (sync-IsOpen t w)

      read :
          (t : State)
          → IsOpen t.relay
          → Kept (read_part chunk aead_encrypt aead_decrypt fd ev answer (sync_buffer_metric t))
      read t w = either_way Kept (bit_and ev 1 == 0) (sync-IsOpen t w) (
          either_way Kept (fd == (sync_buffer_metric t).relay.direct)
            (read_direct-Kept chunk aead_encrypt aead_decrypt answer _ (sync-IsOpen t w))
            (read_work-Kept chunk aead_encrypt aead_decrypt answer _ (sync-IsOpen t w)))
