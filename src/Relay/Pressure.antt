-- ===== src/Relay/Pressure.antt =====
-- When a relay of src/net/relay.c asks for input, and input that does not fit.
use ctunnel.Prelude.{
  ℕ, ◌+◌, ◌-◌, ◌%◌, ◌<◌, ◌≡◌, ◌≢◌, ◌==◌, ◌∙◌, ap, if◌then◌else◌, refl, Bool, true, false, Option,
  List, length, arith,
}
use ctunnel.Ring.{Ring, IsRing}
use ctunnel.Ring.Write.{ring_write_refines}
use ctunnel.Relay.{State, append, relay_events}
use ctunnel.Relay.Process.{
  Sent, Received, received, metric_bytes, read_work, relay_close, proceed, finish,
  sync_buffer_metric, flush_part, drain_part, read_part, relay_process,
}

-- What does not fit fails.
append_full :
    (r : Ring) (p : List ℕ)
    → IsRing r
    → r.cap - r.len < length p
    → (append r p (length p)).0 ≡ false
unfolding append
append_full r p v h = ground (arith, (ring_write_refines r p (length p) v (omega arith)).0)

-- A part that fails closes the relay.
proceed_failed :
    (x : Bool × State) (next : State → Bool × State)
    → x.0 ≡ false
    → ((proceed x next).0 ≡ false) × ((proceed x next).1.relay.closed ≡ true)
unfolding proceed relay_close
proceed_failed (true, s) next e = absurd (cc e)
proceed_failed (false, s) next e = (refl, refl)

module _ (chunk : ℕ)
    (aead_encrypt aead_decrypt : ℕ → List ℕ → List ℕ → ℕ → List ℕ → List ℕ → Option (List ℕ)) where
  read_work_full :
      (s : State) (b : List ℕ)
      → IsRing s.relay.to_direct
      → s.relay.encrypted ≡ false
      → s.relay.to_direct.cap - s.relay.to_direct.len < length b
      → (read_work chunk aead_encrypt aead_decrypt (received b) s).0 ≡ false
  unfolding read_work metric_bytes
  read_work_full s b v plain full = ground (arith, plain, append_full s.relay.to_direct b v full)

  drain_none :
      (fd : ℕ) (s : State)
      → (fd == s.relay.direct) ≡ false
      → drain_part chunk aead_encrypt aead_decrypt fd s ≡ (true, s)
  unfolding drain_part
  drain_none fd s other = rw other refl

  reads_work :
      (fd : ℕ) (answer : Received) (s : State)
      → (fd == s.relay.direct) ≡ false
      → read_part chunk aead_encrypt aead_decrypt fd 1 answer s
        ≡ read_work chunk aead_encrypt aead_decrypt answer s
  unfolding read_part
  reads_work fd answer s other = rw other refl

  -- A call for input of the work connection reads it.
  process_reads :
      (send : List ℕ → Sent) (answer : Received) (s : State)
      → s.relay.closed ≡ false
      → (s.relay.work == s.relay.direct) ≡ false
      → relay_process chunk aead_encrypt aead_decrypt s.relay.work 1 send answer s
        ≡ proceed
            (read_work chunk aead_encrypt aead_decrypt answer
              (sync_buffer_metric (sync_buffer_metric s)))
            (λ t. finish (sync_buffer_metric t))
  unfolding relay_process flush_part proceed sync_buffer_metric
  process_reads send answer s open_still other =
      ap
        (λ (c : Bool).
          if c
          then (false, s)
          else (proceed
              (drain_part chunk aead_encrypt aead_decrypt s.relay.work (sync_buffer_metric s))
              (λ s₂.
                proceed
                  (read_part chunk aead_encrypt aead_decrypt s.relay.work 1 answer
                    (sync_buffer_metric s₂))
                  (λ s₃. finish (sync_buffer_metric s₃)))))
        open_still
      ∙ ap
          (λ (x : Bool × State). proceed x (λ s₂.
            proceed
              (read_part chunk aead_encrypt aead_decrypt s.relay.work 1 answer
                (sync_buffer_metric s₂))
              (λ s₃. finish (sync_buffer_metric s₃))))
          (drain_none s.relay.work (sync_buffer_metric s) other)
      ∙ ap (λ (x : Bool × State). proceed x (λ t. finish (sync_buffer_metric t)))
          (reads_work s.relay.work answer (sync_buffer_metric (sync_buffer_metric s)) other)

  -- An open relay without encryption, whose work connection is not at its end and not also its
  -- direct side, whose `work_input` is empty and larger than a chunk and 32 bytes, and whose ring
  -- `to_direct` is well formed: it asks for input from the work connection even when `to_direct` is
  -- full. When a call for input alone reads more bytes than `to_direct` has room for, it fails, and
  -- the relay is closed.
  pub relay_process_overrun :
      (send : List ℕ → Sent) (s : State) (b : List ℕ)
      → IsRing s.relay.to_direct
      → s.relay.closed ≡ false
      → s.relay.work_eof ≡ false
      → s.relay.encrypted ≡ false
      → s.relay.work ≢ s.relay.direct
      → s.relay.work_input.len ≡ 0
      → chunk + 32 < s.relay.work_input.cap
      → s.relay.to_direct.cap - s.relay.to_direct.len < length b
      → let x = relay_process chunk aead_encrypt aead_decrypt s.relay.work 1 send (received b) s in
        (relay_events chunk s.relay s.relay.work % 2 ≡ 1)
        × (x.0 ≡ false)
        × (x.1.relay.closed ≡ true)
  unfolding relay_events sync_buffer_metric
  relay_process_overrun send s b v open_still more plain apart empty room full =
      let reads = process_reads send (received b) s open_still (ground (arith, apart)) in
      let (fails, closes) =
        proceed_failed
          (read_work chunk aead_encrypt aead_decrypt (received b)
            (sync_buffer_metric (sync_buffer_metric s)))
          (λ t. finish (sync_buffer_metric t)) (read_work_full _ b v plain full) in
      (
        ground arith,
        ap (λ (x : Bool × State). x.0) reads ∙ fails,
        ap (λ (x : Bool × State). x.1.relay.closed) reads ∙ closes,
      )
