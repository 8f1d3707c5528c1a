-- ===== src/Relay/Loop.antt =====
-- The loop of `decrypt_ready` of src/net/relay.c, round by round.
use ctunnel.Prelude.{
  ℕ, zero, suc, ◌+◌, ◌≤◌, ◌<◌, ◌≡◌, refl, sym, ap, true, Option, none, some, List, arith,
}
use ctunnel.Ring.{Ring, ring_read}
use ctunnel.Wire.Record.{data_record_header_decode, decode_facts}
use ctunnel.Relay.{
  State, Step, return, again, resume, decrypt_append, decrypt_box, decrypt_round, decrypt_loop,
  decrypt_ready,
}

module _ (chunk : ℕ)
    (aead_encrypt aead_decrypt : ℕ → List ℕ → List ℕ → ℕ → List ℕ → List ℕ → Option (List ℕ)) where
  append_again :
      (s s' : State) (seq : ℕ) (o : Option (List ℕ))
      → decrypt_append chunk aead_encrypt aead_decrypt s seq o ≡ again s'
      → (s'.relay.recv_seq ≡ seq) × (s'.relay.work_input.len ≡ s.relay.work_input.len)
  unfolding decrypt_append
  append_again s s' seq none e = ground arith
  append_again s s' seq (some plain) e = ground arith

  two_reads :
      (r : Ring) (n : ℕ)
      → 12 + n ≤ r.len
      → (ring_read (ring_read r 12).2 n).2.len + (12 + n) ≡ r.len
  unfolding ring_read
  two_reads r n h = ground arith

  -- Less than a header ends the loop.
  stopped :
      (s : State)
      → s.relay.work_input.len < 12
      → decrypt_round chunk aead_encrypt aead_decrypt s ≡ return true s
  unfolding decrypt_round
  stopped s h = ground arith

  box_again :
      (s s' : State) (o : Option (ℕ × ℕ))
      → decrypt_box chunk aead_encrypt aead_decrypt s o ≡ again s'
      → (n : ℕ) × (o ≡ some (n, s'.relay.recv_seq))
        × (s'.relay.work_input.len + (12 + n) ≡ s.relay.work_input.len)
  unfolding decrypt_box
  box_again s s' none e = ground arith
  box_again s s' (some (n, seq)) e =
      let (kept, next) = passed in
      let (seq_same, size_same) = append_again after s' seq opened next in
      (
        n,
        ap (λ (q : ℕ). some (n, q)) (sym seq_same),
        omega (arith, size_same, two_reads s.relay.work_input n kept, kept),
      )
    where
      after_header : Ring
      after_header = (ring_read s.relay.work_input 12).2

      after : State
      after = record s { relay = record s.relay { work_input = (ring_read after_header n).2 } }

      opened : Option (List ℕ)
      opened =
          aead_decrypt s.relay.cipher s.relay.recv_key s.relay.recv_nonce seq
            (ring_read s.relay.work_input 12).1 (ring_read after_header n).1

      passed :
          (12 + n ≤ s.relay.work_input.len)
          × (decrypt_append chunk aead_encrypt aead_decrypt after seq opened ≡ again s')
      passed = ground arith

  -- A round of `decrypt_ready` that goes on has taken a record of the next sequence number, of 28 bytes
  -- at least, from the ring, and counted it.
  decrypt_round_again :
      (s s' : State)
      → decrypt_round chunk aead_encrypt aead_decrypt s ≡ again s'
      → (s'.relay.recv_seq ≡ s.relay.recv_seq + 1)
        × (s'.relay.work_input.len + 28 ≤ s.relay.work_input.len)
  unfolding decrypt_round
  decrypt_round_again s s' e =
      let (n, decoded, shrunk) =
        box_again s s' (data_record_header_decode header chunk s.relay.recv_seq) reached in
      let (_, _, next, tagged, _) = decode_facts header chunk s.relay.recv_seq decoded in
      (next, omega (arith, tagged, shrunk))
    where
      header : List ℕ
      header = (ring_read s.relay.work_input 12).1

      reached :
          decrypt_box chunk aead_encrypt aead_decrypt s
            (data_record_header_decode header chunk s.relay.recv_seq)
          ≡ again s'
      reached = ground arith

  -- Enough fuel is as good as any other: the loop ends by its own conditions.
  loop_enough :
      (f g : ℕ) (s : State)
      → s.relay.work_input.len ≤ f
      → s.relay.work_input.len ≤ g
      → decrypt_loop chunk aead_encrypt aead_decrypt f s
        ≡ decrypt_loop chunk aead_encrypt aead_decrypt g s
  unfolding decrypt_loop resume
  loop_enough zero zero s hf hg = refl
  loop_enough zero (suc g) s hf hg = rw (stopped s (omega arith)) refl
  loop_enough (suc f) zero s hf hg = rw (stopped s (omega arith)) refl
  loop_enough (suc f) (suc g) s hf hg =
      step (decrypt_round chunk aead_encrypt aead_decrypt s) (λ t. loop_enough f g t) refl
    where
      step :
          (x : Step)
          → ((t : State)
              → t.relay.work_input.len ≤ f
              → t.relay.work_input.len ≤ g
              → decrypt_loop chunk aead_encrypt aead_decrypt f t
                ≡ decrypt_loop chunk aead_encrypt aead_decrypt g t)
          → decrypt_round chunk aead_encrypt aead_decrypt s ≡ x
          → resume (decrypt_loop chunk aead_encrypt aead_decrypt f) x
            ≡ resume (decrypt_loop chunk aead_encrypt aead_decrypt g) x
      step (return ok t) ih e = refl
      step (again t) ih e =
          ih t (omega (arith, decrypt_round_again s t e)) (omega (arith, decrypt_round_again s t e))

  -- The loop of `decrypt_ready` ends: any fuel of at least the bytes that wait gives the same result,
  -- so the model never stops for want of fuel.
  pub decrypt_ready_enough :
      (fuel : ℕ) (s : State)
      → s.relay.work_input.len ≤ fuel
      → decrypt_loop chunk aead_encrypt aead_decrypt fuel s
        ≡ decrypt_ready chunk aead_encrypt aead_decrypt s
  unfolding decrypt_ready
  decrypt_ready_enough fuel s h = loop_enough fuel s.relay.work_input.len s h (omega arith)
