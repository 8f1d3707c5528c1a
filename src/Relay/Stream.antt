-- ===== src/Relay/Stream.antt =====
-- A sequence of records in front of `decrypt_ready` of src/net/relay.c.
use ctunnel.Prelude.{
  ℕ, zero, suc, ◌+◌, ◌≤◌, ◌<◌, ◌^◌, ◌≡◌, refl, sym, ap, ◌∙◌, Bool, true, Option, List, [], ◌∷◌,
  ◌++◌, append_assoc, append-nil, length, length-append, arith,
}
use ctunnel.Ring.{IsRing}
use ctunnel.Ring.Refine.{contents, length-contents}
use ctunnel.Relay.{State, resume, decrypt_round, decrypt_loop, decrypt_ready}
use ctunnel.Relay.Records.{
  IsSealing, record_bytes, header_bytes, length-header_bytes, decrypt_round_lem,
}

-- The records of the chunks `ps` behind the sequence number `seq`.
unfoldable pub records : (seal : ℕ → List ℕ → List ℕ → List ℕ) (seq : ℕ) → List (List ℕ) → List ℕ
records seal seq [] = []
records seal seq (p ∷ ps) = record_bytes seal (seq + 1) p ++ records seal (seq + 1) ps

unfoldable pub joined : List (List ℕ) → List ℕ
joined [] = []
joined (p ∷ ps) = p ++ joined ps

-- Every chunk is within the limit.
abbrev pub Within : ℕ → List (List ℕ) → Type 0
Within chunk [] = Unit
Within chunk (p ∷ ps) = (length p ≤ chunk) × Within chunk ps

-- The receiver's half of the connection.
pub record IsReceiving (chunk : ℕ)
    (aead_encrypt aead_decrypt : ℕ → List ℕ → List ℕ → ℕ → List ℕ → List ℕ → Option (List ℕ))
    (seal : ℕ → List ℕ → List ℕ → List ℕ) (s : State) : Type 0 where
  pub input_ring : IsRing s.relay.work_input
  pub output_ring : IsRing s.relay.to_direct
  pub sealing :
      IsSealing chunk aead_encrypt aead_decrypt s.relay.cipher s.relay.recv_key s.relay.recv_nonce
        seal
  pub chunk_small : chunk + 16 < 2 ^ 32

-- What a run of the loop achieves.
pub record Drained (s : State) (ps : List (List ℕ)) (partial : List ℕ) (r : Bool × State)
    : Type 0 where
  pub success : r.0 ≡ true
  pub delivered : contents r.1.relay.to_direct ≡ contents s.relay.to_direct ++ joined ps
  pub kept : contents r.1.relay.work_input ≡ partial
  pub counted : r.1.relay.recv_seq ≡ s.relay.recv_seq + length ps
  pub input_ring : IsRing r.1.relay.work_input
  pub output_ring : IsRing r.1.relay.to_direct

module _ (chunk : ℕ)
    (aead_encrypt aead_decrypt : ℕ → List ℕ → List ℕ → ℕ → List ℕ → List ℕ → Option (List ℕ)) where
  -- Less than a header waits: the loop ends.
  idle :
      (fuel : ℕ) (s : State)
      → s.relay.work_input.len < 12
      → decrypt_loop chunk aead_encrypt aead_decrypt fuel s ≡ (true, s)
  unfolding decrypt_loop decrypt_round resume
  idle zero s h = refl
  idle (suc fuel) s h = ground arith

  drained :
      (seal : ℕ → List ℕ → List ℕ → List ℕ) (fuel : ℕ) (s : State) (ps : List (List ℕ))
      (partial : List ℕ)
      → IsReceiving chunk aead_encrypt aead_decrypt seal s
      → contents s.relay.work_input ≡ records seal s.relay.recv_seq ps ++ partial
      → length partial < 12
      → Within chunk ps
      → s.relay.recv_seq + length ps < 2 ^ 64
      → s.relay.to_direct.len + length (joined ps) ≤ s.relay.to_direct.cap
      → length ps ≤ fuel
      → Drained s ps partial (decrypt_loop chunk aead_encrypt aead_decrypt fuel s)
  unfolding decrypt_loop records joined resume
  drained seal fuel s [] partial v e short within small room enough =
      rw (idle fuel s (omega (arith, length-contents s.relay.work_input, ap length e))) (record {
        success = refl;
        delivered = sym (append-nil (contents s.relay.to_direct));
        kept = e;
        counted = omega arith;
        input_ring = v.input_ring;
        output_ring = v.output_ring;
      })
  drained seal zero s (p ∷ ps) partial v e short within small room enough = absurd (omega arith)
  drained seal (suc fuel) s (p ∷ ps) partial v e short within small room enough =
      let (w, d, round, one) =
        decrypt_round_lem s p (records seal (s.relay.recv_seq + 1) ps ++ partial) v.input_ring
          v.output_ring v.sealing within.0 v.chunk_small (omega arith)
          (e
            ∙ append_assoc (record_bytes seal (s.relay.recv_seq + 1) p)
                (records seal (s.relay.recv_seq + 1) ps) partial)
          (omega (arith, size)) in
      let rest =
        drained seal fuel
          (record s {
            relay = record s.relay {
              work_input = w;
              to_direct = d;
              recv_seq = s.relay.recv_seq + 1;
            };
          })
          ps partial
          (record {
            input_ring = one.left_ring;
            output_ring = one.written_ring;
            sealing = v.sealing;
            chunk_small = v.chunk_small;
          })
          one.left short within.1 (omega arith) (omega (arith, one.filled, one.capacity, size))
          (omega arith) in
      rw round (record {
        success = rest.success;
        delivered =
            rest.delivered
            ∙ ap (λ (t : List ℕ). t ++ joined ps) one.written
            ∙ append_assoc (contents s.relay.to_direct) p (joined ps);
        kept = rest.kept;
        counted = omega (arith, rest.counted);
        input_ring = rest.input_ring;
        output_ring = rest.output_ring;
      })
    where
      size : length (p ++ joined ps) ≡ length p + length (joined ps)
      size = length-append p (joined ps)

  -- Every record is longer than 28 bytes, so there are fewer of them than bytes.
  records_bound :
      (seal : ℕ → List ℕ → List ℕ → List ℕ) (seq : ℕ) (ps : List (List ℕ))
      → length ps ≤ length (records seal seq ps)
  unfolding records
  records_bound seal seq [] = omega arith
  records_bound seal seq (p ∷ ps) = omega (
    arith,
    length-append (record_bytes seal (seq + 1) p) (records seal (seq + 1) ps),
    length-append (header_bytes (length p) (seq + 1))
        (seal (seq + 1) (header_bytes (length p) (seq + 1)) p),
    length-header_bytes (length p) (seq + 1),
    records_bound seal (seq + 1) ps,
  )

  -- Whatever chunks the sender sealed under consecutive sequence numbers, and however the bytes
  -- arrived: once their records stand in `work_input`, with less than a header of the next behind
  -- them, and the other ring has room, `decrypt_ready` succeeds, appends the plain texts of all of them
  -- in their order, keeps the bytes behind them, and has counted every record.
  pub decrypt_ready_delivers :
      (seal : ℕ → List ℕ → List ℕ → List ℕ) (s : State) (ps : List (List ℕ)) (partial : List ℕ)
      → IsReceiving chunk aead_encrypt aead_decrypt seal s
      → contents s.relay.work_input ≡ records seal s.relay.recv_seq ps ++ partial
      → length partial < 12
      → Within chunk ps
      → s.relay.recv_seq + length ps < 2 ^ 64
      → s.relay.to_direct.len + length (joined ps) ≤ s.relay.to_direct.cap
      → Drained s ps partial (decrypt_ready chunk aead_encrypt aead_decrypt s)
  unfolding decrypt_ready
  decrypt_ready_delivers seal s ps partial v e short within small room =
      drained seal s.relay.work_input.len s ps partial v e short within small room (
        omega (
          arith,
          length-contents s.relay.work_input,
          ap length e,
          length-append (records seal s.relay.recv_seq ps) partial,
          records_bound seal s.relay.recv_seq ps,
        ))
