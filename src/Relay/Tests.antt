-- ===== src/Relay/Tests.antt =====
-- Records under a cipher that only appends sixteen bytes.
use ctunnel.Prelude.{
  ℕ, ◌+◌, ◌-◌, ◌%◌, ◌≤◌, ◌≡◌, refl, true, false, Option, none, some, List, [], ◌∷◌, ◌++◌, length,
  length-append, length-take, ltb, if◌then◌else◌, take, take-append, replicate, ap, arith,
}
use ctunnel.Wire.Ints.Laws.{big_endian}
use ctunnel.Ring.{Ring, IsRing}
use ctunnel.Ring.Refine.{contents, cells}
use ctunnel.Relay.{
  State, again, relay_events, encrypt_chunk, decrypt_round, decrypt_loop, decrypt_ready,
}
use ctunnel.Relay.Loop.{decrypt_ready_enough}
use ctunnel.Relay.Authentic.{IsShorter, HandsOn, decrypt_ready-HandsOn}
use ctunnel.Relay.Records.{IsSealing, Delivered, record_bytes, encrypt_chunk_lem, decrypt_round_lem}
use ctunnel.Relay.Process.{accepted, received, relay_process}
use ctunnel.Relay.Invariant.{Sound, relay_process-Sound}
use ctunnel.Relay.Pressure.{relay_process_overrun}
use ctunnel.Relay.Init.{relay_init}
use ctunnel.Relay.Setup.{relay_init-Sound}
use ctunnel.Relay.Stream.{records, joined, Drained, decrypt_ready_delivers}

abbrev seal : ℕ → List ℕ → List ℕ → List ℕ
seal q h p = p ++ replicate 16 q

abbrev close : ℕ → List ℕ → List ℕ → ℕ → List ℕ → List ℕ → Option (List ℕ)
close cipher key nonce q h p = some (seal q h p)

abbrev unseal : ℕ → List ℕ → List ℕ → ℕ → List ℕ → List ℕ → Option (List ℕ)
unseal cipher key nonce q h box = some (take (length box - 16) box)

sealing : (cipher : ℕ) (key nonce : List ℕ) → IsSealing 4 close unseal cipher key nonce seal
sealing cipher key nonce = record {
  sealed = λ q h p small. refl;
  tagged = λ q h p. length-append p (replicate 16 q);
  opened = λ q h p small. ap some (
      take-append (length (p ++ replicate 16 q) - 16) p (replicate 16 q)
        (omega (arith, length-append p (replicate 16 q))));
}

abbrev empty : Ring
empty = record { bytes = replicate 64 0; cap = 64; head = 60; len = 0 }

-- One record of two bytes, and the first byte of the next.
abbrev arrived : Ring
arrived = record {
  bytes =
      0 ∷ 0 ∷ 0 ∷ 18 ∷ 0 ∷ 0 ∷ 0 ∷ 0 ∷ 0 ∷ 0 ∷ 0 ∷ 1 ∷ 7 ∷ 8 ∷ 1 ∷ 1 ∷ 1 ∷ 1 ∷ 1 ∷ 1 ∷ 1 ∷ 1 ∷ 1 ∷ 1
      ∷ 1 ∷ 1 ∷ 1 ∷ 1 ∷ 1 ∷ 1 ∷ 0 ∷ [];
  cap = 31;
  head = 0;
  len = 31;
}

abbrev state : State
state = record {
  relay = record {
    direct = 3;
    work = 4;
    closed = false;
    direct_eof = false;
    work_eof = false;
    is_client = true;
    stream_accounted = true;
    proxy_header_pending = false;
    proxy_header_remaining = 0;
    accounted_buffer_bytes = 0;
    encrypted = true;
    cipher = 1;
    send_key = replicate 32 5;
    recv_key = replicate 32 6;
    send_nonce = [];
    recv_nonce = [];
    send_seq = 0;
    recv_seq = 0;
    work_input = arrived;
    to_direct = empty;
    to_work = empty;
  };
  metrics = replicate 37 0;
}

empty-IsRing : IsRing empty
empty-IsRing = record {
  memory = refl;
  small = omega arith;
  head_in = omega arith;
  len_in = omega arith;
}

arrived-IsRing : IsRing arrived
arrived-IsRing = record {
  memory = refl;
  small = omega arith;
  head_in = omega arith;
  len_in = omega arith;
}

encrypt_chunk_lem_example :
    let (ok, s') = encrypt_chunk 4 close unseal state (7 ∷ 8 ∷ []) in
    (ok ≡ true)
    × (contents s'.relay.to_work ≡ contents empty ++ record_bytes seal (0 + 1) (7 ∷ 8 ∷ []))
    × (s'.relay.send_seq ≡ 0 + 1)
    × IsRing s'.relay.to_work
unfolding relay_events
encrypt_chunk_lem_example =
    encrypt_chunk_lem state (7 ∷ 8 ∷ []) empty-IsRing (sealing 1 (replicate 32 5) []) (omega arith)
      (omega arith) (omega arith) refl

two_parts : contents arrived ≡ records seal 0 ((7 ∷ 8 ∷ []) ∷ []) ++ (0 ∷ [])
unfolding contents cells records big_endian
two_parts = refl

decrypt_ready_delivers_example :
    Drained state ((7 ∷ 8 ∷ []) ∷ []) (0 ∷ []) (decrypt_ready 4 close unseal state)
unfolding joined
decrypt_ready_delivers_example =
    decrypt_ready_delivers 4 close unseal seal state ((7 ∷ 8 ∷ []) ∷ []) (0 ∷ [])
      (record {
        input_ring = arrived-IsRing;
        output_ring = empty-IsRing;
        sealing = sealing 1 (replicate 32 6) [];
        chunk_small = omega arith;
      })
      two_parts (omega arith) (omega arith, tt) (omega arith) (omega arith)

decrypt_ready_enough_example :
    decrypt_loop 4 close unseal 40 state ≡ decrypt_ready 4 close unseal state
decrypt_ready_enough_example = decrypt_ready_enough 4 close unseal 40 state (omega arith)

first_round :
    (w : Ring) × (d : Ring) × (decrypt_round 4 close unseal state
      ≡ again (record state {
        relay = record state.relay { work_input = w; to_direct = d; recv_seq = 0 + 1 };
      }))
    × Delivered state (7 ∷ 8 ∷ []) (0 ∷ []) w d
unfolding contents cells big_endian
first_round =
    decrypt_round_lem state (7 ∷ 8 ∷ []) (0 ∷ []) arrived-IsRing empty-IsRing
      (sealing 1 (replicate 32 6) []) (omega arith) (omega arith) (omega arith) one_record
      (omega arith)
  where
    one_record : contents arrived ≡ record_bytes seal (0 + 1) (7 ∷ 8 ∷ []) ++ (0 ∷ [])
    one_record = refl

-- An AEAD that refuses what is too short for its tag.
abbrev open_box : ℕ → List ℕ → List ℕ → ℕ → List ℕ → List ℕ → Option (List ℕ)
open_box cipher key nonce q h box =
    if ltb (length box) 16 then none else some (take (length box - 16) box)

open_box-IsShorter : (cipher : ℕ) (key nonce : List ℕ) → IsShorter (open_box cipher key nonce)
open_box-IsShorter cipher key nonce seq header box plain e =
    let long : 16 ≤ length box = ground (arith, e) in
    let opened : take (length box - 16) box ≡ plain = ground (arith, e) in
    omega (arith, long, ap length opened, length-take (length box - 16) box)

decrypt_ready-HandsOn_example : HandsOn open_box state (decrypt_ready 4 close open_box state)
decrypt_ready-HandsOn_example =
    decrypt_ready-HandsOn 4 close open_box state arrived-IsRing empty-IsRing
      (open_box-IsShorter 1 (replicate 32 6) [])

-- The direct side is readable, and its peer has sent two bytes.
relay_process-Sound_example :
    Sound (relay_process 4 close unseal 3 3 (λ p. accepted 1) (received (7 ∷ 8 ∷ [])) state)
relay_process-Sound_example =
    relay_process-Sound 4 close unseal 3 3 (λ p. accepted 1) (received (7 ∷ 8 ∷ [])) state
      (record {
        open_still = refl;
        work_input_ring = arrived-IsRing;
        to_direct_ring = empty-IsRing;
        to_work_ring = empty-IsRing;
      })

relay_init-Sound_example : Sound (
    relay_init
      (λ family addr. none)
      (λ n. n ∷ [])
      true
      true
      64
      (some (replicate 64 0))
      (some (replicate 64 0))
      (some (replicate 64 0))
      (λ direction. some (replicate 32 direction, []))
      3
      4
      true
      0
      1
      none
      (replicate 37 0))
relay_init-Sound_example =
    relay_init-Sound (λ family addr. none) (λ n. n ∷ []) true true 64 (replicate 64 0)
      (replicate 64 0) (replicate 64 0) (λ direction. some (replicate 32 direction, [])) 3 4 true 0
      1 none (replicate 37 0) (omega arith) (omega arith) refl refl refl

-- A plain relay whose `to_direct` has three bytes left.
abbrev crowded : State
crowded = record state {
  relay = record state.relay {
    encrypted = false;
    work_input = empty;
    to_direct = record { bytes = replicate 64 9; cap = 64; head = 0; len = 61 };
  };
}

relay_process_overrun_example :
    let x =
      relay_process 4 close unseal 4 1 (λ p. accepted 1) (received (1 ∷ 2 ∷ 3 ∷ 4 ∷ [])) crowded in
    (relay_events 4 crowded.relay 4 % 2 ≡ 1) × (x.0 ≡ false) × (x.1.relay.closed ≡ true)
relay_process_overrun_example =
    relay_process_overrun 4 close unseal (λ p. accepted 1) crowded (1 ∷ 2 ∷ 3 ∷ 4 ∷ [])
      (record { memory = refl; small = omega arith; head_in = omega arith; len_in = omega arith })
      refl refl refl (λ e. omega (arith, e)) refl (omega arith) (omega arith)
