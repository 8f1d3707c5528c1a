-- ===== src/Relay/Records.antt =====
-- One record: how `encrypt_chunk` lays it out, and one round of `decrypt_ready` on it.
use ctunnel.Prelude.{
  ℕ, ◌+◌, ◌-◌, ◌%◌, ◌≤◌, ◌<◌, ◌^◌, ◌≡◌, refl, sym, ap, ap₂, ◌∙◌, true, Option, some, List, [], ◌++◌,
  append_assoc, append-nil, length, length-append, take, drop, take_all, take-append, drop-append,
  replicate, arith,
}
use ctunnel.Wire.Ints.{put_u32, put_u64, at}
use ctunnel.Wire.Ints.Laws.{big_endian, length-big_endian}
use ctunnel.Wire.Buffer.{IsFilled, put_u32-IsFilled, put_u64-IsFilled, empty-IsFilled}
use ctunnel.Wire.Record.{data_record_header_decode, data_record_header_decode_iff}
use ctunnel.Ring.{Ring, IsRing, ring_write, ring_read}
use ctunnel.Ring.Refine.{contents, length-contents}
use ctunnel.Ring.Write.{ring_write_refines}
use ctunnel.Ring.Read.{ring_read_refines}
use ctunnel.Relay.{
  Relay, State, again, append, relay_events, record_header, encrypt_append, encrypt_chunk,
  decrypt_append, decrypt_box, decrypt_round,
}
use native.Mathlib.Nat.{mod-eq_of_lt}

-- The header of a record of `n` plain bytes.
abbrev pub header_bytes : (n seq : ℕ) → List ℕ
header_bytes n seq = big_endian 4 (n + 16) ++ big_endian 8 seq

pub length-header_bytes : (n seq : ℕ) → length (header_bytes n seq) ≡ 12
length-header_bytes n seq = omega (
  arith,
  length-append (big_endian 4 (n + 16)) (big_endian 8 seq),
  length-big_endian 4 (n + 16),
  length-big_endian 8 seq,
)

pub record_header_lem : (n seq : ℕ) → n + 16 < 2 ^ 32 → record_header n seq ≡ header_bytes n seq
unfolding record_header
record_header_lem n seq h =
    rw (mod-eq_of_lt h) (sym (take_all 12 _ (omega (arith, filled.size))) ∙ filled.done)
  where
    filled :
        IsFilled
          (at 4 (λ q. put_u64 q seq) (put_u32 (replicate 12 0) (n + 16)))
          12
          12
          (header_bytes n seq)
    filled =
        put_u64-IsFilled
          (put_u32-IsFilled (empty-IsFilled (replicate 12 0)) (n + 16) 4 refl (omega arith)) seq 12
          refl (omega arith)

-- What fits is appended, and the call succeeds.
pub append_lem :
    (r : Ring) (p : List ℕ) (n : ℕ)
    → IsRing r
    → n ≡ length p
    → r.len + n ≤ r.cap
    → let (ok, r') = append r p n in
      (ok ≡ true)
      × (contents r' ≡ contents r ++ p)
      × (r'.len ≡ r.len + n)
      × (r'.cap ≡ r.cap)
      × IsRing r'
unfolding append
append_lem r p n v e room =
    let (k, c, l, cap', v') = ring_write_refines r p n v (omega arith) in
    let all : (ring_write r p n).0 ≡ n = omega (arith, k) in
    (
      ground (arith, all),
      c
          ∙ ap (λ (t : List ℕ). contents r ++ t)
              (ap (λ (t : ℕ). take t p) all ∙ take_all n p (omega arith)),
      l ∙ ap (λ (t : ℕ). r.len + t) all,
      cap',
      v',
    )

-- What one round of the loop does to the rings of the receiver.
pub record Delivered (s : State) (p more : List ℕ) (w d : Ring) : Type 0 where
  pub left : contents w ≡ more
  pub written : contents d ≡ contents s.relay.to_direct ++ p
  pub filled : d.len ≡ s.relay.to_direct.len + length p
  pub capacity : d.cap ≡ s.relay.to_direct.cap
  pub left_ring : IsRing w
  pub written_ring : IsRing d

-- Reading what stands at the front of a ring.
pub front_lem :
    (r : Ring) (front more : List ℕ) (n : ℕ)
    → IsRing r
    → length front ≡ n
    → contents r ≡ front ++ more
    → let (_, dst, r') = ring_read r n in
      (r.len ≡ n + length more) × (dst ≡ front) × (contents r' ≡ more) × IsRing r'
front_lem r front more n v e c =
    let (k, d, rest, _, _, v') = ring_read_refines r n v in
    let size : r.len ≡ n + length more =
      omega (arith, length-contents r, ap length c, length-append front more) in
    let all : (ring_read r n).0 ≡ n = omega (arith, k, size) in
    (
      size,
      d ∙ ap₂ take all c ∙ take-append n front more e,
      rest ∙ ap₂ drop all c ∙ drop-append n front more e,
      v',
    )

-- An AEAD under one key and nonce: `seal` is what it returns for a sequence number, associated data
-- and a plain text, 16 bytes longer than this, and opening it gives the plain text back.
pub record IsSealing (chunk : ℕ)
    (aead_encrypt aead_decrypt : ℕ → List ℕ → List ℕ → ℕ → List ℕ → List ℕ → Option (List ℕ))
    (cipher : ℕ) (key nonce : List ℕ) (seal : ℕ → List ℕ → List ℕ → List ℕ) : Type 0 where
  pub sealed :
      (q : ℕ) (h p : List ℕ)
      → length p ≤ chunk
      → aead_encrypt cipher key nonce q h p ≡ some (seal q h p)
  pub tagged : (q : ℕ) (h p : List ℕ) → length (seal q h p) ≡ length p + 16
  pub opened :
      (q : ℕ) (h p : List ℕ)
      → length p ≤ chunk
      → aead_decrypt cipher key nonce q h (seal q h p) ≡ some p

-- When the relay asks for input from its direct side.
asked_room :
    (chunk : ℕ) (r : Relay)
    → relay_events chunk r r.direct % 2 ≡ 1
    → r.to_work.len < r.to_work.cap - chunk - 32
unfolding relay_events
asked_room chunk r h = ground arith

-- A record on the work connection.
abbrev pub record_bytes : (seal : ℕ → List ℕ → List ℕ → List ℕ) (seq : ℕ) (p : List ℕ) → List ℕ
record_bytes seal seq p = header_bytes (length p) seq ++ seal seq (header_bytes (length p) seq) p

module _ {chunk : ℕ}
    {aead_encrypt aead_decrypt : ℕ → List ℕ → List ℕ → ℕ → List ℕ → List ℕ → Option (List ℕ)}
    {seal : ℕ → List ℕ → List ℕ → List ℕ} where
  -- When the relay asks for input from its direct side, a chunk from there always fits: it leaves as
  -- one record, under the next sequence number, behind what waits already, and the ring stays well
  -- formed.
  pub encrypt_chunk_lem :
      (s : State) (p : List ℕ)
      → IsRing s.relay.to_work
      → IsSealing chunk aead_encrypt aead_decrypt s.relay.cipher s.relay.send_key s.relay.send_nonce
          seal
      → length p ≤ chunk
      → chunk + 16 < 2 ^ 32
      → s.relay.send_seq < 2 ^ 64 - 1
      → relay_events chunk s.relay s.relay.direct % 2 ≡ 1
      → let (ok, s') = encrypt_chunk chunk aead_encrypt aead_decrypt s p in
        (ok ≡ true)
        × (contents s'.relay.to_work
            ≡ contents s.relay.to_work ++ record_bytes seal (s.relay.send_seq + 1) p)
        × (s'.relay.send_seq ≡ s.relay.send_seq + 1)
        × IsRing s'.relay.to_work
  unfolding encrypt_append encrypt_chunk
  encrypt_chunk_lem s p v a small chunk_small seq_small asked =
      let (ok, c, _, _, v') =
        append_lem s.relay.to_work (record_bytes seal seq p) (12 + length box) v size (
          omega (
            arith,
            a.tagged seq (header_bytes (length p) seq) p,
            asked_room chunk s.relay asked,
          )) in
      rw sent (ok, c, refl, v')
    where
      seq : ℕ
      seq = s.relay.send_seq + 1

      box : List ℕ
      box = seal seq (header_bytes (length p) seq) p

      size : 12 + length box ≡ length (record_bytes seal seq p)
      size = omega (
        arith,
        length-append (header_bytes (length p) seq) box,
        length-header_bytes (length p) seq,
      )

      sent :
          encrypt_chunk chunk aead_encrypt aead_decrypt s p
          ≡ encrypt_append chunk aead_encrypt aead_decrypt
              (record s { relay = record s.relay { send_seq = seq } })
              (header_bytes (length p) seq)
              (some box)
      sent = ground (
        arith,
        record_header_lem (length p) seq (omega arith),
        a.sealed seq (header_bytes (length p) seq) p small,
      )

  -- A whole record of the next sequence number at the front of `work_input`, with room for its plain
  -- text: the round takes the record from there, hands the plain text on, and goes on.
  pub decrypt_round_lem :
      (s : State) (p more : List ℕ)
      → IsRing s.relay.work_input
      → IsRing s.relay.to_direct
      → IsSealing chunk aead_encrypt aead_decrypt s.relay.cipher s.relay.recv_key s.relay.recv_nonce
          seal
      → length p ≤ chunk
      → chunk + 16 < 2 ^ 32
      → s.relay.recv_seq < 2 ^ 64 - 1
      → contents s.relay.work_input ≡ record_bytes seal (s.relay.recv_seq + 1) p ++ more
      → s.relay.to_direct.len + length p ≤ s.relay.to_direct.cap
      → (w : Ring) × (d : Ring) × (decrypt_round chunk aead_encrypt aead_decrypt s
          ≡ again (record s {
            relay = record s.relay {
              work_input = w;
              to_direct = d;
              recv_seq = s.relay.recv_seq + 1;
            };
          }))
        × Delivered s p more w d
  unfolding decrypt_round decrypt_box decrypt_append
  decrypt_round_lem s p more vw vd a small chunk_small seq_small e room = (
    (ring_read after_header n).2,
    (append s.relay.to_direct p (length p)).1,
    ground (arith, decoded, box_part.1, opened, enough, direct_part.0),
    record {
      left = box_part.2;
      written = direct_part.1;
      filled = direct_part.2;
      capacity = direct_part.3;
      left_ring = box_part.3;
      written_ring = direct_part.4;
    },
  )
    where
      seq : ℕ
      seq = s.relay.recv_seq + 1

      n : ℕ
      n = length p + 16

      header : List ℕ
      header = header_bytes (length p) seq

      box : List ℕ
      box = seal seq header p

      after_header : Ring
      after_header = (ring_read s.relay.work_input 12).2

      header_part :
          let (_, dst, r') = ring_read s.relay.work_input 12 in
          (s.relay.work_input.len ≡ 12 + length (box ++ more))
          × (dst ≡ header)
          × (contents r' ≡ box ++ more)
          × IsRing r'
      header_part =
          front_lem s.relay.work_input header (box ++ more) 12 vw
            (length-header_bytes (length p) seq) (e ∙ append_assoc header box more)

      enough : 12 + n ≤ s.relay.work_input.len
      enough = omega (arith, header_part.0, length-append box more, a.tagged seq header p)

      box_part :
          let (_, dst, r') = ring_read after_header n in
          (after_header.len ≡ n + length more) × (dst ≡ box) × (contents r' ≡ more) × IsRing r'
      box_part =
          front_lem after_header box more n header_part.3 (a.tagged seq header p) header_part.2

      direct_part :
          let (ok, r') = append s.relay.to_direct p (length p) in
          (ok ≡ true)
          × (contents r' ≡ contents s.relay.to_direct ++ p)
          × (r'.len ≡ s.relay.to_direct.len + length p)
          × (r'.cap ≡ s.relay.to_direct.cap)
          × IsRing r'
      direct_part = append_lem s.relay.to_direct p (length p) vd refl room

      opened :
          aead_decrypt s.relay.cipher s.relay.recv_key s.relay.recv_nonce seq
            (ring_read s.relay.work_input 12).1
            box
          ≡ some p
      opened =
          ap
            (λ (h : List ℕ).
              aead_decrypt s.relay.cipher s.relay.recv_key s.relay.recv_nonce seq h box)
            header_part.1
          ∙ a.opened seq header p small

      decoded :
          data_record_header_decode (ring_read s.relay.work_input 12).1 chunk s.relay.recv_seq
          ≡ some (n, seq)
      decoded =
          ap (λ (h : List ℕ). data_record_header_decode h chunk s.relay.recv_seq)
            (header_part.1
              ∙ ap (λ (t : List ℕ). big_endian 4 n ++ t) (sym (append-nil (big_endian 8 seq))))
          ∙ data_record_header_decode_iff n seq chunk s.relay.recv_seq [] (omega arith)
              (omega arith) chunk_small
          ∙ ground arith
