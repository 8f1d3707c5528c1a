-- ===== src/Datagram/RoundTrip.antt =====
-- Packing and unpacking a datagram: `ct_udp_datagram_pack` and `ct_udp_datagram_unpack` of
-- src/net/net.c.
use ctunnel.Prelude.{
  ℕ, ◌+◌, ◌≤◌, ◌<◌, ◌^◌, ◌≡◌, refl, sym, ap, ◌∙◌, subst, some, List, ◌∷◌, ◌++◌, append_assoc,
  length, length-append, take, take_all, drop, drop-drop, drop-append, blit, arith,
}
use ctunnel.Wire.Ints.{put_u16, get_u16, get_u64, at}
use ctunnel.Wire.Ints.Laws.{big_endian, length-big_endian}
use ctunnel.Wire.Ints.Read.{get_u16-big_endian, get_u64-big_endian}
use ctunnel.Wire.Buffer.{
  IsFilled, blit-IsFilled, put_u16-IsFilled, put_u64-IsFilled, set-IsFilled, empty-IsFilled,
}
use ctunnel.Wire.Text.{pack_string_write, unpack_string}
use ctunnel.Wire.Text.Laws.{
  packed, length-packed, pack_string_fits, pack_string_write-IsFilled, unpack_string-packed,
}
use ctunnel.Datagram.{
  Datagram, address_length, udp_endpoint_write, udp_endpoint_decode, udp_datagram_head,
  udp_datagram_payload, udp_datagram_pack, udp_datagram_unpack,
}
use ctunnel.Datagram.Endpoints.{
  IsEndpoint, endpoint_bytes, canonical, length-endpoint_bytes, udp_endpoint_encode_fits,
  udp_endpoint_write-IsFilled, udp_endpoint_decode-bytes,
}
use native.Mathlib.Nat.{mod-eq_of_lt}

-- The fields fit what they travel in.
pub record IsDatagram (max_service_id : ℕ) (d : Datagram) : Type 0 where
  pub session_u64 : d.session_id < 2 ^ 64
  pub sequence_u64 : d.sequence < 2 ^ 64
  pub service_fits : length d.service ≤ max_service_id
  pub service_small : length d.service < 2 ^ 16
  pub payload_small : length d.payload < 2 ^ 16
  pub peer_valid : IsEndpoint d.peer

-- The size of a packed datagram.
abbrev pub datagram_size : Datagram → ℕ
datagram_size d =
    0
    + 17
    + (2 + length d.service)
    + (1 + address_length d.peer.family + 2)
    + (2 + length d.payload)

module _ {max_service_id : ℕ} {d : Datagram} (v : IsDatagram max_service_id d) where
  open d use {direction, session_id, sequence, service, peer, payload}

  abbrev o₂ : ℕ
  o₂ = 0 + 17 + (2 + length service)

  abbrev o₃ : ℕ
  o₃ = o₂ + (1 + address_length peer.family + 2)

  abbrev head : List ℕ
  head = direction ∷ (big_endian 8 session_id ++ big_endian 8 sequence)

  abbrev datagram_bytes : List ℕ
  datagram_bytes =
      head
      ++ (packed service ++ (endpoint_bytes peer ++ (big_endian 2 (length payload) ++ payload)))

  length-head : length head ≡ 17
  length-head = omega (
    arith,
    length-append (big_endian 8 session_id) (big_endian 8 sequence),
    length-big_endian 8 session_id,
    length-big_endian 8 sequence,
  )

  -- Reading the bytes.
  unpack_bytes :
      (size : ℕ)
      → size ≡ datagram_size d
      → udp_datagram_unpack max_service_id datagram_bytes size
        ≡ some (record d { peer = canonical peer })
  unfolding udp_datagram_unpack
  unpack_bytes size e = ground (arith, text, endpoint, session, seq, counted, body)
    where
      tail₃ : List ℕ
      tail₃ = big_endian 2 (length payload) ++ payload

      tail₂ : List ℕ
      tail₂ = endpoint_bytes peer ++ tail₃

      text :
          unpack_string datagram_bytes size 17 (max_service_id + 1)
          ≡ some (service, 17 + (2 + length service))
      text =
          unpack_string-packed head service tail₂ size 17 (max_service_id + 1) length-head
            v.service_small (omega (arith, v.service_fits)) (omega arith)

      prefix : List ℕ
      prefix = head ++ packed service

      length-prefix : length prefix ≡ 17 + (2 + length service)
      length-prefix =
          omega (arith, length-append head (packed service), length-head, length-packed service)

      endpoint :
          udp_endpoint_decode datagram_bytes size (17 + (2 + length service))
          ≡ some (canonical peer, 17 + (2 + length service) + (1 + address_length peer.family + 2))
      endpoint =
          ap (λ (t : List ℕ). udp_endpoint_decode t size (17 + (2 + length service)))
            (sym (append_assoc head (packed service) tail₂))
          ∙ udp_endpoint_decode-bytes v.peer_valid prefix tail₃ size (17 + (2 + length service))
              length-prefix (omega arith)

      session : get_u64 (drop 1 datagram_bytes) ≡ session_id
      session =
          ap get_u64 (
            append_assoc (big_endian 8 session_id) (big_endian 8 sequence)
              (packed service ++ tail₂))
          ∙ get_u64-big_endian session_id (big_endian 8 sequence ++ (packed service ++ tail₂))
              v.session_u64

      seq : get_u64 (drop 9 datagram_bytes) ≡ sequence
      seq =
          ap get_u64 (
            ap (drop 8) (
              append_assoc (big_endian 8 session_id) (big_endian 8 sequence)
                (packed service ++ tail₂))
            ∙ drop-append 8 (big_endian 8 session_id)
                (big_endian 8 sequence ++ (packed service ++ tail₂))
                (length-big_endian 8 session_id))
          ∙ get_u64-big_endian sequence (packed service ++ tail₂) v.sequence_u64

      p₃ : ℕ
      p₃ = 17 + (2 + length service) + (1 + address_length peer.family + 2)

      at₃ : drop p₃ datagram_bytes ≡ tail₃
      at₃ =
          ap (drop p₃) (
            sym (append_assoc head (packed service) tail₂)
            ∙ sym (append_assoc prefix (endpoint_bytes peer) tail₃))
          ∙ drop-append p₃ (prefix ++ endpoint_bytes peer) tail₃ (
              omega (
                arith,
                length-append prefix (endpoint_bytes peer),
                length-prefix,
                length-endpoint_bytes v.peer_valid,
              ))

      counted : get_u16 (drop p₃ datagram_bytes) ≡ length payload
      counted = ap get_u16 at₃ ∙ get_u16-big_endian (length payload) payload v.payload_small

      body : take (length payload) (drop (p₃ + 2) datagram_bytes) ≡ payload
      body =
          ap (take (length payload)) (
            sym (drop-drop 2 p₃ datagram_bytes)
            ∙ ap (drop 2) at₃
            ∙ drop-append 2 (big_endian 2 (length payload)) payload
                (length-big_endian 2 (length payload)))
          ∙ take_all (length payload) payload (omega arith)

  -- Writing them.
  module _ (b : List ℕ) (room : datagram_size d ≤ length b) where
    head-IsFilled : IsFilled (udp_datagram_head b 0 d) (length b) (0 + 17) head
    unfolding udp_datagram_head
    head-IsFilled =
        put_u64-IsFilled
          (put_u64-IsFilled (set-IsFilled (empty-IsFilled b) direction (0 + 1) refl (omega arith))
            session_id (0 + 9) refl (omega arith))
          sequence (0 + 17) refl (omega arith)

    with_service : List ℕ
    with_service = pack_string_write (udp_datagram_head b 0 d) (0 + 17) service

    with_peer : List ℕ
    with_peer = udp_endpoint_write with_service o₂ peer

    with_peer-IsFilled :
        IsFilled with_peer (length b) o₃ ((head ++ packed service) ++ endpoint_bytes peer)
    unfolding with_peer with_service
    with_peer-IsFilled =
        udp_endpoint_write-IsFilled v.peer_valid
          (pack_string_write-IsFilled service head-IsFilled (omega (arith, v.service_small))
            (omega arith))
          (omega arith)

    packed-IsFilled :
        IsFilled
          (udp_datagram_payload with_peer o₃ payload)
          (length b)
          (datagram_size d)
          datagram_bytes
    unfolding udp_datagram_payload
    packed-IsFilled = rw (mod-eq_of_lt v.payload_small) (
        subst
          (λ (t : List ℕ).
            IsFilled (blit (o₃ + 2) payload (at o₃ (λ q. put_u16 q (length payload)) with_peer))
              (length b) (datagram_size d) t)
          shape
          (blit-IsFilled
            (put_u16-IsFilled with_peer-IsFilled (length payload) (o₃ + 2) refl (omega arith))
            payload (datagram_size d) (omega arith) room))
      where
        shape :
            (((head ++ packed service) ++ endpoint_bytes peer) ++ big_endian 2 (length payload))
              ++ payload
            ≡ datagram_bytes
        shape = simp append_assoc

    pack_lem :
        udp_datagram_pack max_service_id b (length b) 0 d
        ≡ some (udp_datagram_payload with_peer o₃ payload, datagram_size d)
    unfolding udp_datagram_pack with_peer with_service
    pack_lem = ground (
      arith,
      v.payload_small,
      pack_string_fits (udp_datagram_head b 0 d) (length b) (0 + 17) service max_service_id,
      udp_endpoint_encode_fits v.peer_valid
          (pack_string_write (udp_datagram_head b 0 d) (0 + 17) service) (length b) o₂,
    )

-- A datagram whose fields fit is packed into any buffer that has room for it, inside that buffer; the
-- bytes, read with their number, give it back, with the 16 bytes of the peer's address cleared behind
-- the address itself.
pub udp_datagram_round_trip :
    (max_service_id : ℕ) (d : Datagram) (b : List ℕ)
    → IsDatagram max_service_id d
    → datagram_size d ≤ length b
    → (out : List ℕ × ℕ) × (udp_datagram_pack max_service_id b (length b) 0 d ≡ some out)
      × (length out.0 ≡ length b)
      × (out.1 ≡ datagram_size d)
      × (udp_datagram_unpack max_service_id (take out.1 out.0) out.1
          ≡ some (record d { peer = canonical d.peer }))
udp_datagram_round_trip max_service_id d b v room =
    let filled = packed-IsFilled v b room in
    (
      (udp_datagram_payload (with_peer v b room) (o₃ v) d.payload, datagram_size d),
      pack_lem v b room,
      filled.size,
      refl,
      rw filled.done (unpack_bytes v (datagram_size d) refl),
    )
