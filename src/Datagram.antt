-- ===== src/Datagram.antt =====
-- src/net/net.c: endpoints and UDP datagrams as they travel in control frames.
pub mod Endpoints
pub mod RoundTrip
mod Tests
use ctunnel.Prelude.{
  ℕ, ◌+◌, ◌-◌, ◌%◌, ◌^◌, ◌||◌, not, Option, none, some, ◌>>=◌, ◌>>◌, guard, List, ◌++◌, ltb, leb,
  ◌==◌, if◌then◌else◌, get_or, set, length, take, drop, replicate, blit,
}
use ctunnel.Types.{Endpoint}
use ctunnel.Wire.Ints.{put_u16, put_u64, get_u16, get_u64, at}
use ctunnel.Wire.Text.{pack_string, unpack_string}

-- 0 for a family that is not IPv4 or IPv6.
unfoldable pub address_length : ℕ → ℕ
address_length family = if family == 4 then 4 else if family == 6 then 16 else 0

-- The writes of `ct_udp_endpoint_encode`.
unfoldable pub udp_endpoint_write : List ℕ → (offset : ℕ) → Endpoint → List ℕ
udp_endpoint_write buffer offset e =
    let n = address_length e.family in
    let b₁ = set buffer offset e.family in
    let b₂ = blit (offset + 1) (take n e.addr) b₁ in at (offset + 1 + n) (λ q. put_u16 q e.port) b₂

unfoldable pub udp_endpoint_encode : List ℕ → (capacity offset : ℕ) → Endpoint → Option (List ℕ × ℕ)
udp_endpoint_encode buffer capacity offset e =
    let n = address_length e.family in
    if n == 0 || ltb capacity offset || ltb (capacity - offset) (1 + n + 2)
    then none
    else some (udp_endpoint_write buffer offset e, offset + (1 + n + 2))

-- The address is copied into 16 zero bytes.
unfoldable pub udp_endpoint_decode : List ℕ → (size offset : ℕ) → Option (Endpoint × ℕ)
udp_endpoint_decode buffer size offset =
    let family = get_or buffer offset 0 in
    let n = address_length family in
    if leb size offset
    then none
    else if n == 0 || ltb (size - (offset + 1)) (n + 2)
    then none
    else some (
      record {
        family = family;
        addr = blit 0 (take n (drop (offset + 1) buffer)) (replicate 16 0);
        port = get_u16 (drop (offset + 1 + n) buffer);
      },
      offset + (1 + n + 2),
    )

-- `ct_udp_datagram`; `payload` holds the `payload_len` bytes behind its pointer.
pub record Datagram : Type 0 where
  pub direction : ℕ
  pub session_id : ℕ
  pub sequence : ℕ
  pub service : List ℕ
  pub peer : Endpoint
  pub payload : List ℕ

-- The fixed fields of `ct_udp_datagram_pack`.
unfoldable pub udp_datagram_head : List ℕ → (off : ℕ) → Datagram → List ℕ
udp_datagram_head out off d =
    let b₁ = set out off d.direction in
    let b₂ = at (off + 1) (λ q. put_u64 q d.session_id) b₁ in
    at (off + 9) (λ q. put_u64 q d.sequence) b₂

-- Its last writes, the payload behind its size.
unfoldable pub udp_datagram_payload : List ℕ → (off : ℕ) → List ℕ → List ℕ
udp_datagram_payload out off payload =
    blit (off + 2) payload (at off (λ q. put_u16 q (length payload % 2 ^ 16)) out)

-- `max_service_id` is the build's CT_MAX_SERVICE_ID.
module _ (max_service_id : ℕ) where
  unfoldable pub udp_datagram_pack : List ℕ → (cap off : ℕ) → Datagram → Option (List ℕ × ℕ)
  udp_datagram_pack out cap off d = do
    guard (not (ltb 65535 (length d.payload) || ltb cap 17))
    let b₁ = udp_datagram_head out off d
    (b₂, o₂) ← pack_string b₁ cap (off + 17) d.service max_service_id
    (b₃, o₃) ← udp_endpoint_encode b₂ cap o₂ d.peer
    guard (not (ltb (cap - o₃) (2 + length d.payload)))
    some (udp_datagram_payload b₃ o₃ d.payload, o₃ + (2 + length d.payload))

  unfoldable pub udp_datagram_unpack : List ℕ → (size : ℕ) → Option Datagram
  udp_datagram_unpack input size = do
    guard (not (ltb size 17))
    (service, o₁) ← unpack_string input size 17 (max_service_id + 1)
    (peer, o₂) ← udp_endpoint_decode input size o₁
    guard (not (ltb (size - o₂) 2))
    guard (size - (o₂ + 2) == get_u16 (drop o₂ input))
    some (record {
      direction = get_or input 0 0;
      session_id = get_u64 (drop 1 input);
      sequence = get_u64 (drop 9 input);
      service = service;
      peer = peer;
      payload = take (get_u16 (drop o₂ input)) (drop (o₂ + 2) input);
    })
