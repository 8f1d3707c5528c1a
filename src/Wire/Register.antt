-- ===== src/Wire/Register.antt =====
-- The request that registers a service: `ct_register_request_decode` of src/protocol/protocol.c on the
-- server, and the payload that `client_register` of src/client/client.c builds.
pub mod Decode
pub mod RoundTrip
use ctunnel.Prelude.{
  ℕ, ◌+◌, ◌-◌, ◌%◌, ◌^◌, Bool, true, false, not, ◌&&◌, ◌||◌, Option, none, some, ◌>>=◌, ◌>>◌, guard,
  List, ltb, ◌==◌, if◌then◌else◌, get_or, set, length, drop,
}
use ctunnel.Types.{ServiceConfig}
use ctunnel.Wire.Ints.{put_u16, put_u32, get_u16, get_u32, at}
use ctunnel.Wire.Text.{pack_string, unpack_string}

-- What `ct_register_request_decode` writes through its pointers; the callers in the repository that
-- look at an option pass a pointer for it.
pub record RegisterRequest : Type 0 where
  pub service_id : List ℕ
  pub remote_address : List ℕ
  pub remote_port : ℕ
  pub kind : ℕ
  pub mode : ℕ
  pub proxy_protocol : ℕ
  pub udp_idle_timeout : ℕ
  pub udp_reply_timeout : ℕ
  pub udp_max_sessions : ℕ
  pub udp_max_datagram_size : ℕ

-- The four limits of UDP, in the last 16 bytes.
unfoldable pub register_udp_options : List ℕ → ℕ → RegisterRequest → RegisterRequest
register_udp_options payload offset r = record r {
  udp_idle_timeout = get_u32 (drop offset payload);
  udp_reply_timeout = get_u32 (drop (offset + 4) payload);
  udp_max_sessions = get_u32 (drop (offset + 8) payload);
  udp_max_datagram_size = get_u32 (drop (offset + 12) payload);
}

-- From the second `length == offset` on.
unfoldable pub register_limits :
    List ℕ → (size offset : ℕ) → RegisterRequest → Option RegisterRequest
register_limits payload size offset r =
    if size == offset
    then some r
    else if not (size - offset == 16)
    then none
    else some (register_udp_options payload offset r)

-- From the first `length == offset` on.
unfoldable pub register_options :
    List ℕ → (size offset : ℕ) → RegisterRequest → Option RegisterRequest
register_options payload size offset r =
    if size == offset
    then some r
    else if size - offset == 1 || size - offset == 17
    then register_limits payload size (offset + 1)
        (record r { proxy_protocol = get_or payload offset 0 })
    else register_limits payload size offset r

unfoldable pub register_request_decode :
    List ℕ → (size service_capacity address_capacity : ℕ) → Option RegisterRequest
register_request_decode payload size service_capacity address_capacity = do
  (service_id, o₁) ← unpack_string payload size 0 service_capacity
  (remote_address, o₂) ← unpack_string payload size o₁ address_capacity
  guard (not (ltb (size - o₂) 4))
  register_options payload size (o₂ + 4) (record {
    service_id = service_id;
    remote_address = remote_address;
    remote_port = get_u16 (drop o₂ payload);
    kind = get_or payload (o₂ + 2) 0;
    mode = get_or payload (o₂ + 3) 0;
    proxy_protocol = 0;
    udp_idle_timeout = 0;
    udp_reply_timeout = 0;
    udp_max_sessions = 0;
    udp_max_datagram_size = 0;
  })

-- The writes of `client_register` from the port to the PROXY mode, with the offset `o`.
unfoldable pub register_fixed_write : ServiceConfig → List ℕ → ℕ → List ℕ
register_fixed_write s b o =
    let b₁ = at o (λ q. put_u16 q s.remote_port) b in
    let b₂ = set b₁ (o + 2) (s.kind % 2 ^ 8) in
    let b₃ = set b₂ (o + 3) (s.encryption % 2 ^ 8) in set b₃ (o + 4) (s.proxy_protocol % 2 ^ 8)

unfoldable pub register_udp_write : ServiceConfig → List ℕ → ℕ → List ℕ
register_udp_write s b o =
    let b₁ = at o (λ q. put_u32 q (s.udp_idle_timeout % 2 ^ 32)) b in
    let b₂ = at (o + 4) (λ q. put_u32 q (s.udp_reply_timeout % 2 ^ 32)) b₁ in
    let b₃ = at (o + 8) (λ q. put_u32 q (s.udp_max_sessions % 2 ^ 32)) b₂ in
    at (o + 12) (λ q. put_u32 q (s.udp_max_datagram_size % 2 ^ 32)) b₃

-- The payload of one service, in the buffer `b`: the buffer and the size of the payload. `udp` is the
-- build's CONFIG_FEATURE_UDP.
unfoldable pub register_request_encode :
    (udp : Bool) (max_service_id max_addr : ℕ) → ServiceConfig → List ℕ → Option (List ℕ × ℕ)
register_request_encode udp max_service_id max_addr s b = do
  (b₁, o₁) ← pack_string b (length b) 0 s.id max_service_id
  (b₂, o₂) ← pack_string b₁ (length b) o₁ s.remote_addr max_addr
  let b₃ = register_fixed_write s b₂ o₂
  if udp && s.kind == 2 then some (register_udp_write s b₃ (o₂ + 5), o₂ + 21) else some (b₃, o₂ + 5)
