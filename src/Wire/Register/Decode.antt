-- ===== src/Wire/Register/Decode.antt =====
-- What the server reads from the payload of a service, laid out as docs/protocol.md says.
use ctunnel.Prelude.{
  ℕ, ◌+◌, ◌≤◌, ◌<◌, ◌^◌, ◌≡◌, refl, sym, ap, ◌∙◌, Bool, ◌&&◌, some, List, [], ◌∷◌, ◌++◌,
  append_assoc, append-nil, ◌==◌, if◌then◌else◌, get_or, get_or-add, length, length-append, drop,
  drop-drop, drop-append, arith,
}
use ctunnel.Types.{ServiceConfig}
use ctunnel.Wire.Ints.{get_u16, get_u32}
use ctunnel.Wire.Ints.Laws.{big_endian, length-big_endian}
use ctunnel.Wire.Ints.Read.{get_u16-big_endian, get_u32-big_endian}
use ctunnel.Wire.Text.{unpack_string}
use ctunnel.Wire.Text.Laws.{packed, length-packed, unpack_string-packed}
use ctunnel.Wire.Register.{
  RegisterRequest, register_udp_options, register_limits, register_options, register_request_decode,
}

-- One byte of option: a TCP service.
register_options_tcp :
    (payload : List ℕ) (size o : ℕ) (r : RegisterRequest)
    → size ≡ o + 1
    → register_options payload size o r ≡ some (record r { proxy_protocol = get_or payload o 0 })
unfolding register_options register_limits
register_options_tcp payload size o r e = ground arith

-- A byte and four limits: a UDP service.
register_options_udp :
    (payload : List ℕ) (size o : ℕ) (r : RegisterRequest)
    → size ≡ o + 17
    → register_options payload size o r
      ≡ some
          (register_udp_options payload (o + 1) (record r { proxy_protocol = get_or payload o 0 }))
unfolding register_options register_limits
register_options_udp payload size o r e = ground arith

-- The fields fit what they travel in.
pub record IsPackable (max_service_id max_addr : ℕ) (s : ServiceConfig) : Type 0 where
  pub id_fits : length s.id ≤ max_service_id
  pub addr_fits : length s.remote_addr ≤ max_addr
  pub id_small : length s.id < 2 ^ 16
  pub addr_small : length s.remote_addr < 2 ^ 16
  pub port_u16 : s.remote_port < 2 ^ 16
  pub kind_u8 : s.kind < 2 ^ 8
  pub encryption_u8 : s.encryption < 2 ^ 8
  pub proxy_u8 : s.proxy_protocol < 2 ^ 8
  pub idle_u32 : s.udp_idle_timeout < 2 ^ 32
  pub reply_u32 : s.udp_reply_timeout < 2 ^ 32
  pub sessions_u32 : s.udp_max_sessions < 2 ^ 32
  pub datagram_u32 : s.udp_max_datagram_size < 2 ^ 32

-- What the server should learn: the limits of UDP travel for a UDP service alone.
unfoldable pub request_of : Bool → ServiceConfig → RegisterRequest
request_of udp s =
    let limits = udp && s.kind == 2 in
    record {
      service_id = s.id;
      remote_address = s.remote_addr;
      remote_port = s.remote_port;
      kind = s.kind;
      mode = s.encryption;
      proxy_protocol = s.proxy_protocol;
      udp_idle_timeout = if limits then s.udp_idle_timeout else 0;
      udp_reply_timeout = if limits then s.udp_reply_timeout else 0;
      udp_max_sessions = if limits then s.udp_max_sessions else 0;
      udp_max_datagram_size = if limits then s.udp_max_datagram_size else 0;
    }

module _ (s : ServiceConfig) where
  open s use {
    id, remote_addr, remote_port, kind, encryption, proxy_protocol, udp_idle_timeout,
    udp_reply_timeout, udp_max_sessions, udp_max_datagram_size,
  }

  abbrev pub udp_tail : List ℕ
  udp_tail =
      big_endian 4 udp_idle_timeout
      ++ (big_endian 4 udp_reply_timeout
          ++ (big_endian 4 udp_max_sessions ++ big_endian 4 udp_max_datagram_size))

  abbrev pub fixed : List ℕ → List ℕ
  fixed tail = big_endian 2 remote_port ++ (kind ∷ encryption ∷ proxy_protocol ∷ tail)

  abbrev pub payload_of : List ℕ → List ℕ
  payload_of tail = packed id ++ (packed remote_addr ++ fixed tail)

  abbrev pub fixed_at : ℕ
  fixed_at = 0 + (2 + length id) + (2 + length remote_addr)

  module _ (tail : List ℕ) where
    drop-payload : drop fixed_at (payload_of tail) ≡ fixed tail
    drop-payload =
        ap (drop fixed_at) (sym (append_assoc (packed id) (packed remote_addr) (fixed tail)))
        ∙ drop-append fixed_at (packed id ++ packed remote_addr) (fixed tail) (
            omega (
              arith,
              length-append (packed id) (packed remote_addr),
              length-packed id,
              length-packed remote_addr,
            ))

    field_at : (i : ℕ) → get_or (payload_of tail) (fixed_at + i) 0 ≡ get_or (fixed tail) i 0
    field_at i =
        get_or-add fixed_at i (payload_of tail) 0 ∙ ap (λ (t : List ℕ). get_or t i 0) drop-payload

    tail_at : drop (fixed_at + 4 + 1) (payload_of tail) ≡ tail
    unfolding big_endian
    tail_at =
        let e : fixed_at + 4 + 1 ≡ fixed_at + 5 = omega arith in
        ap (λ (k : ℕ). drop k (payload_of tail)) e
        ∙ sym (drop-drop 5 fixed_at (payload_of tail))
        ∙ ap (drop 5) drop-payload

    pub size-payload : length (payload_of tail) ≡ fixed_at + 5 + length tail
    size-payload = omega (
      arith,
      length-append (packed id) (packed remote_addr ++ fixed tail),
      length-append (packed remote_addr) (fixed tail),
      length-append (big_endian 2 remote_port) (kind ∷ encryption ∷ proxy_protocol ∷ tail),
      length-packed id,
      length-packed remote_addr,
      length-big_endian 2 remote_port,
    )

  abbrev pub received : RegisterRequest
  received = record {
    service_id = id;
    remote_address = remote_addr;
    remote_port = remote_port;
    kind = kind;
    mode = encryption;
    proxy_protocol = 0;
    udp_idle_timeout = 0;
    udp_reply_timeout = 0;
    udp_max_sessions = 0;
    udp_max_datagram_size = 0;
  }

  module _ {max_service_id max_addr : ℕ} (v : IsPackable max_service_id max_addr s)
      (service_capacity address_capacity : ℕ) (id_room : length id < service_capacity)
      (addr_room : length remote_addr < address_capacity) where
    -- Up to the options, which are read from the tail.
    decode-payload :
        (tail : List ℕ) (size : ℕ)
        → size ≡ fixed_at + 5 + length tail
        → register_request_decode (payload_of tail) size service_capacity address_capacity
          ≡ register_options (payload_of tail) size (fixed_at + 4) received
    unfolding register_request_decode big_endian
    decode-payload tail size e =
        ground (arith, first, second, port, field_at tail 2, field_at tail 3)
      where
        first :
            unpack_string (payload_of tail) size 0 service_capacity ≡ some (id, 0 + (2 + length id))
        first =
            unpack_string-packed [] id (packed remote_addr ++ fixed tail) size 0 service_capacity
              refl v.id_small id_room (omega arith)

        second :
            unpack_string (payload_of tail) size (0 + (2 + length id)) address_capacity
            ≡ some (remote_addr, fixed_at)
        second =
            unpack_string-packed (packed id) remote_addr (fixed tail) size (0 + (2 + length id))
              address_capacity (omega (arith, length-packed id)) v.addr_small addr_room
              (omega arith)

        port : get_u16 (drop fixed_at (payload_of tail)) ≡ remote_port
        port =
            ap get_u16 (drop-payload tail)
            ∙ get_u16-big_endian remote_port (kind ∷ encryption ∷ proxy_protocol ∷ tail) v.port_u16

    proxy_at : (tail : List ℕ) → get_or (payload_of tail) (fixed_at + 4) 0 ≡ proxy_protocol
    unfolding big_endian
    proxy_at tail = field_at tail 4

    pub decode_tcp :
        register_request_decode (payload_of []) (fixed_at + 5) service_capacity address_capacity
        ≡ some (record received { proxy_protocol = proxy_protocol })
    decode_tcp =
        decode-payload [] (fixed_at + 5) (omega arith)
        ∙ register_options_tcp (payload_of []) (fixed_at + 5) (fixed_at + 4) received (omega arith)
        ∙ ap (λ (x : ℕ). some (record received { proxy_protocol = x })) (proxy_at [])

    pub length-udp_tail : length udp_tail ≡ 16
    length-udp_tail = omega (
      arith,
      length-append (big_endian 4 udp_idle_timeout) (
          big_endian 4 udp_reply_timeout
          ++ (big_endian 4 udp_max_sessions ++ big_endian 4 udp_max_datagram_size)),
      length-append (big_endian 4 udp_reply_timeout)
          (big_endian 4 udp_max_sessions ++ big_endian 4 udp_max_datagram_size),
      length-append (big_endian 4 udp_max_sessions) (big_endian 4 udp_max_datagram_size),
      length-big_endian 4 udp_idle_timeout,
      length-big_endian 4 udp_reply_timeout,
      length-big_endian 4 udp_max_sessions,
      length-big_endian 4 udp_max_datagram_size,
    )

    -- The k-th number of the tail.
    tail_number :
        (w : ℕ) (before after : List ℕ) (k : ℕ)
        → length before ≡ k
        → w < 2 ^ 32
        → udp_tail ≡ before ++ (big_endian 4 w ++ after)
        → get_u32 (drop (fixed_at + 4 + 1 + k) (payload_of udp_tail)) ≡ w
    tail_number w before after k e h cut =
        ap get_u32 (
          sym (drop-drop k (fixed_at + 4 + 1) (payload_of udp_tail))
          ∙ ap (drop k) (tail_at udp_tail ∙ cut)
          ∙ drop-append k before (big_endian 4 w ++ after) e)
        ∙ get_u32-big_endian w after h

    udp_options_read :
        (r : RegisterRequest)
        → register_udp_options (payload_of udp_tail) (fixed_at + 4 + 1) r ≡ record r {
          udp_idle_timeout = udp_idle_timeout;
          udp_reply_timeout = udp_reply_timeout;
          udp_max_sessions = udp_max_sessions;
          udp_max_datagram_size = udp_max_datagram_size;
        }
    unfolding register_udp_options
    udp_options_read r = λ i. record r {
      udp_idle_timeout = idle i;
      udp_reply_timeout = reply i;
      udp_max_sessions = sessions i;
      udp_max_datagram_size = datagram i;
    }
      where
        n₁ : List ℕ
        n₁ = big_endian 4 udp_idle_timeout

        n₂ : List ℕ
        n₂ = big_endian 4 udp_reply_timeout

        n₃ : List ℕ
        n₃ = big_endian 4 udp_max_sessions

        n₄ : List ℕ
        n₄ = big_endian 4 udp_max_datagram_size

        idle : get_u32 (drop (fixed_at + 4 + 1) (payload_of udp_tail)) ≡ udp_idle_timeout
        idle =
            ap get_u32 (tail_at udp_tail)
            ∙ get_u32-big_endian udp_idle_timeout (n₂ ++ (n₃ ++ n₄)) v.idle_u32

        reply : get_u32 (drop (fixed_at + 4 + 1 + 4) (payload_of udp_tail)) ≡ udp_reply_timeout
        reply =
            tail_number udp_reply_timeout n₁ (n₃ ++ n₄) 4 (length-big_endian 4 udp_idle_timeout)
              v.reply_u32 refl

        sessions : get_u32 (drop (fixed_at + 4 + 1 + 8) (payload_of udp_tail)) ≡ udp_max_sessions
        sessions =
            tail_number udp_max_sessions (n₁ ++ n₂) n₄ 8
              (omega (
                arith,
                length-append n₁ n₂,
                length-big_endian 4 udp_idle_timeout,
                length-big_endian 4 udp_reply_timeout,
              ))
              v.sessions_u32 (sym (append_assoc n₁ n₂ (n₃ ++ n₄)))

        datagram :
            get_u32 (drop (fixed_at + 4 + 1 + 12) (payload_of udp_tail)) ≡ udp_max_datagram_size
        datagram =
            tail_number udp_max_datagram_size (n₁ ++ (n₂ ++ n₃)) [] 12
              (omega (
                arith,
                length-append n₁ (n₂ ++ n₃),
                length-append n₂ n₃,
                length-big_endian 4 udp_idle_timeout,
                length-big_endian 4 udp_reply_timeout,
                length-big_endian 4 udp_max_sessions,
              ))
              v.datagram_u32 (simp (append_assoc, append-nil))

    pub decode_udp :
        register_request_decode
          (payload_of udp_tail)
          (fixed_at + 21)
          service_capacity
          address_capacity
        ≡ some (record received {
          proxy_protocol = proxy_protocol;
          udp_idle_timeout = udp_idle_timeout;
          udp_reply_timeout = udp_reply_timeout;
          udp_max_sessions = udp_max_sessions;
          udp_max_datagram_size = udp_max_datagram_size;
        })
    decode_udp =
        decode-payload udp_tail (fixed_at + 21) (omega (arith, length-udp_tail))
        ∙ register_options_udp (payload_of udp_tail) (fixed_at + 21) (fixed_at + 4) received
            (omega arith)
        ∙ ap some (
            udp_options_read
              (record received { proxy_protocol = get_or (payload_of udp_tail) (fixed_at + 4) 0 }))
        ∙ ap
            (λ (x : ℕ). some (record received {
              proxy_protocol = x;
              udp_idle_timeout = udp_idle_timeout;
              udp_reply_timeout = udp_reply_timeout;
              udp_max_sessions = udp_max_sessions;
              udp_max_datagram_size = udp_max_datagram_size;
            }))
            (proxy_at udp_tail)
