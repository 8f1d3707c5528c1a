-- ===== src/Wire/Register/RoundTrip.antt =====
-- The payload of `client_register` of src/client/client.c in front of the decoder of the server.
use ctunnel.Prelude.{
  ℕ, ◌+◌, ◌≤◌, ◌<◌, ◌≡◌, refl, ◌∙◌, subst, Bool, true, false, ◌&&◌, some, List, [], ◌∷◌, ◌++◌,
  append_assoc, ◌==◌, if◌then◌else◌, length, set, take, Bool-cases, inl, inr, arith,
}
use ctunnel.Types.{ServiceConfig}
use ctunnel.Wire.Ints.{put_u16, put_u32, at}
use ctunnel.Wire.Ints.Laws.{big_endian}
use ctunnel.Wire.Buffer.{IsFilled, put_u16-IsFilled, put_u32-IsFilled, set-IsFilled, empty-IsFilled}
use ctunnel.Wire.Text.{pack_string_write}
use ctunnel.Wire.Text.Laws.{packed, pack_string_fits, pack_string_write-IsFilled}
use ctunnel.Wire.Register.{
  register_request_decode, register_fixed_write, register_udp_write, register_request_encode,
}
use ctunnel.Wire.Register.Decode.{
  IsPackable, request_of, udp_tail, fixed, payload_of, fixed_at, decode_tcp, decode_udp,
}
use native.Mathlib.Nat.{mod-eq_of_lt}

module _ {s : ServiceConfig} {max_service_id max_addr : ℕ}
    (p : IsPackable max_service_id max_addr s) where
  open s use {
    id, remote_addr, remote_port, kind, encryption, proxy_protocol, udp_idle_timeout,
    udp_reply_timeout, udp_max_sessions, udp_max_datagram_size,
  }

  register_fixed_write-IsFilled :
      {b : List ℕ} {cap o : ℕ} {done : List ℕ}
      → IsFilled b cap o done
      → o + 5 ≤ cap
      → IsFilled (register_fixed_write s b o) cap (o + 5) (done ++ fixed s [])
  unfolding register_fixed_write
  register_fixed_write-IsFilled {b} {cap} {o} {done} v room =
      rw (mod-eq_of_lt p.kind_u8, mod-eq_of_lt p.encryption_u8, mod-eq_of_lt p.proxy_u8)
        (subst (λ (t : List ℕ). IsFilled (written) cap (o + 5) t) shape
          (set-IsFilled
            (set-IsFilled
              (set-IsFilled (put_u16-IsFilled v remote_port (o + 2) refl (omega arith)) kind (o + 3)
                (omega arith) (omega arith))
              encryption (o + 4) (omega arith) (omega arith))
            proxy_protocol (o + 5) (omega arith) room))
    where
      written : List ℕ
      written =
          set (set (set (at o (λ q. put_u16 q remote_port) b) (o + 2) kind) (o + 3) encryption)
            (o + 4) proxy_protocol

      shape :
          (((done ++ big_endian 2 remote_port) ++ (kind ∷ [])) ++ (encryption ∷ []))
            ++ (proxy_protocol ∷ [])
          ≡ done ++ fixed s []
      shape = simp append_assoc

  register_udp_write-IsFilled :
      {b : List ℕ} {cap o : ℕ} {done : List ℕ}
      → IsFilled b cap o done
      → o + 16 ≤ cap
      → IsFilled (register_udp_write s b o) cap (o + 16) (done ++ udp_tail s)
  unfolding register_udp_write
  register_udp_write-IsFilled {b} {cap} {o} {done} v room =
      rw
        (
          mod-eq_of_lt p.idle_u32,
          mod-eq_of_lt p.reply_u32,
          mod-eq_of_lt p.sessions_u32,
          mod-eq_of_lt p.datagram_u32,
        )
        (subst (λ (t : List ℕ). IsFilled written cap (o + 16) t) shape
          (put_u32-IsFilled
            (put_u32-IsFilled
              (put_u32-IsFilled (put_u32-IsFilled v udp_idle_timeout (o + 4) refl (omega arith))
                udp_reply_timeout (o + 8) (omega arith) (omega arith))
              udp_max_sessions (o + 12) (omega arith) (omega arith))
            udp_max_datagram_size (o + 16) (omega arith) room))
    where
      written : List ℕ
      written =
          at (o + 12) (λ q. put_u32 q udp_max_datagram_size)
            (at (o + 8) (λ q. put_u32 q udp_max_sessions)
              (at (o + 4) (λ q. put_u32 q udp_reply_timeout)
                (at o (λ q. put_u32 q udp_idle_timeout) b)))

      shape :
          (((done ++ big_endian 4 udp_idle_timeout) ++ big_endian 4 udp_reply_timeout)
              ++ big_endian 4 udp_max_sessions)
            ++ big_endian 4 udp_max_datagram_size
          ≡ done ++ udp_tail s
      shape = simp append_assoc

  module _ (udp : Bool) (b : List ℕ) (room : fixed_at s ≤ length b) where
    strings : List ℕ
    strings = pack_string_write (pack_string_write b 0 id) (0 + (2 + length id)) remote_addr

    strings-IsFilled :
        IsFilled strings (length b) (fixed_at s) (([] ++ packed id) ++ packed remote_addr)
    unfolding strings
    strings-IsFilled =
        pack_string_write-IsFilled remote_addr
          (pack_string_write-IsFilled id (empty-IsFilled b) (omega (arith, p.id_small))
            (omega arith))
          (omega (arith, p.addr_small)) (omega arith)

    encode_lem : register_request_encode udp max_service_id max_addr s b ≡ (
        if udp && kind == 2
        then some (
          register_udp_write s (register_fixed_write s strings (fixed_at s)) (fixed_at s + 5),
          fixed_at s + 21,
        )
        else some (register_fixed_write s strings (fixed_at s), fixed_at s + 5))
    unfolding register_request_encode strings
    encode_lem = ground (
      arith,
      pack_string_fits b (length b) 0 id max_service_id,
      pack_string_fits (pack_string_write b 0 id) (length b) (0 + (2 + length id)) remote_addr
          max_addr,
    )

    module _ (room₂ : fixed_at s + 21 ≤ length b) where
      fixed-IsFilled :
          IsFilled
            (register_fixed_write s strings (fixed_at s))
            (length b)
            (fixed_at s + 5)
            (payload_of s [])
      fixed-IsFilled =
          subst
            (λ (t : List ℕ).
              IsFilled (register_fixed_write s strings (fixed_at s)) (length b) (fixed_at s + 5) t)
            (append_assoc (packed id) (packed remote_addr) (fixed s []))
            (register_fixed_write-IsFilled strings-IsFilled (omega arith))

      udp-IsFilled :
          IsFilled
            (register_udp_write s (register_fixed_write s strings (fixed_at s)) (fixed_at s + 5))
            (length b)
            (fixed_at s + 21)
            (payload_of s (udp_tail s))
      udp-IsFilled =
          let e : fixed_at s + 5 + 16 ≡ fixed_at s + 21 = omega arith in
          let shape : payload_of s [] ++ udp_tail s ≡ payload_of s (udp_tail s) =
            simp append_assoc in
          subst
            (λ (n : ℕ).
              IsFilled (register_udp_write s filled (fixed_at s + 5)) (length b) n
                (payload_of s (udp_tail s)))
            e
            (subst
              (λ (t : List ℕ).
                IsFilled (register_udp_write s filled (fixed_at s + 5)) (length b)
                  (fixed_at s + 5 + 16) t)
              shape (register_udp_write-IsFilled fixed-IsFilled (omega arith)))
        where
          filled : List ℕ
          filled = register_fixed_write s strings (fixed_at s)

      module _ (service_capacity address_capacity : ℕ) (id_room : length id < service_capacity)
          (addr_room : length remote_addr < address_capacity) where
        Decodes : List ℕ × ℕ → Type 0
        Decodes out =
            (length out.0 ≡ length b)
            × (register_request_decode (take out.1 out.0) out.1 service_capacity address_capacity
                ≡ some (request_of udp s))

        plain_decoded :
            (udp && kind == 2) ≡ false
            → Decodes (register_fixed_write s strings (fixed_at s), fixed_at s + 5)
        unfolding Decodes request_of
        plain_decoded plain = (
          fixed-IsFilled.size,
          rw (fixed-IsFilled.done, plain)
              (decode_tcp s p service_capacity address_capacity id_room addr_room),
        )

        limits_decoded :
            (udp && kind == 2) ≡ true
            → Decodes (
              register_udp_write s (register_fixed_write s strings (fixed_at s)) (fixed_at s + 5),
              fixed_at s + 21,
            )
        unfolding Decodes request_of
        limits_decoded limits = (
          udp-IsFilled.size,
          rw (udp-IsFilled.done, limits)
              (decode_udp s p service_capacity address_capacity id_room addr_room),
        )

        round_trip :
            (out : List ℕ × ℕ) × (register_request_encode udp max_service_id max_addr s b
              ≡ some out)
            × Decodes out
        round_trip = elim (Bool-cases (udp && kind == 2)) [
          | inl limits ↦ (_, encode_lem ∙ rw limits refl, limits_decoded limits)
          | inr plain ↦ (_, encode_lem ∙ rw plain refl, plain_decoded plain)
        ]

-- The payload that the client builds for a service whose strings and numbers fit is written inside
-- its buffer, if the buffer has room for both strings and 25 bytes more, and the server decodes it to
-- the service: its id, address, port, type, encryption and PROXY mode, with the limits of UDP for a
-- UDP service of a build with UDP, and zeros for them otherwise.
pub register_request_round_trip :
    (udp : Bool) (s : ServiceConfig) (b : List ℕ)
    (max_service_id max_addr service_capacity address_capacity : ℕ)
    → IsPackable max_service_id max_addr s
    → length s.id + length s.remote_addr + 25 ≤ length b
    → length s.id < service_capacity
    → length s.remote_addr < address_capacity
    → (out : List ℕ × ℕ) × (register_request_encode udp max_service_id max_addr s b ≡ some out)
      × (length out.0 ≡ length b)
      × (register_request_decode (take out.1 out.0) out.1 service_capacity address_capacity
          ≡ some (request_of udp s))
unfolding Decodes
register_request_round_trip udp s b max_service_id max_addr sc ac p room id_room addr_room =
    let (out, e, d) = round_trip p udp b (omega arith) (omega arith) sc ac id_room addr_room in
    (out, e, d.0, d.1)
