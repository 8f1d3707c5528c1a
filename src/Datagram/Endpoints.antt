-- ===== src/Datagram/Endpoints.antt =====
-- Endpoints on the wire: the family, the bytes of the address, the port.
use ctunnel.Prelude.{
  ℕ, ◌+◌, ◌≤◌, ◌<◌, ◌^◌, ◌≡◌, refl, sym, ap, ◌∙◌, subst, ◌≢◌, some, List, [], ◌∷◌, ◌++◌,
  append_assoc, get_or, get_or-add, length, length-append, length-take, take, drop, drop-drop,
  drop-append, take-append, replicate, blit, arith,
}
use ctunnel.Types.{Endpoint}
use ctunnel.Wire.Ints.{get_u16}
use ctunnel.Wire.Ints.Laws.{big_endian, length-big_endian}
use ctunnel.Wire.Ints.Read.{get_u16-big_endian}
use ctunnel.Wire.Buffer.{IsFilled, blit-IsFilled, put_u16-IsFilled, set-IsFilled}
use ctunnel.Datagram.{address_length, udp_endpoint_write, udp_endpoint_encode, udp_endpoint_decode}

-- A family that has addresses, 16 bytes of address and a port.
pub record IsEndpoint (e : Endpoint) : Type 0 where
  pub known : address_length e.family ≢ 0
  pub addr_size : length e.addr ≡ 16
  pub port_u16 : e.port < 2 ^ 16

pub address_length_bound : (family : ℕ) → address_length family ≤ 16
unfolding address_length
address_length_bound family = ground arith

abbrev pub endpoint_bytes : Endpoint → List ℕ
endpoint_bytes e = e.family ∷ (take (address_length e.family) e.addr ++ big_endian 2 e.port)

-- The endpoint with the bytes behind its address cleared.
abbrev pub canonical : Endpoint → Endpoint
canonical e = record e { addr = blit 0 (take (address_length e.family) e.addr) (replicate 16 0) }

module _ {e : Endpoint} (v : IsEndpoint e) where
  abbrev n : ℕ
  n = address_length e.family

  length-address : length (take n e.addr) ≡ n
  length-address = omega (arith, length-take n e.addr, v.addr_size, address_length_bound e.family)

  pub length-endpoint_bytes : length (endpoint_bytes e) ≡ 1 + n + 2
  length-endpoint_bytes = omega (
    arith,
    length-address,
    length-append (take n e.addr) (big_endian 2 e.port),
    length-big_endian 2 e.port,
  )

  pub udp_endpoint_encode_fits :
      (b : List ℕ) (cap off : ℕ)
      → off + (1 + n + 2) ≤ cap
      → udp_endpoint_encode b cap off e ≡ some (udp_endpoint_write b off e, off + (1 + n + 2))
  unfolding udp_endpoint_encode
  udp_endpoint_encode_fits b cap off room = ground (arith, v.known)

  pub udp_endpoint_write-IsFilled :
      {b : List ℕ} {cap off : ℕ} {done : List ℕ}
      → IsFilled b cap off done
      → off + (1 + n + 2) ≤ cap
      → IsFilled (udp_endpoint_write b off e) cap (off + (1 + n + 2)) (done ++ endpoint_bytes e)
  unfolding udp_endpoint_write
  udp_endpoint_write-IsFilled {b} {cap} {off} {done} w room =
      subst (λ (t : List ℕ). IsFilled (udp_endpoint_write b off e) cap (off + (1 + n + 2)) t) shape
        (put_u16-IsFilled
          (blit-IsFilled (set-IsFilled w e.family (off + 1) refl (omega arith)) (take n e.addr)
            (off + 1 + n) (omega (arith, length-address)) (omega arith))
          e.port (off + (1 + n + 2)) (omega arith) room)
    where
      shape :
          ((done ++ (e.family ∷ [])) ++ take n e.addr) ++ big_endian 2 e.port
          ≡ done ++ endpoint_bytes e
      shape = simp append_assoc

  -- Decoding at an offset behind `pre`.
  pub udp_endpoint_decode-bytes :
      (pre rest : List ℕ) (size off : ℕ)
      → length pre ≡ off
      → off + (1 + n + 2) ≤ size
      → udp_endpoint_decode (pre ++ (endpoint_bytes e ++ rest)) size off
        ≡ some (canonical e, off + (1 + n + 2))
  unfolding udp_endpoint_decode
  udp_endpoint_decode-bytes pre rest size off size-pre room =
      ground (arith, v.known, family, address, port)
    where
      whole : List ℕ
      whole = pre ++ (endpoint_bytes e ++ rest)

      at_off : drop off whole ≡ endpoint_bytes e ++ rest
      at_off = drop-append off pre (endpoint_bytes e ++ rest) size-pre

      family : get_or whole off 0 ≡ e.family
      family =
          let z : off ≡ off + 0 = omega arith in
          ap (λ (k : ℕ). get_or whole k 0) z
          ∙ get_or-add off 0 whole 0
          ∙ ap (λ (t : List ℕ). get_or t 0 0) at_off

      at_addr : drop (off + 1) whole ≡ take n e.addr ++ (big_endian 2 e.port ++ rest)
      at_addr =
          sym (drop-drop 1 off whole)
          ∙ ap (drop 1) at_off
          ∙ append_assoc (take n e.addr) (big_endian 2 e.port) rest

      address : take n (drop (off + 1) whole) ≡ take n e.addr
      address =
          ap (take n) at_addr
          ∙ take-append n (take n e.addr) (big_endian 2 e.port ++ rest) length-address

      port : get_u16 (drop (off + 1 + n) whole) ≡ e.port
      port =
          ap get_u16 (
            sym (drop-drop n (off + 1) whole)
            ∙ ap (drop n) at_addr
            ∙ drop-append n (take n e.addr) (big_endian 2 e.port ++ rest) length-address)
          ∙ get_u16-big_endian e.port rest v.port_u16
