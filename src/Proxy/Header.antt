-- ===== src/Proxy/Header.antt =====
-- The header of version 2 of the PROXY Protocol against its layout, and the endpoints it presents.
use ctunnel.Prelude.{
  ℕ, ◌+◌, ◌*◌, ◌%◌, ◌≤◌, ◌^◌, ◌≡◌, refl, sym, ap, ◌∙◌, subst, true, some, List, [], ◌∷◌, ◌++◌,
  append_assoc, ◌==◌, if◌then◌else◌, length, length-take, take, blit, set, arith,
}
use ctunnel.Types.{Endpoint, StreamMetadata}
use ctunnel.Wire.Ints.{put_u16, at}
use ctunnel.Wire.Ints.Laws.{big_endian}
use ctunnel.Wire.Buffer.{IsFilled, blit-IsFilled, put_u16-IsFilled, set-IsFilled, empty-IsFilled}
use ctunnel.Proxy.{normalize_pair, signature, build_v2_write, build_v2}

-- The size of the addresses, and the byte for the family and the transport.
abbrev pub address_size : Endpoint → ℕ
address_size source = if source.family == 4 then 4 else 16

abbrev pub transport : Endpoint → ℕ
transport source = if source.family == 4 then 0x11 else 0x21

-- The layout of section 2.2 of the PROXY Protocol.
unfoldable pub v2_bytes : (source destination : Endpoint) → List ℕ
v2_bytes source destination =
    0x0d
    ∷ 0x0a
    ∷ 0x0d
    ∷ 0x0a
    ∷ 0x00
    ∷ 0x0d
    ∷ 0x0a
    ∷ 0x51
    ∷ 0x55
    ∷ 0x49
    ∷ 0x54
    ∷ 0x0a
    ∷ (0x21
        ∷ transport source
        ∷ (big_endian 2 (address_size source * 2 + 4)
            ++ (take (address_size source) source.addr
                ++ (take (address_size source) destination.addr
                    ++ (big_endian 2 source.port ++ big_endian 2 destination.port)))))

module _ (source destination : Endpoint) (source_size : length source.addr ≡ 16)
    (destination_size : length destination.addr ≡ 16) where
  n : ℕ
  n = address_size source

  n_cases : (n ≤ 16) × ((n * 2 + 4) % 2 ^ 16 ≡ n * 2 + 4)
  unfolding n
  n_cases = ground arith

  length-address : (addr : List ℕ) → length addr ≡ 16 → length (take n addr) ≡ n
  length-address addr size = omega (arith, length-take n addr, size, n_cases)

  build_v2_write-IsFilled :
      (out : List ℕ)
      → 16 + (n * 2 + 4) ≤ length out
      → IsFilled
          (build_v2_write out source destination n)
          (length out)
          (16 + n * 2 + 2 + 2)
          (v2_bytes source destination)
  unfolding build_v2_write v2_bytes n
  build_v2_write-IsFilled out room =
      subst
        (λ (t : List ℕ).
          IsFilled (build_v2_write out source destination n) (length out) (16 + n * 2 + 2 + 2) t)
        shape ports
    where
      start : IsFilled (blit 0 signature out) (length out) 12 signature
      start = blit-IsFilled (empty-IsFilled out) signature 12 refl (omega arith)

      fixed :
          IsFilled
            (at 14
              (λ q. put_u16 q ((n * 2 + 4) % 2 ^ 16))
              (set (set (blit 0 signature out) 12 0x21) 13 (transport source)))
            (length out)
            16
            (((signature ++ (0x21 ∷ [])) ++ (transport source ∷ []))
              ++ big_endian 2 ((n * 2 + 4) % 2 ^ 16))
      fixed =
          put_u16-IsFilled
            (set-IsFilled (set-IsFilled start 0x21 13 refl (omega arith)) (transport source) 14 refl
              (omega arith))
            ((n * 2 + 4) % 2 ^ 16) 16 refl (omega arith)

      ports : IsFilled (build_v2_write out source destination n) (length out) (16 + n * 2 + 2 + 2) (
          ((((((signature ++ (0x21 ∷ [])) ++ (transport source ∷ []))
                  ++ big_endian 2 ((n * 2 + 4) % 2 ^ 16))
                ++ take n source.addr)
              ++ take n destination.addr)
            ++ big_endian 2 source.port)
          ++ big_endian 2 destination.port)
      ports =
          put_u16-IsFilled
            (put_u16-IsFilled
              (blit-IsFilled
                (blit-IsFilled fixed (take n source.addr) (16 + n)
                  (omega (arith, length-address source.addr source_size)) (omega arith))
                (take n destination.addr) (16 + n * 2)
                (omega (arith, length-address destination.addr destination_size)) (omega arith))
              source.port (16 + n * 2 + 2) refl (omega arith))
            destination.port (16 + n * 2 + 2 + 2) refl (omega arith)

      shape :
          (((((((signature ++ (0x21 ∷ [])) ++ (transport source ∷ []))
                    ++ big_endian 2 ((n * 2 + 4) % 2 ^ 16))
                  ++ take n source.addr)
                ++ take n destination.addr)
              ++ big_endian 2 source.port)
            ++ big_endian 2 destination.port)
          ≡ v2_bytes source destination
      shape = rw n_cases.1 (simp append_assoc)

-- For a pair of endpoints that the metadata normalizes to, and a buffer with room for it, the header
-- is built inside the buffer, byte for byte as the PROXY Protocol lays it out: the twelve bytes of
-- the signature, version 2 with the command PROXY, the family with TCP, the size of what follows, both addresses, both
-- ports. It has 28 bytes for IPv4 and 52 otherwise.
pub build_v2_layout :
    (out : List ℕ) (cap : ℕ) (m : StreamMetadata) (source destination : Endpoint)
    → length out ≡ cap
    → length source.addr ≡ 16
    → length destination.addr ≡ 16
    → normalize_pair m ≡ some (source, destination)
    → 20 + address_size source * 2 ≤ cap
    → (b : List ℕ) × (build_v2 true out cap m ≡ some (b, if source.family == 4 then 28 else 52))
      × (length b ≡ cap)
      × (take (if source.family == 4 then 28 else 52) b ≡ v2_bytes source destination)
unfolding build_v2 n
build_v2_layout out size m source destination full ss ds e room =
    let w = build_v2_write-IsFilled source destination ss ds out (omega (arith, full)) in
    let sum : 16 + address_size source * 2 + 2 + 2 ≡ (if source.family == 4 then 28 else 52) =
      ground arith in
    (
      build_v2_write out source destination (address_size source),
      ground (arith, e),
      w.size ∙ full,
      ap (λ (k : ℕ). take k (build_v2_write out source destination (address_size source))) (sym sum)
          ∙ w.done,
    )
