-- ===== src/Proxy.antt =====
-- src/net/proxy_protocol.c: the PROXY Protocol header that a client sends ahead of a stream.
pub mod Header
mod Tests
use ctunnel.Prelude.{
  ℕ, ◌+◌, ◌*◌, ◌%◌, ◌^◌, Bool, true, false, not, ◌&&◌, ◌||◌, Option, none, some, ◌>>=◌, ◌>>◌, guard,
  List, [], ◌∷◌, ◌++◌, ltb, leb, ◌==◌, if◌then◌else◌, set, length, take, drop, blit,
}
use ctunnel.Prelude.Bytes.{bytes_eq}
use ctunnel.Types.{
  Endpoint, StreamMetadata, proxy_protocol_off, proxy_protocol_v1, proxy_protocol_v2,
}
use ctunnel.Wire.Ints.{put_u16, at}

abbrev pub v4_prefix : List ℕ
v4_prefix = 0 ∷ 0 ∷ 0 ∷ 0 ∷ 0 ∷ 0 ∷ 0 ∷ 0 ∷ 0 ∷ 0 ∷ 0xff ∷ 0xff ∷ []

unfoldable pub is_v4_mapped : Endpoint → Bool
is_v4_mapped e = e.family == 6 && bytes_eq (take 12 e.addr) v4_prefix

-- `memmove(addr, addr + 12, 4)`, and the family set to 4.
unfoldable pub unmap : Endpoint → Endpoint
unmap e = record e { family = 4; addr = blit 0 (take 4 (drop 12 e.addr)) e.addr }

unfoldable pub normalize_pair : StreamMetadata → Option (Endpoint × Endpoint)
normalize_pair m =
    let mapped =
      m.source.family == 6
      && m.destination.family == 6
      && is_v4_mapped m.source
      && is_v4_mapped m.destination in
    let source = if mapped then unmap m.source else m.source in
    let destination = if mapped then unmap m.destination else m.destination in
    if not (source.family == destination.family)
      || (not (source.family == 4) && not (source.family == 6))
    then none
    else some (source, destination)

abbrev pub signature : List ℕ
signature = 0x0d ∷ 0x0a ∷ 0x0d ∷ 0x0a ∷ 0x00 ∷ 0x0d ∷ 0x0a ∷ 0x51 ∷ 0x55 ∷ 0x49 ∷ 0x54 ∷ 0x0a ∷ []

-- The writes of `ct_proxy_protocol_build_v2`; `n` is the size of an address.
unfoldable pub build_v2_write : List ℕ → (source destination : Endpoint) → (n : ℕ) → List ℕ
build_v2_write out source destination n =
    let b₁ = blit 0 signature out in
    let b₂ = set b₁ 12 0x21 in
    let b₃ = set b₂ 13 (if source.family == 4 then 0x11 else 0x21) in
    let b₄ = at 14 (λ q. put_u16 q ((n * 2 + 4) % 2 ^ 16)) b₃ in
    let b₅ = blit 16 (take n source.addr) b₄ in
    let b₆ = blit (16 + n) (take n destination.addr) b₅ in
    let b₇ = at (16 + n * 2) (λ q. put_u16 q source.port) b₆ in
    at (16 + n * 2 + 2) (λ q. put_u16 q destination.port) b₇

-- The buffer and the size of the header. `feature` is CONFIG_FEATURE_PROXY_PROTOCOL_V2.
unfoldable pub build_v2 :
    (feature : Bool) → List ℕ → (cap : ℕ) → StreamMetadata → Option (List ℕ × ℕ)
build_v2 false out cap m = none
build_v2 true out cap m = do
  (source, destination) ← normalize_pair m
  let n = if source.family == 4 then 4 else 16
  let total = 12 + 4 + (n * 2 + 4) % 2 ^ 16
  guard (not (ltb cap total))
  some (build_v2_write out source destination n, total)

-- `inet_ntop` gives the text of an address of a family, and `decimal` is the conversion of `%u`.
module _ (inet_ntop : ℕ → List ℕ → Option (List ℕ)) (decimal : ℕ → List ℕ) where
  -- "PROXY TCP%u %s %s %u %u\r\n"
  unfoldable pub v1_line : (source destination : Endpoint) → (from to : List ℕ) → List ℕ
  v1_line source destination from to =
      (0x50 ∷ 0x52 ∷ 0x4f ∷ 0x58 ∷ 0x59 ∷ 0x20 ∷ 0x54 ∷ 0x43 ∷ 0x50 ∷ [])
      ++ (decimal source.family
          ++ (0x20
              ∷ (from
                  ++ (0x20
                      ∷ (to
                          ++ (0x20
                              ∷ (decimal source.port
                                  ++ (0x20
                                      ∷ (decimal destination.port ++ (0x0d ∷ 0x0a ∷ []))))))))))

  -- `snprintf` writes the line and a NUL where they fit; the calls with a line that does not fit fail.
  unfoldable pub build_v1 :
      (feature : Bool) → List ℕ → (cap : ℕ) → StreamMetadata → Option (List ℕ × ℕ)
  build_v1 false out cap m = none
  build_v1 true out cap m = do
    (source, destination) ← normalize_pair m
    from ← inet_ntop source.family source.addr
    to ← inet_ntop source.family destination.addr
    let line = v1_line source destination from to
    guard (not (leb cap (length line) || ltb 108 (length line)))
    some (blit 0 (line ++ (0 ∷ [])) out, length line)

  -- `none` for the metadata is NULL.
  unfoldable pub proxy_protocol_build :
      (feature_v1 feature_v2 : Bool)
      → List ℕ
      → (cap : ℕ) → Option StreamMetadata
      → Option (List ℕ × ℕ)
  proxy_protocol_build feature_v1 feature_v2 out cap none = some (out, 0)
  proxy_protocol_build feature_v1 feature_v2 out cap (some m) =
      if m.proxy_protocol == proxy_protocol_off
      then some (out, 0)
      else if m.proxy_protocol == proxy_protocol_v1
      then build_v1 feature_v1 out cap m
      else if m.proxy_protocol == proxy_protocol_v2
      then build_v2 feature_v2 out cap m
      else none
