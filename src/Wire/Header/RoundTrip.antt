-- ===== src/Wire/Header/RoundTrip.antt =====
-- Encoding and decoding a frame header, one after the other: src/protocol/protocol.c.
use ctunnel.Prelude.{
  ℕ, ◌+◌, ◌≤◌, ◌≡◌, refl, sym, ap, ap₂, ◌∙◌, true, some, List, [], ◌∷◌, ◌++◌, append_assoc, length,
  length-drop, length-take, drop, take, get_or, All, All-take, All-drop, take-append-drop, take_all,
  drop-append, drop-drop, arith,
}
use ctunnel.Wire.Ints.{IsByte, get_u32, get_u64}
use ctunnel.Wire.Ints.Laws.{big_endian, length-big_endian}
use ctunnel.Wire.Ints.Read.{
  get_u32-big_endian, get_u64-big_endian, big_endian-get_u32, big_endian-get_u64,
}
use ctunnel.Wire.Header.{
  FrameHeader, magic, message_type_valid, frame_header_read, frame_header_encode,
  frame_header_decode,
}
use ctunnel.Wire.Header.Codec.{IsFrame, numbers, layout, length-layout, frame_header_write-layout}

module _ {m : ℕ} {h : FrameHeader} (v : IsFrame m h) (more : List ℕ) where
  open h use {kind, flags, payload_len, session_id, stream_id, sequence}

  -- The integers behind the first eight bytes, each with what follows it.
  last : List ℕ
  last = big_endian 8 sequence ++ more

  streams : List ℕ
  streams = big_endian 8 stream_id ++ last

  sessions : List ℕ
  sessions = big_endian 8 session_id ++ streams

  numbers-append : numbers h ++ more ≡ big_endian 4 payload_len ++ sessions
  unfolding last streams sessions
  numbers-append = simp append_assoc

  frame_header_read-layout : frame_header_read (layout h ++ more) ≡ h
  unfolding frame_header_read layout
  frame_header_read-layout = λ i. record {
    kind = kind;
    flags = flags;
    payload_len = payload i;
    session_id = session i;
    stream_id = stream i;
    sequence = seq i;
  }
    where
      payload : get_u32 (numbers h ++ more) ≡ payload_len
      payload = ap get_u32 numbers-append ∙ get_u32-big_endian payload_len sessions v.payload_u32

      at₁ : drop 4 (numbers h ++ more) ≡ sessions
      at₁ =
          ap (drop 4) numbers-append
          ∙ drop-append 4 (big_endian 4 payload_len) sessions (length-big_endian 4 payload_len)

      at₂ : drop 12 (numbers h ++ more) ≡ streams
      at₂ =
          sym (drop-drop 8 4 (numbers h ++ more))
          ∙ ap (drop 8) at₁
          ∙ (unfold sessions in
              drop-append 8 (big_endian 8 session_id) streams (length-big_endian 8 session_id))

      at₃ : drop 20 (numbers h ++ more) ≡ last
      at₃ =
          sym (drop-drop 8 12 (numbers h ++ more))
          ∙ ap (drop 8) at₂
          ∙ (unfold streams in
              drop-append 8 (big_endian 8 stream_id) last (length-big_endian 8 stream_id))

      session : get_u64 (drop 4 (numbers h ++ more)) ≡ session_id
      session =
          ap get_u64 at₁ ∙ (unfold sessions in get_u64-big_endian session_id streams v.session_u64)

      stream : get_u64 (drop 12 (numbers h ++ more)) ≡ stream_id
      stream = ap get_u64 at₂ ∙ (unfold streams in get_u64-big_endian stream_id last v.stream_u64)

      seq : get_u64 (drop 20 (numbers h ++ more)) ≡ sequence
      seq = ap get_u64 at₃ ∙ (unfold last in get_u64-big_endian sequence more v.sequence_u64)

  magic_lem : get_u32 (layout h ++ more) ≡ magic
  unfolding layout get_u32
  magic_lem = refl

  pub frame_header_decode-layout : frame_header_decode m (layout h ++ more) ≡ some h
  unfolding frame_header_decode
  frame_header_decode-layout =
      let e₄ : get_or (layout h ++ more) 4 0 ≡ 3 = (unfold layout in refl) in
      let e₅ : get_or (layout h ++ more) 5 0 ≡ kind = (unfold layout in refl) in
      let e₇ : get_or (layout h ++ more) 7 0 ≡ 36 = (unfold layout in refl) in
      ground (arith, magic_lem, frame_header_read-layout, v.kind_valid, v.payload_fits, e₄, e₅, e₇)

-- What a successful decoding says of the bytes.
decode_facts :
    (m : ℕ) (p : List ℕ) {h : FrameHeader}
    → frame_header_decode m p ≡ some h
    → (get_u32 p ≡ magic)
      × (get_or p 4 0 ≡ 3)
      × (get_or p 7 0 ≡ 36)
      × (message_type_valid h.kind ≡ true)
      × (h.payload_len ≤ m)
      × (frame_header_read p ≡ h)
unfolding frame_header_decode frame_header_read
decode_facts m p e = ground arith

-- The 28 bytes of numbers are the digits of what is read from them.
module _ (q : List ℕ) (size : length q ≡ 28) (bytes : All IsByte q) where
  digits₄ : big_endian 4 (get_u32 q) ≡ take 4 q
  digits₄ =
      ap (λ (t : List ℕ). big_endian 4 (get_u32 t)) (sym (take-append-drop 4 q))
      ∙ big_endian-get_u32 (take 4 q) (drop 4 q) (omega (arith, length-take 4 q))
          (All-take IsByte 4 q bytes)

  digits₈ : (k : ℕ) → k + 8 ≤ 28 → big_endian 8 (get_u64 (drop k q)) ≡ take 8 (drop k q)
  digits₈ k room =
      ap (λ (t : List ℕ). big_endian 8 (get_u64 t)) (sym (take-append-drop 8 (drop k q)))
      ∙ big_endian-get_u64 (take 8 (drop k q)) (drop 8 (drop k q))
          (omega (arith, length-take 8 (drop k q), length-drop k q))
          (All-take IsByte 8 (drop k q) (All-drop IsByte k q bytes))

  cut : (k : ℕ) → take 8 (drop k q) ++ drop (k + 8) q ≡ drop k q
  cut k = ap (take 8 (drop k q) ++◌) (sym (drop-drop 8 k q)) ∙ take-append-drop 8 (drop k q)

  digits_all :
      big_endian 4 (get_u32 q)
        ++ (big_endian 8 (get_u64 (drop 4 q))
            ++ (big_endian 8 (get_u64 (drop 12 q)) ++ big_endian 8 (get_u64 (drop 20 q))))
      ≡ q
  digits_all =
      ap₂ ◌++◌ digits₄ (
        ap₂ ◌++◌ (digits₈ 4 (omega arith)) (
          ap₂ ◌++◌ (digits₈ 12 (omega arith))
            (digits₈ 20 (omega arith) ∙ take_all 8 (drop 20 q) (omega (arith, length-drop 20 q)))
          ∙ cut 12)
        ∙ cut 4)
      ∙ take-append-drop 4 q

layout-read :
    (p : List ℕ)
    → length p ≡ 36
    → All IsByte p
    → get_u32 p ≡ magic
    → get_or p 4 0 ≡ 3
    → get_or p 7 0 ≡ 36
    → layout (frame_header_read p) ≡ p
unfolding layout frame_header_read big_endian
layout-read [] e b g₀ g₄ g₇ = absurd (omega arith)
layout-read (x₀ ∷ []) e b g₀ g₄ g₇ = absurd (omega arith)
layout-read (x₀ ∷ x₁ ∷ []) e b g₀ g₄ g₇ = absurd (omega arith)
layout-read (x₀ ∷ x₁ ∷ x₂ ∷ []) e b g₀ g₄ g₇ = absurd (omega arith)
layout-read (x₀ ∷ x₁ ∷ x₂ ∷ x₃ ∷ []) e b g₀ g₄ g₇ = absurd (omega arith)
layout-read (x₀ ∷ x₁ ∷ x₂ ∷ x₃ ∷ x₄ ∷ []) e b g₀ g₄ g₇ = absurd (omega arith)
layout-read (x₀ ∷ x₁ ∷ x₂ ∷ x₃ ∷ x₄ ∷ x₅ ∷ []) e b g₀ g₄ g₇ = absurd (omega arith)
layout-read (x₀ ∷ x₁ ∷ x₂ ∷ x₃ ∷ x₄ ∷ x₅ ∷ x₆ ∷ []) e b g₀ g₄ g₇ = absurd (omega arith)
layout-read (x₀ ∷ x₁ ∷ x₂ ∷ x₃ ∷ x₄ ∷ x₅ ∷ x₆ ∷ x₇ ∷ q) e b g₀ g₄ g₇ =
    ap (λ (t : List ℕ). t ++ (3 ∷ x₅ ∷ x₆ ∷ 36 ∷ numbers (frame_header_read whole))) identity
    ∙ ap₂ (λ (s t : ℕ). x₀ ∷ x₁ ∷ x₂ ∷ x₃ ∷ s ∷ x₅ ∷ x₆ ∷ t ∷ numbers (frame_header_read whole))
        (sym g₄) (sym g₇)
    ∙ ap (λ (t : List ℕ). x₀ ∷ x₁ ∷ x₂ ∷ x₃ ∷ x₄ ∷ x₅ ∷ x₆ ∷ x₇ ∷ t)
        (digits_all q (omega arith) (b.1.1.1.1.1.1.1.1))
  where
    whole : List ℕ
    whole = x₀ ∷ x₁ ∷ x₂ ∷ x₃ ∷ x₄ ∷ x₅ ∷ x₆ ∷ x₇ ∷ q

    four : All IsByte (x₀ ∷ x₁ ∷ x₂ ∷ x₃ ∷ [])
    four = All-take IsByte 4 whole b

    identity : big_endian 4 magic ≡ x₀ ∷ x₁ ∷ x₂ ∷ x₃ ∷ []
    identity =
        ap (big_endian 4) (sym g₀)
        ∙ big_endian-get_u32 (x₀ ∷ x₁ ∷ x₂ ∷ x₃ ∷ []) (x₄ ∷ x₅ ∷ x₆ ∷ x₇ ∷ q) refl four

-- A valid header is encoded, the 36 bytes are those of the protocol's table whatever the buffer held,
-- and decoding them, with any bytes behind, gives the header back.
pub frame_header_round_trip :
    (m : ℕ) (h : FrameHeader) (buffer more : List ℕ)
    → IsFrame m h
    → length buffer ≡ 36
    → (b : List ℕ) × (frame_header_encode m h buffer ≡ some b)
      × (b ≡ layout h)
      × (length b ≡ 36)
      × (frame_header_decode m (b ++ more) ≡ some h)
unfolding frame_header_encode
frame_header_round_trip m h buffer more v size = (
  layout h,
  ground (arith, v.kind_valid, v.payload_fits, frame_header_write-layout h buffer size),
  refl,
  length-layout h,
  frame_header_decode-layout v more,
)

-- The 36 bytes that decode to a header are the encoding of that header: no two byte strings decode
-- alike, and what is decoded has a valid type and a payload within the limit.
pub frame_header_canonical :
    (m : ℕ) (p buffer : List ℕ) (h : FrameHeader)
    → length p ≡ 36
    → All IsByte p
    → length buffer ≡ 36
    → frame_header_decode m p ≡ some h
    → (frame_header_encode m h buffer ≡ some p)
      × (message_type_valid h.kind ≡ true)
      × (h.payload_len ≤ m)
unfolding frame_header_encode
frame_header_canonical m p buffer h size bytes size' e =
    let (g₀, g₄, g₇, kind, fits, same) = decode_facts m p e in
    let bytes_back : layout h ≡ p = ap layout (sym same) ∙ layout-read p size bytes g₀ g₄ g₇ in
    let written = frame_header_write-layout h buffer size' ∙ bytes_back in
    (ground (arith, kind, fits, written), kind, fits)
