-- ===== src/Wire/Header/Codec.antt =====
-- The frame header of src/protocol/protocol.c against its layout in docs/protocol.md.
use ctunnel.Prelude.{
  ℕ, ◌≤◌, ◌<◌, ◌^◌, ◌≡◌, refl, ap, ◌∙◌, true, List, [], ◌∷◌, ◌++◌, append_assoc, append-nil, length,
  length-append, length-drop, drop, set, arith,
}
use ctunnel.Wire.Ints.{put_u32, put_u64, at}
use ctunnel.Wire.Ints.Laws.{big_endian, length-big_endian}
use ctunnel.Wire.Ints.Read.{at-put_u32, at-put_u64}
use ctunnel.Wire.Header.{FrameHeader, magic, message_type_valid, frame_header_write}

-- The fields fit their C types, the message type is one of the protocol's, and the payload is within
-- the build's limit.
pub record IsFrame (max_payload : ℕ) (h : FrameHeader) : Type 0 where
  pub kind_valid : message_type_valid h.kind ≡ true
  pub payload_fits : h.payload_len ≤ max_payload
  pub payload_u32 : h.payload_len < 2 ^ 32
  pub flags_u8 : h.flags < 2 ^ 8
  pub session_u64 : h.session_id < 2 ^ 64
  pub stream_u64 : h.stream_id < 2 ^ 64
  pub sequence_u64 : h.sequence < 2 ^ 64

-- The layout of the table in docs/protocol.md.
abbrev pub numbers : FrameHeader → List ℕ
numbers h =
    big_endian 4 h.payload_len
    ++ (big_endian 8 h.session_id ++ (big_endian 8 h.stream_id ++ big_endian 8 h.sequence))

unfoldable pub layout : FrameHeader → List ℕ
layout h = 0x43 ∷ 0x54 ∷ 0x55 ∷ 0x4e ∷ 3 ∷ h.kind ∷ h.flags ∷ 36 ∷ numbers h

pub length-layout : (h : FrameHeader) → length (layout h) ≡ 36
unfolding layout
length-layout h = omega (
  arith,
  length-append (big_endian 4 h.payload_len)
      (big_endian 8 h.session_id ++ (big_endian 8 h.stream_id ++ big_endian 8 h.sequence)),
  length-append (big_endian 8 h.session_id) (big_endian 8 h.stream_id ++ big_endian 8 h.sequence),
  length-append (big_endian 8 h.stream_id) (big_endian 8 h.sequence),
  length-big_endian 4 h.payload_len,
  length-big_endian 8 h.session_id,
  length-big_endian 8 h.stream_id,
  length-big_endian 8 h.sequence,
)

-- The first eight bytes after the writes to them.
start : (kind flags : ℕ) (p : List ℕ) → List ℕ
start kind flags p = set (set (set (set (put_u32 p magic) 4 3) 5 kind) 6 flags) 7 36

start_lem :
    (kind flags : ℕ) (p : List ℕ)
    → 8 ≤ length p
    → start kind flags p ≡ (0x43 ∷ 0x54 ∷ 0x55 ∷ 0x4e ∷ 3 ∷ kind ∷ flags ∷ 36 ∷ []) ++ drop 8 p
unfolding start put_u32
start_lem kind flags [] h = absurd (omega arith)
start_lem kind flags (a ∷ []) h = absurd (omega arith)
start_lem kind flags (a ∷ b ∷ []) h = absurd (omega arith)
start_lem kind flags (a ∷ b ∷ c ∷ []) h = absurd (omega arith)
start_lem kind flags (a ∷ b ∷ c ∷ d ∷ []) h = absurd (omega arith)
start_lem kind flags (a ∷ b ∷ c ∷ d ∷ e ∷ []) h = absurd (omega arith)
start_lem kind flags (a ∷ b ∷ c ∷ d ∷ e ∷ f ∷ []) h = absurd (omega arith)
start_lem kind flags (a ∷ b ∷ c ∷ d ∷ e ∷ f ∷ g ∷ []) h = absurd (omega arith)
start_lem kind flags (a ∷ b ∷ c ∷ d ∷ e ∷ f ∷ g ∷ i ∷ p) h = refl

nil_of_length : (xs : List ℕ) → length xs ≡ 0 → xs ≡ []
nil_of_length [] e = refl
nil_of_length (x ∷ xs) e = absurd (omega arith)

-- The writes in sequence, over the prefix that is done.
module _ (h : FrameHeader) (p : List ℕ) (size : length p ≡ 36) where
  open h use {kind, flags, payload_len, session_id, stream_id, sequence}

  front : List ℕ
  front = 0x43 ∷ 0x54 ∷ 0x55 ∷ 0x4e ∷ 3 ∷ kind ∷ flags ∷ 36 ∷ []

  front₁ : List ℕ
  front₁ = front ++ big_endian 4 payload_len

  front₂ : List ℕ
  front₂ = front₁ ++ big_endian 8 session_id

  front₃ : List ℕ
  front₃ = front₂ ++ big_endian 8 stream_id

  length-front₁ : length front₁ ≡ 12
  unfolding front₁ front
  length-front₁ =
      omega (arith, length-append front (big_endian 4 payload_len), length-big_endian 4 payload_len)

  length-front₂ : length front₂ ≡ 20
  unfolding front₂
  length-front₂ = omega (
    arith,
    length-front₁,
    length-append front₁ (big_endian 8 session_id),
    length-big_endian 8 session_id,
  )

  length-front₃ : length front₃ ≡ 28
  unfolding front₃
  length-front₃ = omega (
    arith,
    length-front₂,
    length-append front₂ (big_endian 8 stream_id),
    length-big_endian 8 stream_id,
  )

  rest : List ℕ
  rest = drop 8 (drop 8 (drop 4 (drop 8 p)))

  frame_header_write_chain :
      frame_header_write h p ≡ (front₃ ++ big_endian 8 sequence) ++ drop 8 rest
  unfolding frame_header_write start front front₁ front₂ front₃ rest
  frame_header_write_chain =
      ap
        (λ (b : List ℕ).
          at 28 (λ q. put_u64 q sequence)
            (at 20 (λ q. put_u64 q stream_id)
              (at 12 (λ q. put_u64 q session_id) (at 8 (λ q. put_u32 q payload_len) b))))
        (start_lem kind flags p (omega arith))
      ∙ ap
          (λ (b : List ℕ).
            at 28 (λ q. put_u64 q sequence)
              (at 20 (λ q. put_u64 q stream_id) (at 12 (λ q. put_u64 q session_id) b)))
          (at-put_u32 8 payload_len front (drop 8 p) refl (omega (arith, length-drop 8 p)))
      ∙ ap (λ (b : List ℕ). at 28 (λ q. put_u64 q sequence) (at 20 (λ q. put_u64 q stream_id) b))
          (at-put_u64 12 session_id front₁ (drop 4 (drop 8 p)) length-front₁
            (omega (arith, length-drop 8 p, length-drop 4 (drop 8 p))))
      ∙ ap (λ (b : List ℕ). at 28 (λ q. put_u64 q sequence) b)
          (at-put_u64 20 stream_id front₂ (drop 8 (drop 4 (drop 8 p))) length-front₂ (
            omega (
              arith,
              length-drop 8 p,
              length-drop 4 (drop 8 p),
              length-drop 8 (drop 4 (drop 8 p)),
            )))
      ∙ at-put_u64 28 sequence front₃ rest length-front₃ (omega (arith, length-rest))
    where
      length-rest : length rest ≡ 8
      length-rest = omega (
        arith,
        length-drop 8 p,
        length-drop 4 (drop 8 p),
        length-drop 8 (drop 4 (drop 8 p)),
        length-drop 8 (drop 8 (drop 4 (drop 8 p))),
      )

  -- Whatever the buffer held, it holds the layout afterwards.
  pub frame_header_write-layout : frame_header_write h p ≡ layout h
  unfolding layout rest front₃ front₂ front₁ front
  frame_header_write-layout =
      frame_header_write_chain
      ∙ ap ((front₃ ++ big_endian 8 sequence) ++◌) (
          nil_of_length (drop 8 rest) (
            omega (
              arith,
              length-drop 8 p,
              length-drop 4 (drop 8 p),
              length-drop 8 (drop 4 (drop 8 p)),
              length-drop 8 (drop 8 (drop 4 (drop 8 p))),
              length-drop 8 rest,
            )))
      ∙ simp (append-nil, append_assoc)
