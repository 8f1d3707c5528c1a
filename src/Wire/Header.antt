-- ===== src/Wire/Header.antt =====
-- src/protocol/protocol.c: the 36-byte header of a frame.
pub mod Codec
pub mod RoundTrip
use ctunnel.Prelude.{
  ℕ, ◌+◌, ◌≤◌, ◌<◌, ◌^◌, ◌≡◌, Bool, true, false, not, ◌&&◌, ◌||◌, Option, none, some, List, ◌==◌,
  ltb, if◌then◌else◌, get_or, set, drop,
}
use ctunnel.Wire.Ints.{put_u32, put_u64, get_u32, get_u64, at}

abbrev pub magic : ℕ
magic = 0x4354554e

abbrev pub protocol_version : ℕ
protocol_version = 3

abbrev pub flag_encrypted : ℕ
flag_encrypted = 1

abbrev pub frame_header_size : ℕ
frame_header_size = 36

-- `ct_frame_header`; `kind` is its `type`.
pub record FrameHeader : Type 0 where
  pub kind : ℕ
  pub flags : ℕ
  pub payload_len : ℕ
  pub session_id : ℕ
  pub stream_id : ℕ
  pub sequence : ℕ

unfoldable pub message_type_valid : ℕ → Bool
message_type_valid t =
    t == 1
    || t == 2
    || t == 3
    || t == 4
    || t == 5
    || t == 10
    || t == 11
    || t == 12
    || t == 13
    || t == 20
    || t == 21
    || t == 22
    || t == 23
    || t == 24
    || t == 25
    || t == 26
    || t == 27
    || t == 28
    || t == 30
    || t == 31
    || t == 32
    || t == 33

-- The writes of `ct_frame_header_encode` into the buffer `p`, in its order.
unfoldable pub frame_header_write : FrameHeader → List ℕ → List ℕ
frame_header_write h p =
    let p₁ = put_u32 p magic in
    let p₂ = set p₁ 4 protocol_version in
    let p₃ = set p₂ 5 h.kind in
    let p₄ = set p₃ 6 h.flags in
    let p₅ = set p₄ 7 frame_header_size in
    let p₆ = at 8 (λ q. put_u32 q h.payload_len) p₅ in
    let p₇ = at 12 (λ q. put_u64 q h.session_id) p₆ in
    let p₈ = at 20 (λ q. put_u64 q h.stream_id) p₇ in at 28 (λ q. put_u64 q h.sequence) p₈

-- The fields that `ct_frame_header_decode` reads.
unfoldable pub frame_header_read : List ℕ → FrameHeader
frame_header_read p = record {
  kind = get_or p 5 0;
  flags = get_or p 6 0;
  payload_len = get_u32 (drop 8 p);
  session_id = get_u64 (drop 12 p);
  stream_id = get_u64 (drop 20 p);
  sequence = get_u64 (drop 28 p);
}

-- `max_payload` is the build's CT_MAX_FRAME_PAYLOAD.
module _ (max_payload : ℕ) where
  unfoldable pub frame_header_encode : FrameHeader → List ℕ → Option (List ℕ)
  frame_header_encode h p =
      if not (message_type_valid h.kind) || ltb max_payload h.payload_len
      then none
      else some (frame_header_write h p)

  unfoldable pub frame_header_decode : List ℕ → Option FrameHeader
  frame_header_decode p =
      if not (get_u32 p == magic)
        || not (get_or p 4 0 == protocol_version)
        || not (get_or p 7 0 == frame_header_size)
        || not (message_type_valid (get_or p 5 0))
      then none
      else (let h = frame_header_read p in if ltb max_payload h.payload_len then none else some h)
