-- ===== src/Wire/Tests.antt =====
-- The wire formats on concrete frames, strings and services.
use ctunnel.Prelude.{
  ℕ, ◌+◌, ◌≤◌, ◌≡◌, refl, true, some, List, [], ◌∷◌, ◌++◌, length, take, replicate, All, arith,
}
use ctunnel.Types.{ServiceConfig}
use ctunnel.Wire.Ints.{IsByte, get_u32, get_u64}
use ctunnel.Wire.Ints.Laws.{big_endian}
use ctunnel.Wire.Header.{
  FrameHeader, message_type_valid, frame_header_encode, frame_header_decode, frame_header_read,
}
use ctunnel.Wire.Header.Codec.{layout}
use ctunnel.Wire.Header.RoundTrip.{frame_header_round_trip, frame_header_canonical}
use ctunnel.Wire.Text.{unpack_string}
use ctunnel.Wire.Text.Laws.{packed, unpack_string-packed, unpack_string-append}
use ctunnel.Wire.Record.{
  data_record_header_decode, data_record_header_decode_iff, data_record_header_decode_next,
}
use ctunnel.Wire.Register.{register_request_decode, register_request_encode}
use ctunnel.Wire.Register.Decode.{IsPackable, request_of}
use ctunnel.Wire.Register.RoundTrip.{register_request_round_trip}

abbrev ping : FrameHeader
ping = record {
  kind = 30;
  flags = 1;
  payload_len = 300;
  session_id = 7;
  stream_id = 0;
  sequence = 4660;
}

frame_header_round_trip_example :
    (b : List ℕ) × (frame_header_encode 16384 ping (replicate 36 0) ≡ some b)
    × (b ≡ layout ping)
    × (length b ≡ 36)
    × (frame_header_decode 16384 (b ++ (1 ∷ [])) ≡ some ping)
unfolding message_type_valid
frame_header_round_trip_example =
    frame_header_round_trip 16384 ping (replicate 36 0) (1 ∷ [])
      (record {
        kind_valid = refl;
        payload_fits = omega arith;
        payload_u32 = omega arith;
        flags_u8 = omega arith;
        session_u64 = omega arith;
        stream_u64 = omega arith;
        sequence_u64 = omega arith;
      })
      refl

abbrev ping_bytes : List ℕ
ping_bytes =
    0x43 ∷ 0x54 ∷ 0x55 ∷ 0x4e ∷ 3 ∷ 30 ∷ 1 ∷ 36 ∷ 0 ∷ 0 ∷ 1 ∷ 44 ∷ 0 ∷ 0 ∷ 0 ∷ 0 ∷ 0 ∷ 0 ∷ 0 ∷ 7 ∷ 0
    ∷ 0 ∷ 0 ∷ 0 ∷ 0 ∷ 0 ∷ 0 ∷ 0 ∷ 0 ∷ 0 ∷ 0 ∷ 0 ∷ 0 ∷ 0 ∷ 18 ∷ 52 ∷ []

ping_IsByte : All IsByte ping_bytes
ping_IsByte = ground arith

ping_decoded : frame_header_decode 16384 ping_bytes ≡ some ping
unfolding frame_header_decode get_u32 message_type_valid frame_header_read get_u64
ping_decoded = refl

frame_header_canonical_example :
    (frame_header_encode 16384 ping (replicate 36 255) ≡ some ping_bytes)
    × (message_type_valid 30 ≡ true)
    × (300 ≤ 16384)
frame_header_canonical_example =
    frame_header_canonical 16384 ping_bytes (replicate 36 255) ping refl ping_IsByte refl
      ping_decoded

abbrev text : List ℕ
text = 0x77 ∷ 0x65 ∷ 0x62 ∷ []

unpack_string-packed_example :
    unpack_string ((9 ∷ 9 ∷ []) ++ (packed text ++ (5 ∷ []))) 7 2 4
    ≡ some (text, 2 + (2 + length text))
unpack_string-packed_example =
    unpack_string-packed (9 ∷ 9 ∷ []) text (5 ∷ []) 7 2 4 refl (omega arith) (omega arith)
      (omega arith)

unpack_string-append_example :
    unpack_string ((0 ∷ 3 ∷ 0x77 ∷ []) ++ (0x65 ∷ 0x62 ∷ [])) 3 0 64
    ≡ unpack_string (0 ∷ 3 ∷ 0x77 ∷ []) 3 0 64
unpack_string-append_example =
    unpack_string-append (0 ∷ 3 ∷ 0x77 ∷ []) (0x65 ∷ 0x62 ∷ []) 3 0 64 refl

data_record_header_decode_iff_example :
    data_record_header_decode (big_endian 4 100 ++ (big_endian 8 6 ++ (1 ∷ []))) 16384 5
    ≡ some (100, 6)
data_record_header_decode_iff_example =
    data_record_header_decode_iff 100 6 16384 5 (1 ∷ []) (omega arith) (omega arith) (omega arith)

sixth :
    data_record_header_decode (big_endian 4 100 ++ (big_endian 8 6 ++ [])) 16384 5 ≡ some (100, 6)
unfolding data_record_header_decode get_u32 big_endian get_u64
sixth = refl

data_record_header_decode_next_example :
    (big_endian 4 100 ++ (big_endian 8 6 ++ []) ≡ big_endian 4 100 ++ (big_endian 8 6 ++ []))
    × (6 ≡ 5 + 1)
    × (16 ≤ 100)
    × (100 ≤ 16384 + 16)
unfolding big_endian
data_record_header_decode_next_example =
    data_record_header_decode_next (big_endian 4 100 ++ (big_endian 8 6 ++ [])) 16384 5
      (omega arith) (ground arith) sixth

abbrev buffer : List ℕ
buffer = replicate 40 7

abbrev short_buffer : List ℕ
short_buffer = replicate 12 7

abbrev web : ServiceConfig
web = record {
  id = text;
  remote_addr = 0x3a ∷ 0x3a ∷ [];
  local_addr = [];
  remote_port = 8080;
  local_port = 80;
  encryption = 1;
  kind = 2;
  proxy_protocol = 0;
  udp_idle_timeout = 60;
  udp_reply_timeout = 10;
  udp_max_sessions = 1024;
  udp_max_datagram_size = 1400;
  udp_options_seen = 0;
}

web-IsPackable : IsPackable 64 64 web
web-IsPackable = record {
  id_fits = omega arith;
  addr_fits = omega arith;
  id_small = omega arith;
  addr_small = omega arith;
  port_u16 = omega arith;
  kind_u8 = omega arith;
  encryption_u8 = omega arith;
  proxy_u8 = omega arith;
  idle_u32 = omega arith;
  reply_u32 = omega arith;
  sessions_u32 = omega arith;
  datagram_u32 = omega arith;
}

register_request_round_trip_example :
    (out : List ℕ × ℕ) × (register_request_encode true 64 64 web buffer ≡ some out)
    × (length out.0 ≡ length buffer)
    × (register_request_decode (take out.1 out.0) out.1 65 65 ≡ some (request_of true web))
register_request_round_trip_example =
    register_request_round_trip true web buffer 64 64 65 65 web-IsPackable (omega arith)
      (omega arith) (omega arith)
