-- ===== src/Wire/Record.antt =====
-- src/protocol/protocol.c: `ct_data_record_header_decode`, the header of an encrypted data record.
use ctunnel.Prelude.{
  ℕ, ◌+◌, ◌-◌, ◌≤◌, ◌<◌, ◌^◌, ◌≡◌, ◌||◌, not, Option, none, some, List, ◌++◌, ltb, leb, ◌&&◌, ◌==◌,
  if◌then◌else◌, length, length-take, length-drop, take, drop, All, All-take, All-drop,
  take-append-drop, drop-append, drop-drop, sym, ap, ap₂, ◌∙◌, arith,
}
use ctunnel.Wire.Ints.{IsByte, get_u32, get_u64}
use ctunnel.Wire.Ints.Laws.{big_endian, length-big_endian}
use ctunnel.Wire.Ints.Read.{
  get_u32-big_endian, get_u64-big_endian, big_endian-get_u32, big_endian-get_u64,
}

abbrev pub record_tag_size : ℕ
record_tag_size = 16

-- The encoded length and the sequence of the header; `none` is -1. The sum `previous + 1` is reached
-- below UINT64_MAX alone, and `max_plaintext + 16` below UINT32_MAX.
unfoldable pub data_record_header_decode :
    (header : List ℕ) (max_plaintext previous : ℕ) → Option (ℕ × ℕ)
data_record_header_decode header max_plaintext previous =
    let size = get_u32 header in
    let received = get_u64 (drop 4 header) in
    if ltb (2 ^ 32 - 1 - record_tag_size) max_plaintext
      || ltb size record_tag_size
      || ltb (max_plaintext + record_tag_size) size
      || previous == 2 ^ 64 - 1
      || not (received == previous + 1)
    then none
    else some (size, received)

-- A header that carries a length and a sequence is decoded to the two when the length is that of at
-- most `max_plaintext` bytes and their tag, and the sequence is the next one. Every other header is
-- refused: a repeated, skipped, reordered or wrapped sequence, and a length out of bounds. The two
-- fit their 4 and 8 bytes, and so does the length for `max_plaintext`.
pub data_record_header_decode_iff :
    (size sequence max_plaintext previous : ℕ) (rest : List ℕ)
    → size < 2 ^ 32
    → sequence < 2 ^ 64
    → max_plaintext + 16 < 2 ^ 32
    → data_record_header_decode
        (big_endian 4 size ++ (big_endian 8 sequence ++ rest))
        max_plaintext
        previous
      ≡ (if leb 16 size && leb size (max_plaintext + 16) && sequence == previous + 1
          then some (size, sequence)
          else none)
unfolding data_record_header_decode
data_record_header_decode_iff size sequence max_plaintext previous rest hs hq hm =
    ground (arith, length_read, sequence_read)
  where
    header : List ℕ
    header = big_endian 4 size ++ (big_endian 8 sequence ++ rest)

    length_read : get_u32 header ≡ size
    length_read = get_u32-big_endian size (big_endian 8 sequence ++ rest) hs

    sequence_read : get_u64 (drop 4 header) ≡ sequence
    sequence_read =
        ap get_u64 (
          drop-append 4 (big_endian 4 size) (big_endian 8 sequence ++ rest)
            (length-big_endian 4 size))
        ∙ get_u64-big_endian sequence rest hq

-- What a successful decoding says of the header.
pub decode_facts :
    (header : List ℕ) (max_plaintext previous : ℕ) {size sequence : ℕ}
    → data_record_header_decode header max_plaintext previous ≡ some (size, sequence)
    → (get_u32 header ≡ size)
      × (get_u64 (drop 4 header) ≡ sequence)
      × (sequence ≡ previous + 1)
      × (16 ≤ size)
      × (size ≤ max_plaintext + 16)
unfolding data_record_header_decode
decode_facts header max_plaintext previous e = ground arith

-- Whatever bytes stand in the header: when they are accepted, the first twelve are the length and the
-- number behind `previous` in big-endian order, the length is that of at most `max_plaintext` bytes
-- and their tag, and these two are what is yielded. So no other header is accepted.
pub data_record_header_decode_next :
    (header : List ℕ) (max_plaintext previous : ℕ) {size sequence : ℕ}
    → 12 ≤ length header
    → All IsByte header
    → data_record_header_decode header max_plaintext previous ≡ some (size, sequence)
    → (header ≡ big_endian 4 size ++ (big_endian 8 (previous + 1) ++ drop 12 header))
      × (sequence ≡ previous + 1)
      × (16 ≤ size)
      × (size ≤ max_plaintext + 16)
data_record_header_decode_next header max_plaintext previous {size} {sequence} long bytes e =
    let (size_read, sequence_read, next, least, most) =
      decode_facts header max_plaintext previous e in
    (
      sym (take-append-drop 4 header)
          ∙ ap₂ ◌++◌ (sym digits₄ ∙ ap (big_endian 4) size_read) (
              sym (take-append-drop 8 (drop 4 header))
              ∙ ap₂ ◌++◌ (sym digits₈ ∙ ap (big_endian 8) (sequence_read ∙ next))
                  (drop-drop 8 4 header)),
      next,
      least,
      most,
    )
  where
    digits₄ : big_endian 4 (get_u32 header) ≡ take 4 header
    digits₄ =
        ap (λ (t : List ℕ). big_endian 4 (get_u32 t)) (sym (take-append-drop 4 header))
        ∙ big_endian-get_u32 (take 4 header) (drop 4 header) (omega (arith, length-take 4 header))
            (All-take IsByte 4 header bytes)

    digits₈ : big_endian 8 (get_u64 (drop 4 header)) ≡ take 8 (drop 4 header)
    digits₈ =
        ap (λ (t : List ℕ). big_endian 8 (get_u64 t)) (sym (take-append-drop 8 (drop 4 header)))
        ∙ big_endian-get_u64 (take 8 (drop 4 header)) (drop 8 (drop 4 header))
            (omega (arith, length-take 8 (drop 4 header), length-drop 4 header))
            (All-take IsByte 8 (drop 4 header) (All-drop IsByte 4 header bytes))
