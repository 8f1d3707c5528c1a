-- ===== src/Replay.antt =====
-- Sliding windows against replayed sequence numbers: `accept_work_sequence` of src/net/net.c for work
-- connections, and `udp_replay_accept`, which src/server/server.c and src/client/client.c share, for
-- datagrams.
pub mod History
mod Tests
use ctunnel.Prelude.{
  ℕ, ◌+◌, ◌-◌, ◌*◌, ◌%◌, ◌^◌, Bool, true, false, not, bit_and, bit_or, ltb, leb, ◌==◌,
  if◌then◌else◌,
}

-- The highest sequence number that was accepted, and the bits of those just below it.
pub record Window : Type 0 where
  pub high : ℕ
  pub bitmap : ℕ

unfoldable pub start : Window
start = record { high = 0; bitmap = 0 }

-- `(*bitmap << shift) | 1` on 64 bits, where C defines the shift.
unfoldable pub slide : (bitmap shift : ℕ) → ℕ
slide bitmap shift = if leb 64 shift then 1 else bit_or (bitmap * 2 ^ shift % 2 ^ 64) 1

-- `size` is CONFIG_UDP_REPLAY_WINDOW. C defines `1 << behind` for a size of at most 64.
unfoldable pub udp_replay_accept : (size : ℕ) → Window → (seq : ℕ) → Bool × Window
udp_replay_accept size w seq =
    if seq == 0
    then (false, w)
    else if ltb w.high seq
    then (true, record { high = seq; bitmap = slide w.bitmap (seq - w.high) })
    else if leb size (w.high - seq)
    then (false, w)
    else if not (bit_and w.bitmap (2 ^ (w.high - seq)) == 0)
    then (false, w)
    else (true, record w { bitmap = bit_or w.bitmap (2 ^ (w.high - seq)) })

unfoldable pub accept_work_sequence : Window → (sequence : ℕ) → Bool × Window
accept_work_sequence w sequence =
    if sequence == 0
    then (false, w)
    else if ltb w.high sequence
    then (true, record { high = sequence; bitmap = slide w.bitmap (sequence - w.high) })
    else if leb 64 (w.high - sequence)
    then (false, w)
    else if not (bit_and w.bitmap (2 ^ (w.high - sequence)) == 0)
    then (false, w)
    else (true, record w { bitmap = bit_or w.bitmap (2 ^ (w.high - sequence)) })
