-- ===== src/Replay/History.antt =====
-- A window against the history of what it accepted.
use ctunnel.Prelude.{
  ℕ, ◌+◌, ◌-◌, ◌*◌, ◌%◌, ◌^◌, ◌≤◌, ◌<◌, ◌≡◌, refl, sym, ap, ◌∙◌, ◌↔◌, ◌≢◌, Bool, true, false, List,
  [], ◌∷◌, bit_and, bit_or, ltb, ◌==◌, if◌then◌else◌, arith,
}
use ctunnel.Prelude.Bits.{
  bit, bit-le-one, bit-bit_or, bit-two-pow_self, bit-two-pow_ne, bit_and-two-pow, bit-mod_lt,
  bit-shift_lt, bit-shift,
}
use ctunnel.Replay.{Window, start, slide, udp_replay_accept, accept_work_sequence}
use native.Mathlib.Decide.{dec_lt, ℕ_discrete}
use native.Mathlib.Nat.{one-le-pow}

-- How often `s` stands in a history.
unfoldable pub count : ℕ → List ℕ → ℕ
count s [] = 0
count s (x ∷ xs) = (if x == s then 1 else 0) + count s xs

-- The bits of the window are the history's, for the 64 numbers from the highest down; nothing above
-- the highest was accepted, and nothing twice.
pub record Tracks (w : Window) (seen : List ℕ) : Type 0 where
  pub marked : (j : ℕ) → j < 64 → j < w.high → bit j w.bitmap ≡ count (w.high - j) seen
  pub below : (s : ℕ) → w.high < s → count s seen ≡ 0
  pub once : (s : ℕ) → count s seen ≤ 1

-- The bits after the window has moved up by `shift`.
bit-slide :
    (bitmap shift j : ℕ)
    → 0 < shift
    → j < 64
    → bit j (slide bitmap shift)
      ≡ (if j == 0 then 1 else if ltb j shift then 0 else bit (j - shift) bitmap)
unfolding slide
bit-slide bitmap shift j pos h = elim (dec_lt shift 64) [
  | yes near ↦ ground (
    arith,
    bit-bit_or j (bitmap * 2 ^ shift % 2 ^ 64) 1,
    bit-mod_lt 64 j (bitmap * 2 ^ shift) h,
    bit-two-pow_ne j 0,
    bit-two-pow_self 0,
    bit-shift_lt shift j bitmap,
    shifted,
    bit-le-one (j - shift) bitmap,
    bit-le-one j (bitmap * 2 ^ shift),
  )
  | no far ↦ ground (arith, bit-two-pow_ne j 0, bit-two-pow_self 0)
]
  where
    shifted : shift ≤ j → bit j (bitmap * 2 ^ shift) ≡ bit (j - shift) bitmap
    shifted le =
        let e : j ≡ shift + (j - shift) = omega arith in
        ap (λ (t : ℕ). bit t (bitmap * 2 ^ shift)) e ∙ bit-shift shift (j - shift) bitmap

-- A number above the highest is accepted, and the window moves up to it.
moved_up :
    {w : Window} {seen : List ℕ} (seq : ℕ)
    → Tracks w seen
    → w.high < seq
    → Tracks (record { high = seq; bitmap = slide w.bitmap (seq - w.high) }) (seq ∷ seen)
unfolding count
moved_up {w} {seen} seq v up = record { marked = marked; below = below; once = once }
  where
    below : (s : ℕ) → seq < s → count s (seq ∷ seen) ≡ 0
    below s h = ground (arith, v.below s)

    once : (s : ℕ) → count s (seq ∷ seen) ≤ 1
    once s = ground (arith, v.below s, v.once s)

    marked :
        (j : ℕ)
        → j < 64
        → j < seq
        → bit j (slide w.bitmap (seq - w.high)) ≡ count (seq - j) (seq ∷ seen)
    marked j h₁ h₂ = elim (dec_lt j (seq - w.high)) [
      | yes fresh ↦ ground (
        arith,
        bit-slide w.bitmap (seq - w.high) j (omega arith) h₁,
        v.below (seq - j),
        v.below seq,
      )
      | no old ↦
          let e : w.high - (j - (seq - w.high)) ≡ seq - j = omega arith in
          ground (
            arith,
            bit-slide w.bitmap (seq - w.high) j (omega arith) h₁,
            v.marked (j - (seq - w.high)),
            ap (λ (t : ℕ). count t seen) e,
          )
    ]

-- A number inside the window that was not seen is accepted, and its bit is set.
marked_in :
    {w : Window} {seen : List ℕ} (seq : ℕ)
    → Tracks w seen
    → 0 < seq
    → seq ≤ w.high
    → count seq seen ≡ 0
    → Tracks (record w { bitmap = bit_or w.bitmap (2 ^ (w.high - seq)) }) (seq ∷ seen)
unfolding count
marked_in {w} {seen} seq v pos low new = record { marked = marked; below = below; once = once }
  where
    below : (s : ℕ) → w.high < s → count s (seq ∷ seen) ≡ 0
    below s h = ground (arith, v.below s h)

    once : (s : ℕ) → count s (seq ∷ seen) ≤ 1
    once s = elim (ℕ_discrete seq s) [
      | yes same ↦
          let e : count s seen ≡ 0 = ap (λ (t : ℕ). count t seen) (sym same) ∙ new in
          ground (arith, e)
      | no other ↦ ground (arith, v.once s)
    ]

    marked :
        (j : ℕ)
        → j < 64
        → j < w.high
        → bit j (bit_or w.bitmap (2 ^ (w.high - seq))) ≡ count (w.high - j) (seq ∷ seen)
    marked j h₁ h₂ = elim (ℕ_discrete j (w.high - seq)) [
      | yes here ↦
          let same : w.high - j ≡ seq = omega arith in
          let single : bit j (2 ^ (w.high - seq)) ≡ 1 =
            ap (λ (t : ℕ). bit j (2 ^ t)) (sym here) ∙ bit-two-pow_self j in
          ground (
            arith,
            bit-bit_or j w.bitmap (2 ^ (w.high - seq)),
            single,
            v.marked j h₁ h₂,
            ap (λ (t : ℕ). count t seen) same,
          )
      | no other ↦ ground (
        arith,
        bit-bit_or j w.bitmap (2 ^ (w.high - seq)),
        bit-two-pow_ne j (w.high - seq) other,
        v.marked j h₁ h₂,
      )
    ]

-- The mask test of the code reads one bit.
mask_test : (w : Window) (k : ℕ) → (bit_and w.bitmap (2 ^ k) == 0) ≡ (bit k w.bitmap == 0)
mask_test w k = elim (ℕ_discrete (bit k w.bitmap) 0) [
  | yes clear ↦
      let e : bit_and w.bitmap (2 ^ k) ≡ 0 =
        bit_and-two-pow k w.bitmap ∙ ap (λ (t : ℕ). t * 2 ^ k) clear ∙ omega arith in
      ground (arith, e, clear)
  | no set ↦
      let one : bit k w.bitmap ≡ 1 = omega (arith, bit-le-one k w.bitmap) in
      let e : bit_and w.bitmap (2 ^ k) ≡ 2 ^ k =
        bit_and-two-pow k w.bitmap ∙ ap (λ (t : ℕ). t * 2 ^ k) one ∙ omega arith in
      ground (arith, e, one, one-le-pow k 2)
]

-- What a call should answer, and with which window.
abbrev pub Judged : ℕ → Window → List ℕ → ℕ → Bool × Window → Type 0
Judged size w seen seq r =
    ((r.0 ≡ true) ↔ ((0 < seq) × (w.high < seq + size) × (count seq seen ≡ 0)))
    × Tracks r.1 (if r.0 then seq ∷ seen else seen)
    × (r.1 ≡ (if r.0 then r.1 else w))

accepted :
    (size : ℕ) (w : Window) (seen : List ℕ) (seq : ℕ) (w' : Window)
    → (0 < seq) × (w.high < seq + size) × (count seq seen ≡ 0)
    → Tracks w' (seq ∷ seen)
    → Judged size w seen seq (true, w')
accepted size w seen seq w' h t = ((λ _. h, λ _. refl), t, refl)

refused :
    (size : ℕ) {w : Window} {seen : List ℕ} (seq : ℕ)
    → Tracks w seen
    → ¬ ((0 < seq) × (w.high < seq + size) × (count seq seen ≡ 0))
    → Judged size w seen seq (false, w)
refused size seq v h = ((λ e. cc, λ g. absurd (h g)), v, refl)

-- The branches of the call.
module _ (size : ℕ) (w : Window) (seq : ℕ) where
  call_zero : seq ≡ 0 → udp_replay_accept size w seq ≡ (false, w)
  unfolding udp_replay_accept
  call_zero h = ground arith

  call_up :
      w.high < seq
      → udp_replay_accept size w seq
        ≡ (true, record { high = seq; bitmap = slide w.bitmap (seq - w.high) })
  unfolding udp_replay_accept
  call_up h = ground arith

  call_old : seq ≤ w.high → size ≤ w.high - seq → udp_replay_accept size w seq ≡ (false, w)
  unfolding udp_replay_accept
  call_old h k = ground arith

  call_seen :
      0 < seq
      → seq ≤ w.high
      → bit (w.high - seq) w.bitmap ≢ 0
      → udp_replay_accept size w seq ≡ (false, w)
  unfolding udp_replay_accept
  call_seen h k b = ground (arith, mask_test w (w.high - seq))

  call_new :
      0 < seq
      → seq ≤ w.high
      → w.high - seq < size
      → bit (w.high - seq) w.bitmap ≡ 0
      → udp_replay_accept size w seq
        ≡ (true, record w { bitmap = bit_or w.bitmap (2 ^ (w.high - seq)) })
  unfolding udp_replay_accept
  call_new h k l b = ground (arith, mask_test w (w.high - seq))

-- One call against the history. A number is accepted exactly when it is not zero, lies less than
-- `size` below the highest or above it, and was not accepted before; the window then tracks the longer
-- history. A refusal changes nothing. The size is at most 64, the bits of the window.
pub udp_replay_accept_lem :
    (size : ℕ) (w : Window) (seen : List ℕ) (seq : ℕ)
    → size ≤ 64
    → Tracks w seen
    → Judged size w seen seq (udp_replay_accept size w seq)
udp_replay_accept_lem size w seen seq small v = elim (ℕ_discrete seq 0) [
  | yes zeroth ↦ rw (call_zero size w seq zeroth) (refused size seq v (λ g. omega arith))
  | no pos ↦ elim (dec_lt w.high seq) [
    | yes up ↦
        rw (call_up size w seq up) (
          accepted size w seen seq _ (omega arith, omega arith, v.below seq up) (moved_up seq v up))
    | no low ↦ elim (dec_lt (w.high - seq) size) [
      | no old ↦
          rw (call_old size w seq (omega arith) (omega arith))
            (refused size seq v (λ g. omega arith))
      | yes near ↦
          let mark : bit (w.high - seq) w.bitmap ≡ count seq seen =
            here (omega arith) (omega arith) (omega arith) in
          elim (ℕ_discrete (bit (w.high - seq) w.bitmap) 0) [
            | yes clear ↦ rw (call_new size w seq (omega arith) (omega arith) near clear) (
                accepted size w seen seq _ (omega arith, omega arith, omega arith)
                  (marked_in seq v (omega arith) (omega arith) (omega arith)))
            | no set ↦
                rw (call_seen size w seq (omega arith) (omega arith) set)
                  (refused size seq v (λ g. omega arith))
          ]
    ]
  ]
]
  where
    here : w.high - seq < 64 → 0 < seq → seq ≤ w.high → bit (w.high - seq) w.bitmap ≡ count seq seen
    here near pos low =
        let e : w.high - (w.high - seq) ≡ seq = omega arith in
        v.marked (w.high - seq) near (omega arith) ∙ ap (λ (t : ℕ). count t seen) e

pub start-Tracks : Tracks start []
unfolding start count
start-Tracks = record {
  marked = λ j h₁ h₂. absurd (omega arith);
  below = λ s h. refl;
  once = λ s. omega arith;
}

-- The numbers that a window accepts, the last first, of a sequence as it arrives.
unfoldable pub run : (size : ℕ) → Window → (seen arriving : List ℕ) → List ℕ
run size w seen [] = seen
run size w seen (x ∷ xs) =
    let (ok, w') = udp_replay_accept size w x in run size w' (if ok then x ∷ seen else seen) xs

-- The window of work connections is that of datagrams at 64 bits.
same_window :
    (w : Window) (sequence : ℕ) → accept_work_sequence w sequence ≡ udp_replay_accept 64 w sequence
unfolding accept_work_sequence udp_replay_accept
same_window w sequence = refl

-- A work connection's number is accepted exactly when it is not zero, lies less than 64 below the
-- highest or above it, and was not accepted before; the window then tracks the longer history. A
-- refusal changes nothing.
pub accept_work_sequence_lem :
    (w : Window) (seen : List ℕ) (sequence : ℕ)
    → Tracks w seen
    → Judged 64 w seen sequence (accept_work_sequence w sequence)
accept_work_sequence_lem w seen sequence v =
    rw (same_window w sequence) (udp_replay_accept_lem 64 w seen sequence (omega arith) v)
