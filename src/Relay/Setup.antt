-- ===== src/Relay/Setup.antt =====
-- The relay behind `ct_relay_init` of src/net/relay.c, and its rings.
use ctunnel.Prelude.{
  either_way, ℕ, ◌+◌, ◌≤◌, ◌<◌, ◌^◌, ◌≡◌, refl, Bool, true, false, not, ◌&&◌, Option, none, some,
  ◌>>=◌, ◌>>◌, guard, List, [], ◌∷◌, ◌++◌, length, length-append, length-take, length-drop,
  length-set, length-blit, take, drop, set, blit, replicate, leb, ltb, ◌||◌, ◌*◌, ◌%◌, ◌/◌, ◌∙◌,
  Option-cases, Bool-cases, inl, inr, ◌==◌, if◌then◌else◌, arith,
}
use ctunnel.Types.{
  Endpoint, StreamMetadata, enc_required, proxy_protocol_off, proxy_protocol_v1, proxy_protocol_v2,
}
use ctunnel.Wire.Ints.{put_u16, at}
use ctunnel.Proxy.{
  normalize_pair, build_v1, v1_line, build_v2, build_v2_write, signature, proxy_protocol_build,
}
use ctunnel.Ring.{IsRing, ring_init}
use ctunnel.Metrics.{Metrics}
use ctunnel.Relay.{Relay, State, append}
use ctunnel.Relay.Process.{relay_close}
use ctunnel.Relay.Init.{
  blank, with_rings, with_keys, opened, header_failed, queue_header, begin_plain, begin_stream,
  set_up, build_header, relay_init,
}
use ctunnel.Relay.Rings.{IsOpen, append-IsRing}
use ctunnel.Relay.Invariant.{Sound}

-- The size of a header is within its buffer.
abbrev pub Fits : Option (List ℕ × ℕ) → Type 0
Fits none = Unit
Fits (some (header, n)) = n ≤ length header

opened-Sound : (s : State) → IsOpen s.relay → Sound (opened s)
unfolding opened
opened-Sound s v = record {
  open_still = v.open_still;
  work_input_ring = v.work_input_ring;
  to_direct_ring = v.to_direct_ring;
  to_work_ring = v.to_work_ring;
}

begin_plain-Sound : (s : State) → IsOpen s.relay → Sound (begin_plain s)
unfolding begin_plain
begin_plain-Sound s v =
    opened-Sound _ (either_way (λ (t : State). IsOpen t.relay) s.relay.is_client v v)

queue_header-Sound :
    (mode : ℕ) (o : Option (List ℕ × ℕ)) (s : State)
    → Fits o
    → IsOpen s.relay
    → Sound (queue_header mode o s)
unfolding queue_header header_failed relay_close
queue_header-Sound mode none s fits v = refl
queue_header-Sound mode (some (header, n)) s fits v =
    either_way Sound (append s.relay.to_direct header n).0
      (opened-Sound _ (record {
        open_still = v.open_still;
        work_input_ring = v.work_input_ring;
        to_direct_ring = append-IsRing s.relay.to_direct header n v.to_direct_ring fits;
        to_work_ring = v.to_work_ring;
      }))
      refl

begin_stream-Sound :
    (build : StreamMetadata → Option (List ℕ × ℕ)) (metadata : Option StreamMetadata) (s : State)
    → ((x : StreamMetadata) → Fits (build x))
    → IsOpen s.relay
    → Sound (begin_stream build metadata s)
unfolding begin_stream
begin_stream-Sound build none s fits v = begin_plain-Sound s v
begin_stream-Sound build (some x) s fits v =
    either_way Sound (s.relay.is_client && not (x.proxy_protocol == proxy_protocol_off))
      (queue_header-Sound x.proxy_protocol (build x) s (fits x) v) (begin_plain-Sound s v)

-- An option of a relay that is open if it is there.
abbrev OpenIf : Option Relay → Type 0
OpenIf none = Unit
OpenIf (some r) = IsOpen r

set_up-Sound :
    (build : StreamMetadata → Option (List ℕ × ℕ)) (metadata : Option StreamMetadata)
    (failed : Relay) (m : Metrics) (o : Option Relay)
    → ((x : StreamMetadata) → Fits (build x))
    → OpenIf o
    → Sound (set_up build metadata failed m o)
unfolding set_up relay_close
set_up-Sound build metadata failed m none fits v = refl
set_up-Sound build metadata failed m (some r) fits v = begin_stream-Sound build metadata _ fits v

with_keys-OpenIf :
    (derive : ℕ → Option (List ℕ × List ℕ)) (client : Bool) (r : Relay)
    → IsOpen r
    → OpenIf (with_keys derive client r)
unfolding with_keys
with_keys-OpenIf derive client r v =
    first (derive (if client then 0 else 1)) (derive (if client then 1 else 0))
  where
    first :
        (a b : Option (List ℕ × List ℕ))
        → OpenIf (
            a >>= λ (k, n). b >>= λ (k', n').
            some (record r { send_key = k; send_nonce = n; recv_key = k'; recv_nonce = n' }))
    first none b = tt
    first (some a) none = tt
    first (some a) (some b) = record {
      open_still = v.open_still;
      work_input_ring = v.work_input_ring;
      to_direct_ring = v.to_direct_ring;
      to_work_ring = v.to_work_ring;
    }

length-at :
    (off : ℕ) (f : List ℕ → List ℕ) (b : List ℕ)
    → ((q : List ℕ) → length (f q) ≡ length q)
    → length (at off f b) ≡ length b
length-at off f b keeps = omega (
  arith,
  length-append (take off b) (f (drop off b)),
  keeps (drop off b),
  length-take off b,
  length-drop off b,
)

length-put_u16 : (w : ℕ) (q : List ℕ) → length (put_u16 q w) ≡ length q
unfolding put_u16
length-put_u16 w q =
    length-set (set q 0 (w / 2 ^ 8 % 2 ^ 8)) 1 (w % 2 ^ 8) ∙ length-set q 0 (w / 2 ^ 8 % 2 ^ 8)

length-build_v2_write :
    (out : List ℕ) (s d : Endpoint) (n : ℕ)
    → length out ≡ 108
    → n ≤ 16
    → length (build_v2_write out s d n) ≡ 108
unfolding build_v2_write
length-build_v2_write out s d n size small =
    length-at (16 + n * 2 + 2) (λ q. put_u16 q d.port) _ (length-put_u16 d.port)
    ∙ length-at (16 + n * 2) (λ q. put_u16 q s.port) _ (length-put_u16 s.port)
    ∙ length-blit (16 + n) (take n d.addr) _ (omega (arith, length-take n d.addr, to_source))
    ∙ to_source
  where
    b₄ : List ℕ
    b₄ =
        at 14 (λ q. put_u16 q ((n * 2 + 4) % 2 ^ 16))
          (set (set (blit 0 signature out) 12 0x21) 13 (if s.family == 4 then 0x11 else 0x21))

    to_fixed : length b₄ ≡ 108
    to_fixed =
        length-at 14 (λ q. put_u16 q ((n * 2 + 4) % 2 ^ 16))
          (set (set (blit 0 signature out) 12 0x21) 13 (if s.family == 4 then 0x11 else 0x21))
          (length-put_u16 ((n * 2 + 4) % 2 ^ 16))
        ∙ length-set (set (blit 0 signature out) 12 0x21) 13 (if s.family == 4 then 0x11 else 0x21)
        ∙ length-set (blit 0 signature out) 12 0x21
        ∙ length-blit 0 signature out (omega arith)
        ∙ size

    to_source : length (blit 16 (take n s.addr) b₄) ≡ 108
    to_source =
        length-blit 16 (take n s.addr) b₄ (omega (arith, length-take n s.addr, to_fixed)) ∙ to_fixed

-- A header ends inside the buffer, for any address.
v2-Fits :
    (out : List ℕ) (m : StreamMetadata) (f : Bool) → length out ≡ 108 → Fits (build_v2 f out 108 m)
unfolding build_v2
v2-Fits out m false size = tt
v2-Fits out m true size = elim (Option-cases (normalize_pair m)) [
  | inl e ↦ rw e tt
  | inr ((s, d), e) ↦ rw e (ended s d (if s.family == 4 then 4 else 16) (ground arith))
]
  where
    ended :
        (s d : Endpoint) (n : ℕ)
        → n ≤ 16
        → Fits (
            guard (not (ltb 108 (12 + 4 + (n * 2 + 4) % 2 ^ 16)))
            >> some (build_v2_write out s d n, 12 + 4 + (n * 2 + 4) % 2 ^ 16))
    ended s d n small = elim (Bool-cases (ltb 108 (12 + 4 + (n * 2 + 4) % 2 ^ 16))) [
      | inl e ↦ rw e tt
      | inr e ↦ rw e (ground (arith, e, length-build_v2_write out s d n size small))
    ]

v1-Fits :
    (inet_ntop : ℕ → List ℕ → Option (List ℕ)) (decimal : ℕ → List ℕ) (out : List ℕ)
    (m : StreamMetadata) (f : Bool)
    → Fits (build_v1 inet_ntop decimal f out 108 m)
unfolding build_v1
v1-Fits inet_ntop decimal out m false = tt
v1-Fits inet_ntop decimal out m true = elim (Option-cases (normalize_pair m)) [
  | inl e ↦ rw e tt
  | inr ((s, d), e) ↦ rw e (named s d (inet_ntop s.family s.addr) (inet_ntop s.family d.addr))
]
  where
    ended :
        (line : List ℕ)
        → Fits (
            guard (not (leb 108 (length line) || ltb 108 (length line)))
            >> some (blit 0 (line ++ (0 ∷ [])) out, length line))
    ended line = elim (Bool-cases (leb 108 (length line) || ltb 108 (length line))) [
      | inl e ↦ rw e tt
      | inr e ↦ rw e (
          omega (
            arith,
            length-append (line ++ (0 ∷ [])) (drop (0 + length (line ++ (0 ∷ []))) out),
            length-append line (0 ∷ []),
          ))
    ]

    named :
        (s d : Endpoint) (x y : Option (List ℕ))
        → Fits (
            x >>= λ from. y >>= λ to.
            guard (
              not (
                leb 108 (length (v1_line inet_ntop decimal s d from to))
                || ltb 108 (length (v1_line inet_ntop decimal s d from to))))
            >> some (
              blit 0 (v1_line inet_ntop decimal s d from to ++ (0 ∷ [])) out,
              length (v1_line inet_ntop decimal s d from to),
            ))
    named s d none y = tt
    named s d (some from) none = tt
    named s d (some from) (some to) = ended (v1_line inet_ntop decimal s d from to)

build_header-Fits :
    (inet_ntop : ℕ → List ℕ → Option (List ℕ)) (decimal : ℕ → List ℕ) (feature_v1 feature_v2 : Bool)
    (m : StreamMetadata)
    → Fits (build_header inet_ntop decimal feature_v1 feature_v2 m)
unfolding build_header proxy_protocol_build
build_header-Fits inet_ntop decimal feature_v1 feature_v2 m =
    either_way Fits (m.proxy_protocol == proxy_protocol_off) (omega arith) (
      either_way Fits (m.proxy_protocol == proxy_protocol_v1)
        (v1-Fits inet_ntop decimal (replicate 108 0) m feature_v1)
        (either_way Fits (m.proxy_protocol == proxy_protocol_v2)
          (v2-Fits (replicate 108 0) m feature_v2 refl) tt))

-- Whatever memory of the size asked for, keys and metadata the call is given: it sets up an open
-- relay with well-formed rings, or fails and leaves a closed one.
pub relay_init-Sound :
    (inet_ntop : ℕ → List ℕ → Option (List ℕ)) (decimal : ℕ → List ℕ) (feature_v1 feature_v2 : Bool)
    (size : ℕ) (a b c : List ℕ) (derive : ℕ → Option (List ℕ × List ℕ)) (direct work : ℕ)
    (client : Bool) (mode cipher : ℕ) (metadata : Option StreamMetadata) (m : Metrics)
    → 0 < size
    → size ≤ 2 ^ 63
    → length a ≡ size
    → length b ≡ size
    → length c ≡ size
    → Sound (
        relay_init inet_ntop decimal feature_v1 feature_v2 size
          (some a)
          (some b)
          (some c)
          derive
          direct
          work
          client
          mode
          cipher
          metadata
          m)
unfolding relay_init with_rings ring_init blank
relay_init-Sound inet_ntop decimal feature_v1 feature_v2 size a b c derive direct work client mode
      cipher metadata m pos small ha hb hc =
    set_up-Sound (build_header inet_ntop decimal feature_v1 feature_v2) metadata _ m _
      (build_header-Fits inet_ntop decimal feature_v1 feature_v2)
      (either_way OpenIf (mode == enc_required) (with_keys-OpenIf derive client _ rings) rings)
  where
    whole :
        (memory : List ℕ)
        → length memory ≡ size
        → IsRing (record { bytes = memory; cap = size; head = 0; len = 0 })
    whole memory h = record { memory = h; small = small; head_in = pos; len_in = omega arith }

    rings : IsOpen (record (blank direct work client mode cipher) {
      to_direct = record { bytes = a; cap = size; head = 0; len = 0 };
      to_work = record { bytes = b; cap = size; head = 0; len = 0 };
      work_input = record { bytes = c; cap = size; head = 0; len = 0 };
    })
    rings = record {
      open_still = refl;
      work_input_ring = whole c hc;
      to_direct_ring = whole a ha;
      to_work_ring = whole b hb;
    }
